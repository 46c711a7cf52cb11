-- ===== src/Server/Examples.antt =====
-- Tests of ipc/server.rs and its theorems at a concrete server. The stream is a list of bytes, and
-- a request is its own `"type"`; the shared state counts the calls of the error handler.
use rust_commons.Prelude.{
  ℕ, suc, ◌↔◌, ◌+◌, ◌≤◌, ◌≡◌, ◌⊎◌, inl, inr, refl, none, some, List, [], ◌∷◌, ok, err, arith, Str,
  str_eq, dec_lt, lt_wf,
}
use rust_commons.StdIo.Memory.{slice_read, slice_delivers}
use rust_commons.Frame.{
  FrameError, unexpected_eof, read_frame_bytes, read_exact, read_loop, read_frame_with_limit,
}
use rust_commons.Auth.{unchecked}
use rust_commons.Auth.Policy.{Permits}
use rust_commons.Command.{
  auth, hangup, empty_router, Json, json_type_field, read_value, Session, Command, get, add,
  connect_stream,
}
use rust_commons.Server.{
  Parts, one_shot, persistent, read_request, dispatch_one, end_persistent, request_loop,
  serve_session, handle_conn,
}
use rust_commons.Command.Order.{add_all, first_named, registered_first}
use rust_commons.Server.Ends.{HangsUp, hangup_one_shot, dispatch_one_err, handle_conn_policy}
use rust_commons.Server.Termination.{unread, IsConsuming, handle_conn_total}

abbrev pub Demo : Type 0
Demo = Session ℕ (List ℕ)

abbrev pub js : Json ℕ Str
js = record {
  serde = record { to_vec = λ v. ok v; from_slice = λ v. ok v };
  get = λ v key. some v;
  as_str = λ v. some v;
}

abbrev pub count : ℕ → Demo → Demo
count n s = record s { state = s.state + n }

-- 112 is `p` and 98 is `b`.
abbrev pub ping : Command ℕ (List ℕ) ℕ Str
ping = record { name = 112 ∷ []; execute = λ body s. (ok tt, count 1000 s) }

abbrev pub bye : Command ℕ (List ℕ) ℕ Str
bye = record { name = 98 ∷ []; execute = λ body s. (err hangup, s) }

abbrev pub demo : Parts ℕ (List ℕ) ℕ Str ℕ
demo = record {
  js = js;
  rd = slice_read;
  creds = record { getsockopt = λ u. err 1; from_uid = λ uid. ok none };
  router = record { commands = (112 ∷ [], ping) ∷ (98 ∷ [], bye) ∷ [] };
  hooks = record {
    unknown = λ name body s. count 1 s;
    error = λ e s. count 10 s;
    reject = λ reason s. count 100 s;
  };
}

abbrev pub at_stream : ℕ → List ℕ → Demo
at_stream n bytes = record { state = n; conn = connect_stream bytes 16 }

-- `ping`, then an unknown name, then `bye`, and a byte behind it.
abbrev pub three : List ℕ
three = 1 ∷ 0 ∷ 0 ∷ 0 ∷ 112 ∷ 1 ∷ 0 ∷ 0 ∷ 0 ∷ 120 ∷ 1 ∷ 0 ∷ 0 ∷ 0 ∷ 98 ∷ 9 ∷ []

abbrev pub only_bye : List ℕ
only_bye = 1 ∷ 0 ∷ 0 ∷ 0 ∷ 98 ∷ []

three_served : request_loop demo 3 (at_stream 0 three) ≡ some (at_stream 1001 (9 ∷ []))
unfolding request_loop dispatch_one read_request read_value read_frame_with_limit read_frame_bytes
    read_exact read_loop lt_wf dec_lt json_type_field get str_eq end_persistent
three_served = refl

reads_bye : read_request demo (at_stream 0 only_bye) ≡ (ok (98 ∷ []), at_stream 0 [])
unfolding read_request read_value read_frame_with_limit read_frame_bytes read_exact read_loop lt_wf
    dec_lt
reads_bye = refl

bye_hangs : HangsUp demo (at_stream 0 only_bye) (at_stream 0 [])
unfolding json_type_field get str_eq
bye_hangs = record {
  body = 98 ∷ [];
  read = at_stream 0 [];
  name = 98 ∷ [];
  cmd = bye;
  reads = reads_bye;
  named = refl;
  found = refl;
  hangs = refl;
}

hangup_one_shot_example :
    serve_session demo one_shot 0 (at_stream 0 only_bye) ≡ some (at_stream 10 [])
hangup_one_shot_example = hangup_one_shot demo (at_stream 0 only_bye) (at_stream 0 []) 0 bye_hangs

ended_input : dispatch_one demo (at_stream 0 (1 ∷ [])) ≡ (err (unexpected_eof 1 4), at_stream 0 [])
unfolding dispatch_one read_request read_value read_frame_with_limit read_frame_bytes read_exact
    read_loop lt_wf dec_lt
ended_input = refl

-- The ways in which a request from the stream of one byte can end the session.
abbrev EndsHere : Type 0
EndsHere =
    (read_request demo (at_stream 0 (1 ∷ [])) ≡ (err (unexpected_eof 1 4), at_stream 0 []))
    ⊎ (HangsUp demo (at_stream 0 (1 ∷ [])) (at_stream 0 [])
        × (◌≡◌ {A = FrameError ℕ} (unexpected_eof 1 4) (unexpected_eof 0 0)))

dispatch_one_err_example :
    ((dispatch_one demo (at_stream 0 (1 ∷ [])) ≡ (err (unexpected_eof 1 4), at_stream 0 []))
      ↔ EndsHere)
    × (EndsHere
        → (fuel : ℕ)
        → serve_session demo persistent (suc fuel) (at_stream 0 (1 ∷ []))
          ≡ some (end_persistent demo (unexpected_eof 1 4) (at_stream 0 [])))
dispatch_one_err_example =
    dispatch_one_err demo (at_stream 0 (1 ∷ [])) (at_stream 0 []) (unexpected_eof 1 4)

demo_commands :
    (name : Str) (cmd : Command ℕ (List ℕ) ℕ Str)
    → get demo.router name ≡ some cmd
    → (cmd ≡ ping) ⊎ (cmd ≡ bye)
unfolding get
demo_commands name cmd h = ground arith

demo_execute_le :
    (name : Str) (cmd : Command ℕ (List ℕ) ℕ Str) (body : Str) (s : Demo)
    → get demo.router name ≡ some cmd
    → unread demo slice_delivers (cmd.execute body s).1 ≤ unread demo slice_delivers s
demo_execute_le name cmd body s h = elim (demo_commands name cmd h) [
  | inl e ↦ rw e (omega arith)
  | inr e ↦ rw e (omega arith)
]

pub demo_consuming : IsConsuming demo slice_delivers
demo_consuming = record {
  execute_le = demo_execute_le;
  unknown_le = λ name body s. omega arith;
  error_le = λ e s. omega arith;
}

handle_conn_total_example :
    (t : Demo) × (handle_conn demo 17 unchecked persistent 16 three 0 ≡ some t)
handle_conn_total_example =
    handle_conn_total demo slice_delivers demo_consuming 17 unchecked persistent 16 three 0
      (omega arith)

-- Another command is registered under the name of the first, and refused.
abbrev second_ping : Command ℕ (List ℕ) ℕ Str
second_ping = record bye { name = 112 ∷ [] }

registered_first_example :
    (get (add_all (ping ∷ bye ∷ second_ping ∷ []) empty_router) (112 ∷ [])
      ≡ first_named (ping ∷ bye ∷ second_ping ∷ []) (112 ∷ []))
    × ((cmd c : Command ℕ (List ℕ) ℕ Str)
        → first_named (ping ∷ bye ∷ second_ping ∷ []) cmd.name ≡ some c
        → add cmd (add_all (ping ∷ bye ∷ second_ping ∷ []) empty_router) ≡ (
          err (record { name = cmd.name }),
          add_all (ping ∷ bye ∷ second_ping ∷ []) empty_router,
        ))
registered_first_example = registered_first (ping ∷ bye ∷ second_ping ∷ []) (112 ∷ [])

first_ping_stays : first_named (ping ∷ bye ∷ second_ping ∷ []) (112 ∷ []) ≡ some ping
unfolding str_eq
first_ping_stays = refl

handle_conn_policy_example :
    (Permits demo.creds three unchecked
      × (handle_conn demo 3 unchecked persistent 16 three 0
          ≡ serve_session demo persistent 3 (at_stream 0 three)))
    ⊎ (¬ Permits demo.creds three unchecked
        × (handle_conn demo 3 unchecked persistent 16 three 0
            ≡ some (demo.hooks.reject auth (at_stream 0 three))))
handle_conn_policy_example = handle_conn_policy demo 3 unchecked persistent 16 three 0
