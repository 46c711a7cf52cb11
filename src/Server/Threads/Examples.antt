-- ===== src/Server/Threads/Examples.antt =====
-- Tests of the whole server of ipc/server.rs: the demonstration server of the sessions, with a cap
-- of two clients.
use rust_commons.Prelude.{
  ℕ, ◌+◌, ◌++◌, ◌≤◌, ◌≡◌, refl, ap, false, some, [], ◌∷◌, List, arith, Str, str_eq, dec_lt, lt_wf,
}
use rust_commons.Frame.{read_frame_bytes, read_exact, read_loop, read_frame_with_limit}
use rust_commons.Auth.{Auth, unchecked, peer_uid_auth, peer_uid, allows}
use rust_commons.Auth.Policy.{allows_iff}
use rust_commons.Command.{json_type_field, read_value, get}
use rust_commons.Server.{
  AcceptPolicy, Parts, persistent, read_request, dispatch_one, end_persistent, request_loop,
  handle_conn,
}
use rust_commons.StdIo.Memory.{slice_delivers}
use rust_commons.Server.Examples.{demo, demo_consuming, three, only_bye, at_stream}
use rust_commons.Server.Threads.Work.{turns_made, work, work_brought, turns_made_bounded}
use rust_commons.Server.Threads.Drain.{times, slots_come_back}
use rust_commons.Server.Threads.{
  Action, Stage, waiting, counting, releases, accepts, proceeds, runs, crashes, begin_with, advance,
  advance_at, drop_at, act, run_actions,
}
use rust_commons.Server.Threads.Refusal.{Stranger, RejectsQuietly, Unserved}
use rust_commons.Server.Threads.Strangers.{strangers_change_nothing}

abbrev capped : Auth → AcceptPolicy
capped auth = record { auth = auth; session = persistent; max_clients = some 2; max_frame = 16 }

-- Two clients whose requests interleave, and a third that finds the server full.
abbrev schedule : List (Action (List ℕ))
schedule =
    accepts three
    ∷ proceeds
    ∷ proceeds
    ∷ accepts three
    ∷ proceeds
    ∷ proceeds
    ∷ runs 0
    ∷ runs 1
    ∷ runs 1
    ∷ accepts only_bye
    ∷ runs 0
    ∷ runs 0
    ∷ crashes 0
    ∷ []

shared_state : (run_actions demo (capped unchecked) schedule (begin_with 0)).state ≡ 2101
unfolding run_actions act advance advance_at drop_at dispatch_one read_request read_value
    read_frame_with_limit read_frame_bytes read_exact read_loop lt_wf dec_lt json_type_field get
    str_eq end_persistent allows
shared_state = refl

-- The same server, with no word to a peer that is rejected; no peer is known to it.
abbrev silent : Parts ℕ (List ℕ) ℕ Str ℕ
silent = record demo {
  hooks = record { unknown = demo.hooks.unknown; error = demo.hooks.error; reject = λ reason s. s };
}

silent_quiet : RejectsQuietly silent (capped (peer_uid_auth 0 []))
silent_quiet reason s = refl

nobody : (stream : List ℕ) → allows silent.creds (peer_uid_auth 0 []) stream ≡ false
unfolding allows peer_uid
nobody stream = refl

unknown_peer : (stream : List ℕ) → Stranger silent (capped (peer_uid_auth 0 [])) stream
unknown_peer stream permitted =
    cc (nobody stream, (allows_iff silent.creds stream (peer_uid_auth 0 [])).1 permitted)

strangers_change_nothing_example :
    let s = run_actions silent (capped (peer_uid_auth 0 [])) schedule (begin_with 7) in
    (s.state ≡ 7) × Unserved silent (capped (peer_uid_auth 0 [])) s.threads
strangers_change_nothing_example =
    strangers_change_nothing silent (capped (peer_uid_auth 0 [])) silent_quiet 7 schedule
      (unknown_peer three, (unknown_peer three, (unknown_peer only_bye, tt)))

three_handled : handle_conn demo 3 unchecked persistent 16 three 0 ≡ some (at_stream 1001 (9 ∷ []))
unfolding handle_conn request_loop dispatch_one read_request read_value read_frame_with_limit
    read_frame_bytes read_exact read_loop lt_wf dec_lt json_type_field get str_eq end_persistent
    allows
three_handled = refl

turns_made_bounded_example :
    turns_made demo (capped unchecked) slice_delivers schedule (begin_with 0)
      + work demo
          (capped unchecked)
          slice_delivers
          (run_actions demo (capped unchecked) schedule (begin_with 0)).threads
    ≤ work demo (capped unchecked) slice_delivers []
      + work_brought demo (capped unchecked) slice_delivers schedule (begin_with 0)
turns_made_bounded_example =
    turns_made_bounded demo (capped unchecked) slice_delivers demo_consuming schedule (begin_with 0)

-- The schedule above, seen from the accept loop.
abbrev ended : Stage (List ℕ) × ℕ
ended = let s = run_actions demo (capped unchecked) schedule (begin_with 0) in (s.stage, s.panicked)

ended_waiting : ended ≡ (waiting, 1)
unfolding run_actions act advance advance_at drop_at dispatch_one read_request read_value
    read_frame_with_limit read_frame_bytes read_exact read_loop lt_wf dec_lt json_type_field get
    str_eq end_persistent allows
ended_waiting = refl

slots_come_back_example :
    (turns : ℕ) × (rest : ℕ) × (let s =
        run_actions demo (capped unchecked) schedule (begin_with 0) in
      let u = run_actions demo (capped unchecked) (times turns (runs 0) ++ times rest releases) s in
      (u.threads ≡ [])
      × (u.leaving ≡ 0)
      × (u.clients ≡ s.panicked)
      × ((act demo (capped unchecked) (accepts three) u).stage ≡ counting three))
slots_come_back_example =
    slots_come_back demo (capped unchecked) slice_delivers demo_consuming 2 0 schedule three refl
      (omega arith) (ap (λ x. x.0) ended_waiting) (omega (arith, ap (λ x. x.1) ended_waiting))
