-- ===== src/Server/Conversation/Examples.antt =====
-- A conversation with a server of ipc/server.rs: the client sends a command and an unknown name.
use rust_commons.Prelude.{
  ℕ, ◌+◌, ◌≡◌, refl, some, List, [], ◌∷◌, ok, Str, str_eq, arith, if◌then◌else◌,
}
use rust_commons.StdIo.Memory.{slice_delivers, vec_write, vec_appends}
use rust_commons.Frame.{write_frame_with_limit, write_frame_bytes, frame_header}
use rust_commons.Frame.Exact.{IsInfallible}
use rust_commons.Frame.Sequence.{write_messages}
use rust_commons.Auth.{unchecked}
use rust_commons.Auth.Policy.{anyone}
use rust_commons.Command.{get, json_type_field}
use rust_commons.Server.{Parts, persistent, handle_conn}
use rust_commons.Server.Examples.{Demo, js, ping, demo}
use rust_commons.Server.Conversation.{IsEffect, replay, requests_served_in_order}

-- The demonstration with one command, which hangs up on nobody.
abbrev patient : Parts ℕ (List ℕ) ℕ Str ℕ
patient = record demo { router = record { commands = (112 ∷ [], ping) ∷ [] } }

abbrev counts : Str → ℕ → ℕ
counts body state = if str_eq (112 ∷ []) body then state + 1000 else state + 1

patient_counts : IsEffect patient slice_delivers counts
unfolding get json_type_field
patient_counts = record {
  served = λ body s. ground arith;
  state = λ body s. ground arith;
  unread = λ body s. ground arith;
  max_frame = λ body s. ground arith;
}

never : IsInfallible ℕ slice_delivers
never r n e r' h = cc

abbrev asked : List Str
asked = (112 ∷ []) ∷ (120 ∷ []) ∷ (112 ∷ []) ∷ []

abbrev sent : List ℕ
sent = 1 ∷ 0 ∷ 0 ∷ 0 ∷ 112 ∷ 1 ∷ 0 ∷ 0 ∷ 0 ∷ 120 ∷ 1 ∷ 0 ∷ 0 ∷ 0 ∷ 112 ∷ []

all_written : write_messages js.serde vec_write asked 16 [] ≡ (ok tt, sent)
unfolding write_messages write_frame_with_limit write_frame_bytes frame_header
all_written = refl

all_counted : replay counts asked 0 ≡ 2001
unfolding replay str_eq
all_counted = refl

requests_served_in_order_example :
    (t : Demo) × (handle_conn patient 4 unchecked persistent 16 sent 0 ≡ some t)
    × (t.state ≡ replay counts asked 0)
requests_served_in_order_example =
    requests_served_in_order patient slice_delivers never counts patient_counts vec_appends
      (λ m bs e. cc) 16 (omega arith) asked sent 0 unchecked 4 [] sent anyone all_written refl
      (omega arith)
