-- ===== src/Server/Threads/Crosstalk/Examples.antt =====
-- Two clients of the daemon with the command `Echo`, whose requests are served in turns.
use rust_commons.Prelude.{ℕ, none, List, [], ◌∷◌, arith, str_eq, refl}
use rust_commons.Frame.{frame_header}
use rust_commons.Frame.Wire.{OnWire}
use rust_commons.Auth.{unchecked}
use rust_commons.Command.{json_type_field}
use rust_commons.Server.{AcceptPolicy, persistent}
use rust_commons.Server.TestDaemon.{named_answer, echo_effect, echo_answering}
use rust_commons.Server.TestDaemon.Values.{
  TestValue, test_json, objects, texts, no_creds, both_read, both_write, both, both_never, reliable,
  decode-encode, echoing, two_asked, two_sent,
}
use rust_commons.Server.Threads.{Action, accepts, proceeds, runs, run_actions, begin_with}
use rust_commons.Server.Threads.Local.{AllHold}
use rust_commons.Server.Threads.Apart.{AllHandled, Asks, IsAnsweringOwn}
use rust_commons.Server.Threads.Crosstalk.{no_crosstalk}

abbrev open_policy : AcceptPolicy
open_policy = record { auth = unchecked; session = persistent; max_clients = none; max_frame = 64 }

abbrev echo_effects : TestValue → ℕ → ℕ
echo_effects = echo_effect test_json both_write texts objects

abbrev own_answer : TestValue → TestValue
own_answer body =
    named_answer test_json both_write texts objects body (json_type_field test_json body)

two_handled : AllHandled echoing both open_policy echo_effects own_answer two_asked
unfolding json_type_field str_eq
two_handled =
    let all = echo_answering test_json both_write texts objects both_read no_creds two_asked in
    (
      record { answered = all.0; payload = _; encodes = refl; fits = omega arith },
      (record { answered = all.1.0; payload = _; encodes = refl; fits = omega arith }, tt),
    )

two_arrive : OnWire test_json.serde 64 two_asked two_sent
unfolding frame_header
two_arrive = (_, _, refl, omega arith, refl, (_, _, refl, omega arith, refl, refl))

abbrev asks_two : Asks echoing both open_policy echo_effects own_answer (two_sent, [])
asks_two = record { bodies = two_asked; on_wire = two_arrive; handled = two_handled }

abbrev in_turns : List (Action (List ℕ × List ℕ))
in_turns =
    accepts (two_sent, [])
    ∷ proceeds
    ∷ accepts (two_sent, [])
    ∷ proceeds
    ∷ runs 0
    ∷ runs 1
    ∷ runs 1
    ∷ runs 0
    ∷ runs 1
    ∷ []

no_crosstalk_example :
    AllHold echoing open_policy
      (Asks echoing both open_policy echo_effects own_answer)
      (IsAnsweringOwn echoing both open_policy echo_effects own_answer)
      (run_actions echoing open_policy in_turns (begin_with 0)).threads
no_crosstalk_example =
    no_crosstalk echoing both both_never reliable decode-encode open_policy (omega arith) refl
      echo_effects own_answer in_turns 0 (asks_two, (asks_two, tt))
