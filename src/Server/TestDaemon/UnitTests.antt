-- ===== src/Server/TestDaemon/UnitTests.antt =====
-- The tests of ipc/server.rs that talk to a server: what their clients see. A client's bytes are
-- there when its thread serves it, and it reads behind the end of the session.
use rust_commons.Prelude.{
  ℕ, ◌*◌, ◌≡◌, refl, Option, none, some, List, [], Result, ok, err, codes, str_eq, dec_lt, lt_wf,
}
use rust_commons.StdIo.Memory.{slice_read, vec_write}
use rust_commons.Frame.{
  FrameError, unexpected_eof, read_frame, write_frame, read_frame_with_limit,
  write_frame_with_limit, read_frame_bytes, write_frame_bytes, read_exact, read_loop, frame_header,
}
use rust_commons.Auth.{unchecked, allows}
use rust_commons.Command.{
  Session, reply, read_value, json_type_field, get, add, find_command, and_then,
}
use rust_commons.Server.{
  SessionMode, one_shot, persistent, Parts, AcceptPolicy, handle_conn, request_loop, dispatch_one,
  read_request, end_one_shot, end_persistent, is_closed,
}
use rust_commons.Server.TestDaemon.Values.{
  TestValue, request, text, number, truth, field, test_json, echoing, closing,
}

abbrev Ended : Type 0
Ended = Session ℕ (List ℕ × List ℕ)

-- A connection of a client that sends one object.
abbrev connection :
    Parts ℕ (List ℕ × List ℕ) ℕ TestValue ℕ → AcceptPolicy → TestValue → ℕ → Option Ended
connection parts policy body state =
    let sent = (write_frame test_json.serde vec_write body []).1 in
    handle_conn parts 2 policy.auth policy.session policy.max_frame (sent, []) state

abbrev read_back : List ℕ → Result (FrameError ℕ) TestValue × List ℕ
read_back = read_frame test_json.serde slice_read

-- `back["key"]`
abbrev back_at : Result (FrameError ℕ) TestValue × List ℕ → List ℕ → Option TestValue
back_at (ok back, r) key = field back key
back_at (err e, r) key = none

abbrev test_policy : SessionMode → AcceptPolicy
test_policy mode = record {
  auth = unchecked;
  session = mode;
  max_clients = none;
  max_frame = 64 * 1024;
}

-- The field of each answer, and the state at the end.
abbrev oneshot_echo_and_unknown : Option (Option TestValue × Option TestValue × ℕ)
oneshot_echo_and_unknown =
    and_then (connection echoing (test_policy one_shot) (request (codes "echo") 1) 0) (λ c₁.
      and_then (connection echoing (test_policy one_shot) (request (codes "nope") 0) c₁.state)
        (λ c₂. some (
          back_at (read_back c₁.conn.stream.1) (codes "n"),
          back_at (read_back c₂.conn.stream.1) (codes "error"),
          c₂.state,
        )))

-- The field of the answer, and what the reading behind it gives.
abbrev persistent_hangup_closes_without_error_frame :
    Option (Option TestValue × Result (FrameError ℕ) TestValue)
persistent_hangup_closes_without_error_frame =
    and_then (connection closing (test_policy persistent) (request (codes "done") 0) 0) (λ c.
      let first = read_back c.conn.stream.1 in
      some (back_at first (codes "ok"), (read_back first.1).0))

oneshot_passes :
    oneshot_echo_and_unknown ≡ some (some (number 1), some (text (codes "unknown:nope")), 1)
unfolding allows handle_conn end_one_shot dispatch_one read_request read_value reply json_type_field
    get add find_command str_eq read_frame write_frame read_frame_with_limit write_frame_with_limit
    read_frame_bytes write_frame_bytes read_exact read_loop frame_header lt_wf dec_lt
oneshot_passes = refl

persistent_hangup_passes :
    persistent_hangup_closes_without_error_frame ≡ some (some truth, err (unexpected_eof 0 4))
unfolding allows handle_conn request_loop end_persistent is_closed dispatch_one read_request
    read_value reply json_type_field get add find_command str_eq read_frame write_frame
    read_frame_with_limit write_frame_with_limit read_frame_bytes write_frame_bytes read_exact
    read_loop frame_header lt_wf dec_lt
persistent_hangup_passes = refl
