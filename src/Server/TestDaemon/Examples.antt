-- ===== src/Server/TestDaemon/Examples.antt =====
-- The theorems about replies at the daemon of the tests.
use rust_commons.Prelude.{
  false, ℕ, ◌≡◌, refl, some, List, [], ◌∷◌, ◌++◌, ok, err, codes, str_eq, arith,
}
use rust_commons.StdIo.Memory.{slice_read, slice_delivers, vec_write, vec_appends}
use rust_commons.Frame.{
  unexpected_eof, write_frame_with_limit, write_frame_bytes, frame_header, read_frame_with_limit,
  header_len,
}
use rust_commons.Frame.Sequence.{write_messages, read_messages}
use rust_commons.Frame.Wire.{OnWire}
use rust_commons.Auth.{unchecked}
use rust_commons.Auth.Policy.{anyone}
use rust_commons.Command.{json_type_field, Session}
use rust_commons.Server.{persistent, handle_conn}
use rust_commons.Server.Conversation.{replay}
use rust_commons.Server.Replies.{answers, replies_in_order}
use rust_commons.Server.Replies.Farewell.{farewell_closes}
use rust_commons.Server.TestDaemon.{
  hangup_cmd, echo_effect, echo_answer, echo_answering, unknown-IsAnswered, done_farewell,
}
use rust_commons.Server.TestDaemon.Values.{
  TestValue, request, error_of, ok_true, test_json, objects, texts, no_creds, both_read, both_write,
  both, reliable, both_never, slice_never, decode-encode, echoing, closing, two_asked, two_sent,
}

abbrev two_answered : List ℕ
two_answered =
    6 ∷ 0 ∷ 0 ∷ 0 ∷ 0 ∷ 1 ∷ 101 ∷ 99 ∷ 104 ∷ 111 ∷ 11 ∷ 0 ∷ 0 ∷ 0 ∷ 1 ∷ 117 ∷ 110 ∷ 107 ∷ 110 ∷ 111
    ∷ 119 ∷ 110 ∷ 58 ∷ 110 ∷ 111 ∷ []

two_written : write_messages test_json.serde vec_write two_asked 64 [] ≡ (ok tt, two_sent)
unfolding write_messages write_frame_with_limit write_frame_bytes frame_header
two_written = refl

abbrev echo_effects : TestValue → ℕ → ℕ
echo_effects = echo_effect test_json both_write texts objects

abbrev echo_answers : TestValue → ℕ → TestValue
echo_answers = echo_answer test_json both_write texts objects

two-OnWire : OnWire test_json.serde 64 (answers echo_effects echo_answers two_asked 0) two_answered
unfolding answers json_type_field str_eq frame_header
two-OnWire = (_, _, refl, omega arith, refl, (_, _, refl, omega arith, refl, refl))

replies_in_order_example :
    (t : Session ℕ (List ℕ × List ℕ)) × (r : List ℕ) × (handle_conn echoing 3 unchecked persistent
        64
        (two_sent, [])
        0
      ≡ some t)
    × (t.state ≡ replay echo_effects two_asked 0)
    × (t.conn.stream.1 ≡ [] ++ two_answered)
    × (read_messages test_json.serde slice_read 2 64 two_answered
        ≡ (ok (answers echo_effects echo_answers two_asked 0), r))
    × (r ≡ [])
replies_in_order_example =
    replies_in_order echoing both both_never reliable vec_appends slice_delivers slice_never
      decode-encode 64 (omega arith) echo_effects echo_answers two_asked (two_sent, []) 0 unchecked
      3 [] two_sent two_answered two_answered anyone
      (echo_answering test_json both_write texts objects both_read no_creds two_asked) two_written
      refl two-OnWire refl (omega arith)

-- An unknown name, `done`, and a request behind it.
abbrev done_asked : List TestValue
done_asked = request (codes "no") 2 ∷ request (codes "done") 3 ∷ []

abbrev done_sent : List ℕ
done_sent = 4 ∷ 0 ∷ 0 ∷ 0 ∷ 0 ∷ 2 ∷ 110 ∷ 111 ∷ 6 ∷ 0 ∷ 0 ∷ 0 ∷ 0 ∷ 3 ∷ 100 ∷ 111 ∷ 110 ∷ 101 ∷ []

abbrev done_answered : List ℕ
done_answered =
    11 ∷ 0 ∷ 0 ∷ 0 ∷ 1 ∷ 117 ∷ 110 ∷ 107 ∷ 110 ∷ 111 ∷ 119 ∷ 110 ∷ 58 ∷ 110 ∷ 111 ∷ 1 ∷ 0 ∷ 0 ∷ 0
    ∷ 2 ∷ []

done_written : write_messages test_json.serde vec_write done_asked 64 [] ≡ (ok tt, done_sent)
unfolding write_messages write_frame_with_limit write_frame_bytes frame_header
done_written = refl

abbrev unchanged : TestValue → ℕ → ℕ
unchanged body n = n

abbrev no_such_name : TestValue → ℕ → TestValue
no_such_name body n = error_of (codes "unknown:" ++ codes "no")

done-OnWire :
    OnWire test_json.serde 64
      (answers unchanged no_such_name (request (codes "no") 2 ∷ []) 7 ++ ok_true ∷ [])
      done_answered
unfolding answers frame_header
done-OnWire = (_, _, refl, omega arith, refl, (_, _, refl, omega arith, refl, refl))

names_no : json_type_field test_json (request (codes "no") 2) ≡ some (codes "no")
unfolding json_type_field str_eq
names_no = refl

names_done : json_type_field test_json (request (codes "done") 3) ≡ some (codes "done")
unfolding json_type_field str_eq
names_done = refl

other_name : str_eq (codes "done") (codes "no") ≡ false
unfolding str_eq
other_name = refl

farewell_closes_example :
    (t : Session ℕ (List ℕ × List ℕ)) × (r₁ : List ℕ) × (r₂ : List ℕ) × (handle_conn closing 2
        unchecked persistent 64
        (done_sent ++ 9 ∷ [], [])
        7
      ≡ some t)
    × (t.state ≡ replay unchanged (request (codes "no") 2 ∷ []) 7)
    × (t.conn.stream.0 ≡ 9 ∷ [])
    × (t.conn.stream.1 ≡ [] ++ done_answered)
    × (read_messages test_json.serde slice_read 2 64 done_answered
        ≡ (ok (answers unchanged no_such_name (request (codes "no") 2 ∷ []) 7 ++ ok_true ∷ []), r₁))
    × (read_frame_with_limit test_json.serde slice_read 64 r₁
        ≡ (err (unexpected_eof 0 header_len), r₂))
farewell_closes_example =
    farewell_closes closing both both_never reliable vec_appends slice_delivers slice_never
      decode-encode 64 (omega arith) unchanged no_such_name (request (codes "done") 3) ok_true
      (λ n. n)
      (done_farewell test_json both_write texts objects both_read no_creds
        (request (codes "done") 3) names_done)
      (request (codes "no") 2 ∷ []) (done_sent ++ 9 ∷ [], []) 7 unchecked 2 [] done_sent (9 ∷ [])
      done_answered done_answered anyone
      (
        unknown-IsAnswered test_json both_write texts objects both_read no_creds
            (hangup_cmd test_json both_write texts objects) (request (codes "no") 2) (codes "no")
            names_no other_name,
        tt,
      )
      done_written refl done-OnWire refl (omega arith)
