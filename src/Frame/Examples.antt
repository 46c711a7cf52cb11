-- ===== src/Frame/Examples.antt =====
-- Tests of ipc/frame.rs and its theorems at concrete streams: a `Vec<u8>`, a byte slice, and a peer
-- that sends in pieces. The codec of the messages is the identity on bytes.
use rust_commons.Prelude.{
  ℕ, ◌+◌, ◌≤◌, ◌≡◌, refl, List, [], ◌∷◌, ◌++◌, ok, err, length, take, drop, ge→ltb, append-nil, sym,
  replicate, length-replicate, arith, dec_lt, lt_wf,
}
use rust_commons.StdIo.Memory.{
  slice_read, slice_delivers, vec_write, vec_appends, Arrival, segment, peer_read,
}
use rust_commons.Frame.{
  too_large, unexpected_eof, Serde, default_max_frame_bytes, read_loop, read_exact,
  read_frame_bytes, read_frame_with_limit, write_frame_bytes, write_frame_with_limit, u32_max,
}
use rust_commons.Frame.Header.{frame_header}
use rust_commons.Frame.Exact.{IsInfallible}
use rust_commons.Frame.Sequence.{write_messages, read_messages, messages_round_trip}
use rust_commons.Frame.Spec.{parse_frame, read_frame_bytes-eq-parse_frame}
use rust_commons.Frame.RoundTrip.{frame, frame_round_trip, write_frame_bytes_saturates}

abbrev bytes_serde : Serde ℕ (List ℕ)
bytes_serde = record { to_vec = λ m. ok m; from_slice = λ bs. ok bs }

bytes_serde_back : (m bs : List ℕ) → bytes_serde.to_vec m ≡ ok bs → bytes_serde.from_slice bs ≡ ok m
bytes_serde_back m bs e = cc

slice_never : IsInfallible ℕ slice_delivers
slice_never r n e r' h = cc

abbrev message : List ℕ
message = 104 ∷ 105 ∷ []

-- The message on the wire.
abbrev wire : List ℕ
wire = 2 ∷ 0 ∷ 0 ∷ 0 ∷ 104 ∷ 105 ∷ []

written_wire : write_frame_with_limit bytes_serde vec_write message 16 (7 ∷ []) ≡ (ok tt, 7 ∷ wire)
unfolding write_frame_with_limit write_frame_bytes frame_header
written_wire = refl

frame_round_trip_example :
    (r' : List ℕ) × (read_frame_with_limit bytes_serde slice_read 16 (wire ++ 9 ∷ [])
      ≡ (ok message, r'))
    × (r' ≡ 9 ∷ [])
frame_round_trip_example =
    frame_round_trip bytes_serde vec_appends slice_delivers message 16 (7 ∷ []) (7 ∷ wire)
      (wire ++ 9 ∷ []) (9 ∷ []) bytes_serde_back slice_never (omega arith) written_wire refl

-- The frame in three pieces.
abbrev pieces : List Arrival
pieces = segment 2 (0 ∷ []) ∷ segment 0 (0 ∷ 104 ∷ []) ∷ segment 105 [] ∷ []

peer_read-pieces : read_frame_bytes {J = ℕ} peer_read 16 pieces ≡ (ok message, [])
unfolding read_frame_bytes read_exact read_loop lt_wf dec_lt
peer_read-pieces = refl

read_frame_bytes-eq-parse_frame_example :
    (read_frame_bytes {J = ℕ} slice_read 1 wire).0 ≡ parse_frame ℕ 1 wire
read_frame_bytes-eq-parse_frame_example =
    read_frame_bytes-eq-parse_frame ℕ slice_delivers slice_never 1 wire

-- The errors that the unit tests of the codec ask for.
truncated_header : parse_frame ℕ default_max_frame_bytes (0 ∷ 0 ∷ []) ≡ err (unexpected_eof 2 4)
unfolding parse_frame
truncated_header = refl

custom_limit : parse_frame ℕ 16 (frame_header 32) ≡ err (too_large 32 16)
unfolding parse_frame frame_header
custom_limit = refl

refused : write_frame_with_limit bytes_serde vec_write message 1 wire ≡ (err (too_large 2 1), wire)
unfolding write_frame_with_limit write_frame_bytes
refused = refl

-- A payload of 2 ^ 32 bytes.
abbrev huge : List ℕ
huge = replicate (u32_max + 1) 0

written_within :
    (payload : List ℕ) (max_frame : ℕ)
    → length payload ≤ max_frame
    → write_frame_bytes {J = ℕ} vec_write payload max_frame [] ≡ (ok tt, frame payload)
unfolding write_frame_bytes
written_within payload max_frame h = rw (ge→ltb max_frame (length payload) h)

length-huge : length huge ≡ u32_max + 1
length-huge = length-replicate (u32_max + 1) 0

write_frame_bytes_saturates_example :
    (r' : List ℕ) × (read_frame_bytes {J = ℕ} slice_read (u32_max + 1) (frame huge)
      ≡ (ok (take u32_max huge), r'))
    × (r' ≡ drop u32_max huge ++ [])
write_frame_bytes_saturates_example =
    write_frame_bytes_saturates vec_appends slice_delivers huge (u32_max + 1) [] (frame huge)
      (frame huge) [] slice_never (omega (arith, length-huge))
      (written_within huge (u32_max + 1) (omega (arith, length-huge)))
      (sym (append-nil (frame huge)))

abbrev two_messages : List (List ℕ)
two_messages = message ∷ [] ∷ []

written_two :
    write_messages bytes_serde vec_write two_messages 16 [] ≡ (ok tt, wire ++ 0 ∷ 0 ∷ 0 ∷ 0 ∷ [])
unfolding write_messages write_frame_with_limit write_frame_bytes frame_header
written_two = refl

messages_round_trip_example :
    (r' : List ℕ) × (read_messages bytes_serde slice_read 2 16 (wire ++ 0 ∷ 0 ∷ 0 ∷ 0 ∷ 8 ∷ [])
      ≡ (ok two_messages, r'))
    × (r' ≡ 8 ∷ [])
messages_round_trip_example =
    messages_round_trip bytes_serde vec_appends slice_delivers two_messages 16 []
      (wire ++ 0 ∷ 0 ∷ 0 ∷ 0 ∷ []) (wire ++ 0 ∷ 0 ∷ 0 ∷ 0 ∷ 8 ∷ []) (8 ∷ []) bytes_serde_back
      slice_never (omega arith) written_two refl
