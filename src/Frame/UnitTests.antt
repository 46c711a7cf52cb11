-- ===== src/Frame/UnitTests.antt =====
-- The unit tests of ipc/frame.rs. A definition gives what the calls of a test return; it passes for
-- every serde_json that keeps what the test relies on.
use rust_commons.Prelude.{
  ℕ, ◌+◌, ◌≤◌, ◌<◌, ◌≡◌, refl, ap, ◌∙◌, append-nil, List, [], ◌∷◌, ◌++◌, Result, ok, err, length,
  replicate, arith, codes, dec_lt, lt_wf, lt→ltb, ge→ltb, sym,
}
use rust_commons.StdIo.Memory.{slice_read, slice_delivers, vec_write, vec_appends}
use rust_commons.Frame.{
  default_max_frame_bytes, FrameError, too_large, unexpected_eof, Serde, to_le_bytes,
  read_frame_bytes, read_frame, write_frame, read_exact, read_loop, read_frame_with_limit,
  write_frame_with_limit, write_frame_bytes,
}
use rust_commons.Frame.Exact.{IsInfallible}
use rust_commons.Frame.RoundTrip.{frame, frame_round_trip}

module _ {J T : Type 0} (serde : Serde J T) where
  abbrev after_write : Result (FrameError J) (Unit {0}) × List ℕ → Result (FrameError J) T
  after_write (ok _, buf) = (read_frame serde slice_read buf).0
  after_write (err e, buf) = err e

  abbrev round_trip_a_frame : T → Result (FrameError J) T
  round_trip_a_frame msg = after_write (write_frame serde vec_write msg [])

  abbrev truncated_header_reports_eof : Result (FrameError J) T
  truncated_header_reports_eof = (read_frame serde slice_read (0 ∷ 0 ∷ [])).0

  abbrev truncated_payload_reports_eof : Result (FrameError J) T
  truncated_payload_reports_eof =
      (read_frame serde slice_read (to_le_bytes 16 ++ codes "only a few")).0

  abbrev oversized_declared_length_is_rejected_on_read : Result (FrameError J) T
  oversized_declared_length_is_rejected_on_read =
      (read_frame serde slice_read (to_le_bytes (default_max_frame_bytes + 1))).0

  truncated_header_passes : truncated_header_reports_eof ≡ err (unexpected_eof 2 4)
  unfolding read_frame read_frame_with_limit read_frame_bytes read_exact read_loop lt_wf dec_lt
  truncated_header_passes = refl

  truncated_payload_passes : truncated_payload_reports_eof ≡ err (unexpected_eof 10 16)
  unfolding read_frame read_frame_with_limit read_frame_bytes read_exact read_loop lt_wf dec_lt
  truncated_payload_passes = refl

  oversized_declared_length_passes :
      oversized_declared_length_is_rejected_on_read
      ≡ err (too_large (default_max_frame_bytes + 1) default_max_frame_bytes)
  unfolding read_frame read_frame_with_limit read_frame_bytes read_exact read_loop lt_wf dec_lt
  oversized_declared_length_passes = refl

  slice_never : IsInfallible J slice_delivers
  slice_never r n e r' h = cc

  vec_sends :
      (msg : T) (payload : List ℕ) (max_frame : ℕ)
      → serde.to_vec msg ≡ ok payload
      → length payload ≤ max_frame
      → (buf : List ℕ) × (write_frame_with_limit serde vec_write msg max_frame [] ≡ (ok tt, buf))
  unfolding write_frame_with_limit write_frame_bytes
  vec_sends msg payload max_frame encodes fits =
      (frame payload, rw (encodes, ge→ltb max_frame (length payload) fits) refl)

  -- A message that serde_json encodes within the cap and decodes again.
  round_trip_passes :
      (msg : T) (payload : List ℕ)
      → ((m : T) (bs : List ℕ) → serde.to_vec m ≡ ok bs → serde.from_slice bs ≡ ok m)
      → serde.to_vec msg ≡ ok payload
      → length payload ≤ default_max_frame_bytes
      → round_trip_a_frame msg ≡ ok msg
  unfolding read_frame write_frame
  round_trip_passes msg payload back encodes fits =
      let (buf, written) = vec_sends msg payload default_max_frame_bytes encodes fits in
      let (r, reads, _) =
        frame_round_trip serde vec_appends slice_delivers msg default_max_frame_bytes [] buf buf []
          back slice_never (omega arith) written (sym (append-nil buf)) in
      ap after_write written ∙ ap (λ x. x.0) reads

-- `vec![0u8; DEFAULT_MAX_FRAME_BYTES + 1]`
abbrev big : List ℕ
big = replicate (default_max_frame_bytes + 1) 0

abbrev oversized_payload_is_rejected_on_write :
    {J : Type 0} → Serde J (List ℕ) → Result (FrameError J) (Unit {0}) × List ℕ
oversized_payload_is_rejected_on_write serde = write_frame serde vec_write big []

-- As JSON, it is as long as it has elements at least.
oversized_payload_passes :
    {J : Type 0} (serde : Serde J (List ℕ)) (payload : List ℕ)
    → serde.to_vec big ≡ ok payload
    → default_max_frame_bytes < length payload
    → oversized_payload_is_rejected_on_write serde
      ≡ (err (too_large (length payload) default_max_frame_bytes), [])
unfolding write_frame write_frame_with_limit write_frame_bytes
oversized_payload_passes serde payload encodes big =
    rw (encodes, lt→ltb default_max_frame_bytes (length payload) big) refl

abbrev empty_payload_round_trips_as_unit :
    {J : Type 0} → Serde J (Unit {0}) → Result (FrameError J) (Unit {0})
empty_payload_round_trips_as_unit serde = round_trip_a_frame serde tt

abbrev custom_limit_is_honoured : Result (FrameError ℕ) (List ℕ)
custom_limit_is_honoured = (read_frame_bytes slice_read 16 (to_le_bytes 32)).0

custom_limit_passes : custom_limit_is_honoured ≡ err (too_large 32 16)
unfolding read_frame_bytes read_exact read_loop lt_wf dec_lt
custom_limit_passes = refl
