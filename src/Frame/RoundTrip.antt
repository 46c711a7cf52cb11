-- ===== src/Frame/RoundTrip.antt =====
-- The wire format of ipc/frame.rs: what `write_frame_bytes` appends is what `read_frame_bytes`
-- reads back.
use rust_commons.Prelude.{
  take, drop, Result-cases, append-injective, length-take, take-append-drop, ℕ, ◌≤◌, ◌<◌, ◌≡◌, refl,
  sym, ap, ◌∙◌, List, ◌++◌, append_assoc, ok, length, ge→ltb, arith, inl, inr,
}
use rust_commons.StdIo.{Read, Write, Delivers, Appends}
use rust_commons.Frame.{
  Serde, write_frame_with_limit, read_frame_with_limit, read_frame_bytes, write_frame_bytes,
  header_len, frame_header, u32_max,
}
use rust_commons.Frame.Header.{
  length-frame_header, from_le_bytes-frame_header, saturate, saturate-eq, saturate-above,
}
use rust_commons.Frame.Exact.{IsInfallible, read_exact_enough}

-- One frame on the wire.
abbrev pub frame : List ℕ → List ℕ
frame payload = frame_header (length payload) ++ payload

module _ (J : Type 0) {W : Type 0} {wr : Write W} (a : Appends wr) where
  open a use {written, write_ok, flush_ok}

  -- A write that succeeds appends the frame of its payload, which is within the cap.
  pub write_frame_bytes-written :
      (payload : List ℕ) (max_frame : ℕ) (w w' : W)
      → write_frame_bytes {J = J} wr payload max_frame w ≡ (ok tt, w')
      → (length payload ≤ max_frame) × (written w' ≡ written w ++ frame payload)
  unfolding write_frame_bytes
  write_frame_bytes-written payload max_frame w w' h =
      let w₁ = (wr.write_all w (frame_header (length payload))).1 in
      let w₂ = (wr.write_all w₁ payload).1 in
      ground (
        arith,
        write_ok w (frame_header (length payload)),
        write_ok w₁ payload,
        flush_ok w₂,
        append_assoc (written w) (frame_header (length payload)) payload,
      )

module _ (J : Type 0) {R : Type 0} {rd : Read R} (d : Delivers rd) where
  open d use {bytes}

  -- A header written for `len` announces as many bytes as `saturate len` says.
  pub read_frame_bytes-header :
      IsInfallible J d
      → (max_frame len : ℕ) (body rest : List ℕ) (r : R) → length body ≡ saturate len
      → length body ≤ max_frame
      → d.bytes r ≡ frame_header len ++ (body ++ rest)
      → (r' : R) × (read_frame_bytes {J = J} rd max_frame r ≡ (ok body, r')) × (d.bytes r' ≡ rest)
  unfolding read_frame_bytes
  read_frame_bytes-header never max_frame len body rest r size fits e =
      let (r₁, p, q) =
        read_exact_enough J d never header_len r (frame_header len) (body ++ rest) e
          (length-frame_header len) in
      let (r₂, u, v) = read_exact_enough J d never (length body) r₁ body rest q refl in
      (r₂, rw (p, from_le_bytes-frame_header, ← size, ge→ltb _ _ fits, u), v)

-- A reader that stands where the writer began has what was written in front of it.
stands_at :
    (before sent rest : List ℕ) {after bs : List ℕ}
    → before ++ bs ≡ after ++ rest
    → after ≡ before ++ sent
    → bs ≡ sent ++ rest
stands_at before sent rest {after} {bs} e p =
    (append-injective before before refl
      (e ∙ (ap (λ (l : List ℕ). l ++ rest) p ∙ append_assoc before sent rest))).1

-- A frame with its payload cut in two.
frame_split :
    (n : ℕ) (payload rest : List ℕ)
    → frame payload ++ rest
      ≡ frame_header (length payload) ++ (take n payload ++ (drop n payload ++ rest))
frame_split n payload rest =
    append_assoc (frame_header (length payload)) payload rest
    ∙ ap (λ (l : List ℕ). frame_header (length payload) ++ l)
        (ap (λ (l : List ℕ). l ++ rest) (sym (take-append-drop n payload))
          ∙ append_assoc (take n payload) (drop n payload) rest)

-- A message written with some cap, and read with the same cap by a reader that stands where the
-- writer began, comes back, and the reader stands where the writer ended; if serde_json decodes
-- what it has encoded, the reader never fails, and the cap is at most `u32::MAX`.
pub frame_round_trip :
    {J T W R : Type 0} (serde : Serde J T) {wr : Write W} (a : Appends wr) {rd : Read R}
    (d : Delivers rd) (msg : T) (max_frame : ℕ) (w w' : W) (r : R) (rest : List ℕ)
    → ((m : T) (bs : List ℕ) → serde.to_vec m ≡ ok bs → serde.from_slice bs ≡ ok m)
    → IsInfallible J d
    → max_frame ≤ u32_max
    → write_frame_with_limit serde wr msg max_frame w ≡ (ok tt, w')
    → a.written w ++ d.bytes r ≡ a.written w' ++ rest
    → (r' : R) × (read_frame_with_limit serde rd max_frame r ≡ (ok msg, r')) × (d.bytes r' ≡ rest)
unfolding write_frame_with_limit read_frame_with_limit
frame_round_trip {J = J} serde {wr} a {rd} d msg max_frame w w' r rest back never small h e =
    elim (Result-cases (serde.to_vec msg)) [
      | inl (payload, p) ↦
          let (fits, q) = write_frame_bytes-written J a payload max_frame w w' (rw p at h) in
          let (r', u, v) =
            read_frame_bytes-header J d never max_frame (length payload) payload rest r
              (sym (saturate-eq (length payload) (omega arith))) fits
              (stands_at (a.written w) (frame payload) rest e q
                ∙ append_assoc (frame_header (length payload)) payload rest) in
          (r', rw (u, back msg payload p), v)
      | inr (x, p) ↦ cc (rw p at h)
    ]

-- A payload above `u32::MAX` bytes, which a cap above that lets pass, is written with a header
-- that says `u32::MAX`: a reader with the same cap, which never fails, takes the rest of the
-- payload for new frames.
pub write_frame_bytes_saturates :
    {J W R : Type 0} {wr : Write W} (a : Appends wr) {rd : Read R} (d : Delivers rd)
    (payload : List ℕ) (max_frame : ℕ) (w w' : W) (r : R) (rest : List ℕ)
    → IsInfallible J d
    → u32_max < length payload
    → write_frame_bytes {J = J} wr payload max_frame w ≡ (ok tt, w')
    → a.written w ++ d.bytes r ≡ a.written w' ++ rest
    → (r' : R) × (read_frame_bytes {J = J} rd max_frame r ≡ (ok (take u32_max payload), r'))
      × (d.bytes r' ≡ drop u32_max payload ++ rest)
write_frame_bytes_saturates {J = J} a d payload max_frame w w' r rest never big h e =
    let (fits, q) = write_frame_bytes-written J a payload max_frame w w' h in
    let body = take u32_max payload in
    let size : length body ≡ u32_max = omega (arith, length-take u32_max payload) in
    read_frame_bytes-header J d never max_frame (length payload) body (drop u32_max payload ++ rest)
      r (size ∙ sym (saturate-above (length payload) big)) (omega arith)
      (stands_at (a.written w) (frame payload) rest e q ∙ frame_split u32_max payload rest)
