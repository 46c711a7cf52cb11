-- ===== src/Frame/Bounds.antt =====
-- What ipc/frame.rs guarantees of any reader and any writer: a payload within the cap, the bytes
-- it took from the stream, and nothing written for a message that is refused.
use rust_commons.Prelude.{
  ℕ, ◌≤◌, ◌≡◌, sym, ap, ◌∙◌, subst, length-append, ◌+◌, ◌⊎◌, inl, inr, List, [], ◌++◌, ok, err,
  length, ltb, arith, Bool-cases, then_run-eq-ok,
}
use rust_commons.StdIo.{Read, Write, Delivers, ErrorKind}
use rust_commons.Frame.{
  FrameError, io, Serde, read_exact, read_frame_bytes, write_frame_bytes, write_frame_with_limit,
  read_frame_with_limit, header_len, from_le_bytes,
}
use rust_commons.Frame.Exact.{Outcome, read_exact-Outcome}

module _ (J : Type 0) {R : Type 0} {rd : Read R} (d : Delivers rd) where
  open d use {bytes}

  exact_ok :
      (n : ℕ) (r r' : R) (bs : List ℕ)
      → read_exact {J = J} rd n r ≡ (ok bs, r')
      → (length bs ≡ n) × (bytes r ≡ bs ++ bytes r')
  exact_ok n r r' bs h =
      let (c, p, q, u) = subst (λ x. Outcome J d [] n r x) h (read_exact-Outcome J d n r) in
      (rw p q, rw p u)

  -- A payload that is returned is within the cap, follows the four bytes of its length on the
  -- stream, and is all of what that length says; the reader stands behind it.
  pub read_frame_bytes_ok :
      (max_frame : ℕ) (r r' : R) (payload : List ℕ)
      → read_frame_bytes {J = J} rd max_frame r ≡ (ok payload, r')
      → (header : List ℕ) × (length header ≡ header_len)
        × (from_le_bytes header ≡ length payload)
        × (length payload ≤ max_frame)
        × (bytes r ≡ header ++ (payload ++ bytes r'))
  unfolding read_frame_bytes
  read_frame_bytes_ok max_frame r r' payload h =
      let (header, r₁, p, h₁) = then_run-eq-ok (read_exact rd header_len r) _ h in
      let (a, b) = exact_ok header_len r r₁ header p in
      elim (Bool-cases (ltb max_frame (from_le_bytes header))) [
        | inl big ↦ cc (rw big at h₁)
        | inr fits ↦
            let (x, y) = exact_ok (from_le_bytes header) r₁ r' payload (rw fits at h₁) in
            (header, a, sym x, ground arith, b ∙ ap (λ (l : List ℕ). header ++ l) y)
      ]

-- A message that is read was decoded from the payload of a frame, which is gone from the stream.
pub read_frame_with_limit-shrinks :
    {J T R : Type 0} (serde : Serde J T) {rd : Read R} (d : Delivers rd) (max_frame : ℕ) (r r' : R)
    (msg : T)
    → read_frame_with_limit serde rd max_frame r ≡ (ok msg, r')
    → length (d.bytes r') + header_len ≤ length (d.bytes r)
unfolding read_frame_with_limit
read_frame_with_limit-shrinks {J} serde {rd} d max_frame r r' msg h =
    let (payload, r₁, a, b) = then_run-eq-ok (read_frame_bytes rd max_frame r) _ h in
    let (header, u, v, w, e) = read_frame_bytes_ok J d max_frame r r₁ payload a in
    let same : r₁ ≡ r' = cc in
    let size = ap length e in
    rw (← same) (
      omega
        (arith, length-append header (payload ++ d.bytes r₁), length-append payload (d.bytes r₁)))

module _ {J T W : Type 0} (serde : Serde J T) (wr : Write W) where
  -- A message is written whole or refused whole, unless the stream itself fails: an error that is
  -- not an I/O error leaves the stream as it was.
  pub write_frame_with_limit_refused :
      (msg : T) (max_frame : ℕ) (w w' : W) (e : FrameError J)
      → write_frame_with_limit serde wr msg max_frame w ≡ (err e, w')
      → (w' ≡ w) ⊎ ((k : ErrorKind) × (e ≡ io k))
  unfolding write_frame_with_limit write_frame_bytes
  write_frame_with_limit_refused msg max_frame w w' e h = ground arith
