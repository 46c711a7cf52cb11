-- ===== src/Frame/Spec.antt =====
-- A description of `read_frame_bytes` of ipc/frame.rs by the bytes of the stream alone, and the
-- proof that the code agrees with it however the bytes arrive.
use rust_commons.Prelude.{
  ℕ, ◌≤◌, ◌≡◌, sym, ◌∙◌, List, Result, ok, err, length, take, drop, take-append-drop, length-take,
  ltb, ltb→lt, arith, if◌then◌else◌, Bool-cases, inl, inr,
}
use rust_commons.StdIo.{Read, Delivers}
use rust_commons.Frame.{
  FrameError, too_large, unexpected_eof, read_exact, read_frame_bytes, header_len, from_le_bytes,
}
use rust_commons.Frame.Exact.{IsInfallible, read_exact_enough, read_exact_short}

module _ (J : Type 0) where
  -- What a stream of these bytes holds in front.
  unfoldable pub parse_frame : (max_frame : ℕ) → List ℕ → Result (FrameError J) (List ℕ)
  parse_frame max_frame bs =
      let len = from_le_bytes (take header_len bs) in
      let rest = drop header_len bs in
      if ltb (length bs) header_len
      then err (unexpected_eof (length bs) header_len)
      else if ltb max_frame len
      then err (too_large len max_frame)
      else if ltb (length rest) len
      then err (unexpected_eof (length rest) len)
      else ok (take len rest)

module _ (J : Type 0) {R : Type 0} {rd : Read R} (d : Delivers rd) (never : IsInfallible J d) where
  open d use {bytes}

  exact_take :
      (n : ℕ) (r : R)
      → n ≤ length (bytes r)
      → (r' : R) × (read_exact {J = J} rd n r ≡ (ok (take n (bytes r)), r'))
        × (bytes r' ≡ drop n (bytes r))
  exact_take n r h =
      read_exact_enough J d never n r (take n (bytes r)) (drop n (bytes r))
        (sym (take-append-drop n (bytes r))) (omega (arith, length-take n (bytes r)))

  after_header :
      (max_frame len : ℕ) (r : R)
      → ((if ltb max_frame len
            then (λ s. (err (too_large len max_frame), s))
            else read_exact {J = J} rd len)
          r).0
        ≡ (if ltb max_frame len
            then err (too_large len max_frame)
            else if ltb (length (bytes r)) len
            then err (unexpected_eof (length (bytes r)) len)
            else ok (take len (bytes r)))
  after_header max_frame len r = elim (Bool-cases (ltb max_frame len)) [
    | inl big ↦ rw big
    | inr fits ↦ rw fits (elim (Bool-cases (ltb (length (bytes r)) len)) [
      | inl short ↦
          let (r', p) = read_exact_short J d never len r (ltb→lt _ _ short) in rw (short, p)
      | inr enough ↦ let (r', p, q) = exact_take len r (ground arith) in rw (enough, p)
    ])
  ]

  -- For a reader that never fails, `read_frame_bytes` is determined by the bytes of the stream, in
  -- whatever pieces they come: the end of the stream within the header or the payload, a declared
  -- length above the cap, and the payload are told exactly as `parse_frame` says.
  pub read_frame_bytes-eq-parse_frame :
      (max_frame : ℕ) (r : R)
      → (read_frame_bytes {J = J} rd max_frame r).0 ≡ parse_frame J max_frame (bytes r)
  unfolding read_frame_bytes parse_frame
  read_frame_bytes-eq-parse_frame max_frame r =
      elim (Bool-cases (ltb (length (bytes r)) header_len)) [
        | inl short ↦
            let (r', p) = read_exact_short J d never header_len r (ltb→lt _ _ short) in
            rw (short, p)
        | inr enough ↦
            let (r', p, q) = exact_take header_len r (ground arith) in
            rw (enough, p)
              (after_header max_frame (from_le_bytes (take header_len (bytes r))) r' ∙ rw q)
      ]
