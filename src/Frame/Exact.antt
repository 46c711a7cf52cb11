-- ===== src/Frame/Exact.antt =====
-- `read_exact` of ipc/frame.rs: what it returns on every branch, for any reader that keeps the
-- contract of `Read`.
use mathlib.Core.WellFounded.{Acc}
use rust_commons.Prelude.{
  ℕ, suc, ◌+◌, ◌-◌, ◌≤◌, ◌<◌, ◌≡◌, ◌≢◌, refl, sym, ap, ◌∙◌, List, [], ◌∷◌, ◌++◌, append_assoc,
  append-nil, Result, ok, err, length, length-append, append-injective, arith, dec_lt, lt_wf,
  dif_pos, dif_neg, le_prop,
}
use rust_commons.StdIo.{ErrorKind, Read, Delivers}
use rust_commons.Frame.{
  FrameError, too_large, unexpected_eof, json, io, fills-lt, after_read, read_loop, read_exact,
}

module _ (J : Type 0) {R : Type 0} {rd : Read R} (d : Delivers rd) where
  open d use {bytes, read_ok, read_err}

  -- What a reading of `left` more bytes behind `got`, from `r`, may come to.
  abbrev pub Outcome : (got : List ℕ) (left : ℕ) → R → Result (FrameError J) (List ℕ) × R → Type 0
  Outcome got left r (ok bs, r') =
      (c : List ℕ) × (bs ≡ got ++ c) × (length c ≡ left) × (bytes r ≡ c ++ bytes r')
  Outcome got left r (err (unexpected_eof k n), r') =
      (k ≡ length got + length (bytes r)) × (n ≡ length got + left) × (length (bytes r) < left)
  Outcome got left r (err (io e), r') =
      (c : List ℕ) × (s : R) × (k : ℕ) × (rd.read s k ≡ (err e, r'))
      × (bytes r ≡ c ++ bytes r')
      × (length c < left)
  Outcome got left r (err _, r') = ⊥

  -- One more piece in front.
  Outcome-more :
      (got c : List ℕ) (left : ℕ) (r r₁ : R) (out : Result (FrameError J) (List ℕ) × R)
      → length c ≤ left
      → bytes r ≡ c ++ bytes r₁
      → Outcome (got ++ c) (left - length c) r₁ out
      → Outcome got left r out
  Outcome-more got c left r r₁ (ok bs, r') h e (x, p, q, u) =
      (c ++ x, rw (p, append_assoc), omega (arith, length-append c x), rw (e, u, append_assoc))
  Outcome-more got c left r r₁ (err (unexpected_eof k n), r') h e (p, q, u) =
      let size : length (bytes r) ≡ length c + length (bytes r₁) =
        ap length e ∙ length-append c (bytes r₁) in
      (omega (arith, length-append got c), omega (arith, length-append got c), omega arith)
  Outcome-more got c left r r₁ (err (io x), r') h e (y, s, k, f, p, q) =
      (c ++ y, s, k, f, rw (e, p, append_assoc), omega (arith, length-append c y))
  Outcome-more got c left r r₁ (err (too_large _ _), r') h e o = absurd o
  Outcome-more got c left r r₁ (err (json _), r') h e o = absurd o

  after_read-Outcome :
      (got : List ℕ) (left : ℕ) (r : R) (came : Result ErrorKind (List ℕ) × R)
      (again : ℕ → List ℕ → R → Result (FrameError J) (List ℕ) × R)
      → 0 < left
      → rd.read r left ≡ came
      → ((b : ℕ) (bs : List ℕ) (r₁ : R)
          → Outcome (got ++ b ∷ bs) (left - suc (length bs)) r₁ (again b bs r₁))
      → Outcome got left r (after_read rd got left came again)
  after_read-Outcome got left r (err e, r₁) again pos p next =
      ([], r, left, p, sym (read_err r left p), pos)
  after_read-Outcome got left r (ok [], r₁) again pos p next =
      let empty : bytes r ≡ [] = (read_ok r left pos p).2 refl in
      (omega (arith, ap length empty), refl, omega (arith, ap length empty))
  after_read-Outcome got left r (ok (b ∷ bs), r₁) again pos p next =
      let came = read_ok r left pos p in
      Outcome-more got (b ∷ bs) left r r₁ (again b bs r₁) came.1 came.0 (next b bs r₁)

  read_loop-Outcome :
      (got : List ℕ) (left : ℕ) (w : Acc ◌<◌ left) (r : R)
      → Outcome got left r (read_loop rd got left w r)
  unfolding read_loop
  read_loop-Outcome got left (Acc.intro _ smaller) r = elim (dec_lt 0 left) [
    | yes pos ↦ rw (dif_pos _ le_prop pos) (
        after_read-Outcome got left r (rd.read r left) _ pos refl (λ b bs r₁.
          read_loop-Outcome (got ++ b ∷ bs) (left - suc (length bs))
            (smaller (left - suc (length bs)) (fills-lt left (length bs) pos)) r₁))
    | no none_left ↦ rw (dif_neg _ none_left) ([], sym (append-nil got), omega arith, refl)
  ]

  -- `read_exact n` returns the next `n` bytes of the stream and leaves the rest; or it reports
  -- that the stream ended, with the number of bytes that there were, fewer than `n`, and `n`; or
  -- it passes on an error of the reader, met after fewer than `n` bytes. It returns nothing else.
  pub read_exact-Outcome : (n : ℕ) (r : R) → Outcome [] n r (read_exact rd n r)
  unfolding read_exact
  read_exact-Outcome n r = read_loop-Outcome [] n (lt_wf.apply n) r

  -- No call of the reader fails.
  abbrev pub IsInfallible : Type 0
  IsInfallible = (r : R) (n : ℕ) (e : ErrorKind) (r' : R) → rd.read r n ≢ (err e, r')

  -- A reading within the bytes to come, in one reader that never fails, succeeds.
  pub read_exact_enough :
      IsInfallible
      → (n : ℕ) (r : R) (c rest : List ℕ) → bytes r ≡ c ++ rest
      → length c ≡ n
      → (r' : R) × (read_exact {J = J} rd n r ≡ (ok c, r')) × (bytes r' ≡ rest)
  read_exact_enough never n r c rest e h = go (read_exact rd n r) refl (read_exact-Outcome n r)
    where
      go :
          (out : Result (FrameError J) (List ℕ) × R)
          → read_exact {J = J} rd n r ≡ out
          → Outcome [] n r out
          → (r' : R) × (read_exact {J = J} rd n r ≡ (ok c, r')) × (bytes r' ≡ rest)
      go (ok bs, r') p (x, q, u, v) =
          let (y, z) = append-injective x c (omega arith) (sym v ∙ e) in (r', rw (p, q, y), z)
      go (err (unexpected_eof k m), r') p (x, q, u) =
          absurd (omega (arith, ap length e, length-append c rest))
      go (err (io x), r') p (y, s, k, f, _, _) = absurd (never s k x r' f)
      go (err (too_large _ _), r') p o = absurd o
      go (err (json _), r') p o = absurd o

  -- A reading beyond them reports the end of the stream.
  pub read_exact_short :
      IsInfallible
      → (n : ℕ) (r : R) → length (bytes r) < n
      → (r' : R) × (read_exact {J = J} rd n r ≡ (err (unexpected_eof (length (bytes r)) n), r'))
  read_exact_short never n r h = go (read_exact rd n r) refl (read_exact-Outcome n r)
    where
      go :
          (out : Result (FrameError J) (List ℕ) × R)
          → read_exact {J = J} rd n r ≡ out
          → Outcome [] n r out
          → (r' : R) × (read_exact {J = J} rd n r ≡ (err (unexpected_eof (length (bytes r)) n), r'))
      go (ok bs, r') p (x, q, u, v) =
          absurd (omega (arith, ap length v, length-append x (bytes r')))
      go (err (unexpected_eof k m), r') p (x, q, u) =
          let a : k ≡ length (bytes r) = omega arith in
          let b : m ≡ n = omega arith in (r', rw (p, a, b))
      go (err (io x), r') p (y, s, k, f, _, _) = absurd (never s k x r' f)
      go (err (too_large _ _), r') p o = absurd o
      go (err (json _), r') p o = absurd o
