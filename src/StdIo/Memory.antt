-- ===== src/StdIo/Memory.antt =====
-- In-memory streams: `&[u8]` and a peer's segments as readers, `Vec<u8>` as a writer, with proofs
-- that they meet the contracts.
use rust_commons.Prelude.{
  ℕ, zero, suc, ◌<◌, ◌≤◌, ◌≡◌, refl, sym, ap, ◌∙◌, List, [], ◌∷◌, ◌++◌, append_assoc, Result, ok,
  err, length, take, drop, take-append-drop, length-take, arith,
}
use rust_commons.StdIo.Defs.{ErrorKind, Read, Write, Delivers, Appends}

-- `impl Read for &[u8]`
abbrev pub slice_read : Read (List ℕ)
slice_read = record { read = λ s n. (ok (take n s), drop n s) }

pub take-eq_nil : (n : ℕ) (s : List ℕ) → 0 < n → take n s ≡ [] → s ≡ []
take-eq_nil zero s h e = absurd (omega arith)
take-eq_nil (suc n) [] h e = refl
take-eq_nil (suc n) (x ∷ s) h e = cc

pub slice_read_ok :
    (s : List ℕ) (n : ℕ) {c s' : List ℕ}
    → 0 < n
    → slice_read.read s n ≡ (ok c, s')
    → (s ≡ c ++ s') × (length c ≤ n) × (c ≡ [] → s ≡ [])
slice_read_ok s n {c} {s'} h e =
    let p : c ≡ take n s = cc in
    let q : s' ≡ drop n s = cc in
    (
      rw (p, q, take-append-drop n s),
      omega (arith, ap length p, length-take n s),
      λ z. take-eq_nil n s h (sym p ∙ z),
    )

pub slice_read_err :
    (s : List ℕ) (n : ℕ) {e : ErrorKind} {s' : List ℕ} → slice_read.read s n ≡ (err e, s') → s' ≡ s
slice_read_err s n p = cc

abbrev pub slice_delivers : Delivers slice_read
slice_delivers = record { bytes = λ s. s; read_ok = slice_read_ok; read_err = slice_read_err }

-- What a peer sends, as it arrives: a segment of at least one byte, or a failed call. After the
-- last one the peer has closed its end.
pub data Arrival : Type 0 where
  segment : ℕ → List ℕ → Arrival
  failure : ErrorKind → Arrival

-- What a call leaves of the segment in front.
abbrev pub leave : List ℕ → List Arrival → List Arrival
leave [] rest = rest
leave (b ∷ bs) rest = segment b bs ∷ rest

-- A call never joins two segments, so it may return fewer bytes than were asked for.
abbrev pub receive : List Arrival → ℕ → Result ErrorKind (List ℕ) × List Arrival
receive [] n = (ok [], [])
receive (failure e ∷ rest) n = (err e, rest)
receive (segment b bs ∷ rest) n = (ok (take n (b ∷ bs)), leave (drop n (b ∷ bs)) rest)

abbrev pub peer_read : Read (List Arrival)
peer_read = record { read = receive }

abbrev pub arriving : List Arrival → List ℕ
arriving [] = []
arriving (failure e ∷ rest) = arriving rest
arriving (segment b bs ∷ rest) = b ∷ (bs ++ arriving rest)

arriving-leave : (l : List ℕ) (rest : List Arrival) → arriving (leave l rest) ≡ l ++ arriving rest
arriving-leave [] rest = refl
arriving-leave (b ∷ bs) rest = refl

pub receive_ok :
    (s : List Arrival) (n : ℕ) {c : List ℕ} {s' : List Arrival}
    → 0 < n
    → receive s n ≡ (ok c, s')
    → (arriving s ≡ c ++ arriving s') × (length c ≤ n) × (c ≡ [] → arriving s ≡ [])
receive_ok [] n {c} {s'} h e =
    let p : c ≡ [] = cc in
    let q : s' ≡ [] = cc in (rw (p, q), omega (arith, ap length p), λ z. refl)
receive_ok (failure e ∷ rest) n h p = cc
receive_ok (segment b bs ∷ rest) n {c} {s'} h e =
    let p : c ≡ take n (b ∷ bs) = cc in
    let q : s' ≡ leave (drop n (b ∷ bs)) rest = cc in
    (
      rw (p, q, arriving-leave, ← append_assoc, take-append-drop n (b ∷ bs)),
      omega (arith, ap length p, length-take n (b ∷ bs)),
      λ z. absurd (cc (take-eq_nil n (b ∷ bs) h (sym p ∙ z))),
    )

pub receive_err :
    (s : List Arrival) (n : ℕ) {e : ErrorKind} {s' : List Arrival}
    → receive s n ≡ (err e, s')
    → arriving s' ≡ arriving s
receive_err [] n p = cc
receive_err (failure e ∷ rest) n {s' = s'} p = let q : s' ≡ rest = cc in rw q
receive_err (segment b bs ∷ rest) n p = cc

abbrev pub peer_delivers : Delivers peer_read
peer_delivers = record { bytes = arriving; read_ok = receive_ok; read_err = receive_err }

-- `impl Write for Vec<u8>`
abbrev pub vec_write : Write (List ℕ)
vec_write = record { write_all = λ w bs. (ok tt, w ++ bs); flush = λ w. (ok tt, w) }

abbrev pub vec_appends : Appends vec_write
vec_appends = record { written = λ w. w; write_ok = λ w bs e. refl; flush_ok = λ w e. refl }
