-- ===== src/StdIo/Defs.antt =====
-- `std::io::ErrorKind`, `Read` and `Write`, with their contracts.
use rust_commons.Prelude.{ℕ, ◌≤◌, ◌<◌, ◌≡◌, List, [], ◌++◌, Result, ok, err, Io, Str, length}

-- The kinds that the crate tells apart; `other` stands for the rest, with the system's code.
pub data ErrorKind : Type 0 where
  not_found connection_refused connection_reset unexpected_eof : ErrorKind
  other : ℕ → ErrorKind

-- `read r n` asks for at most `n` bytes; the bytes that came are returned with the new state.
pub record Read {ℓ} (R : Type ℓ) : Type ℓ where
  pub read : R → ℕ → Result ErrorKind (List ℕ) × R

pub record Write {ℓ} (W : Type ℓ) : Type ℓ where
  pub write_all : W → List ℕ → Result ErrorKind (Unit {0}) × W
  pub flush : W → Result ErrorKind (Unit {0}) × W

-- The contract of `Read::read`: the bytes still to come, of which a call takes at most `n` from
-- the front; no byte means the end of the stream, and an error takes nothing. A call returns: the
-- peer of such a stream has sent these bytes and closed its side, or the stream fails. A call that
-- waits for a peer that stays and sends nothing is no value of `read`.
pub record Delivers {ℓ} {R : Type ℓ} (rd : Read R) : Type ℓ where
  pub bytes : R → List ℕ
  pub read_ok :
      (r : R) (n : ℕ) {c : List ℕ} {r' : R}
      → 0 < n
      → rd.read r n ≡ (ok c, r')
      → (bytes r ≡ c ++ bytes r') × (length c ≤ n) × (c ≡ [] → bytes r ≡ [])
  pub read_err :
      (r : R) (n : ℕ) {e : ErrorKind} {r' : R} → rd.read r n ≡ (err e, r') → bytes r' ≡ bytes r

-- The contract of `Write::write_all` and `flush` where they succeed.
pub record Appends {ℓ} {W : Type ℓ} (wr : Write W) : Type ℓ where
  pub written : W → List ℕ
  pub write_ok :
      (w : W) (bs : List ℕ)
      → (wr.write_all w bs).0 ≡ ok tt
      → written (wr.write_all w bs).1 ≡ written w ++ bs
  pub flush_ok : (w : W) → (wr.flush w).0 ≡ ok tt → written (wr.flush w).1 ≡ written w

-- `thread::Builder::spawn`, which gives an error if there can be no thread.
pub record ThreadBuilder (W : Type 0) : Type 0 where
  pub spawn : (name : Str) → Io W ErrorKind (Unit {0})
