-- ===== src/StdIo/Duplex.antt =====
-- A stream that is read and written, as `UnixStream` is: its two directions are apart. A pair of a
-- reader and a writer is such a stream.
use rust_commons.Prelude.{ℕ, ◌≤◌, ◌<◌, ◌≡◌, refl, ap, List, [], ◌++◌, ok, err, length}
use rust_commons.StdIo.Defs.{ErrorKind, Read, Write, Delivers, Appends}

-- What is read is not what was written, and the other way round.
pub record Duplex {U : Type 0} (rd : Read U) (wr : Write U) : Type 0 where
  pub delivers : Delivers rd
  pub appends : Appends wr
  pub write_keeps : (u : U) (bs : List ℕ) → delivers.bytes (wr.write_all u bs).1 ≡ delivers.bytes u
  pub flush_keeps : (u : U) → delivers.bytes (wr.flush u).1 ≡ delivers.bytes u
  pub read_keeps : (u : U) (n : ℕ) → appends.written (rd.read u n).1 ≡ appends.written u

-- No call of the writer fails.
pub record IsReliable {U : Type 0} (wr : Write U) : Type 0 where
  pub write_done : (u : U) (bs : List ℕ) → (wr.write_all u bs).0 ≡ ok tt
  pub flush_done : (u : U) → (wr.flush u).0 ≡ ok tt

module _ {R W : Type 0} (rd : Read R) (wr : Write W) where
  abbrev pub pair_read : Read (R × W)
  pair_read = record { read = λ u n. let (c, r) = rd.read u.0 n in (c, (r, u.1)) }

  abbrev pub pair_write : Write (R × W)
  pair_write = record {
    write_all = λ u bs. let (c, w) = wr.write_all u.1 bs in (c, (u.0, w));
    flush = λ u. let (c, w) = wr.flush u.1 in (c, (u.0, w));
  }

module _ {R W : Type 0} {rd : Read R} {wr : Write W} (d : Delivers rd) (a : Appends wr) where
  pub pair_read_ok :
      (u : R × W) (n : ℕ) {c : List ℕ} {u' : R × W}
      → 0 < n
      → (pair_read rd wr).read u n ≡ (ok c, u')
      → (d.bytes u.0 ≡ c ++ d.bytes u'.0) × (length c ≤ n) × (c ≡ [] → d.bytes u.0 ≡ [])
  pair_read_ok u n pos h = d.read_ok u.0 n pos (ap (λ x. (x.0, x.1.0)) h)

  pub pair_read_err :
      (u : R × W) (n : ℕ) {e : ErrorKind} {u' : R × W}
      → (pair_read rd wr).read u n ≡ (err e, u')
      → d.bytes u'.0 ≡ d.bytes u.0
  pair_read_err u n h = d.read_err u.0 n (ap (λ x. (x.0, x.1.0)) h)

  abbrev pub pair_duplex : Duplex (pair_read rd wr) (pair_write rd wr)
  pair_duplex = record {
    delivers = record {
      bytes = λ u. d.bytes u.0;
      read_ok = pair_read_ok;
      read_err = pair_read_err;
    };
    appends = record {
      written = λ u. a.written u.1;
      write_ok = λ u bs e. a.write_ok u.1 bs e;
      flush_ok = λ u e. a.flush_ok u.1 e;
    };
    write_keeps = λ u bs. refl;
    flush_keeps = λ u. refl;
    read_keeps = λ u n. refl;
  }
