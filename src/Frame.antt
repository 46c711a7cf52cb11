-- ===== src/Frame.antt =====
-- ipc/frame.rs: the framing codec, a 4-byte little-endian length and then the payload.
-- JSON (serde_json) is not part of the repository: `Serde` is what the code calls of it, for one
-- message type. A reader or writer is any state with the operations of `Read` or `Write`.
mod Header
mod Examples
mod UnitTests
pub mod Bounds
pub mod Spec
pub mod RoundTrip
pub mod Sequence
pub mod Duplex
pub mod Wire
pub mod Display
pub mod HeaderType
pub mod Exact
pub use Header.{header_len, u32_max, to_le_bytes, from_le_bytes}
unfoldable pub use Header.{frame_header}
use mathlib.Core.WellFounded.{Acc}
use rust_commons.Prelude.{
  ℕ, suc, ◌+◌, ◌-◌, ◌*◌, ◌<◌, List, [], ◌∷◌, ◌++◌, Result, ok, err, Io, pure, raise, lift, then_run,
  ◌>>=◌, ◌>>◌, with_err, map_err, length, ltb, if◌then◌else◌, arith, dec_lt, lt_wf, dite,
}
use rust_commons.StdIo.{ErrorKind, Read, Write}

-- `DEFAULT_MAX_FRAME_BYTES`: 1 MiB
abbrev pub default_max_frame_bytes : ℕ
default_max_frame_bytes = 1024 * 1024

-- `J` is serde_json's error type.
pub data FrameError {ℓ} (J : Type ℓ) : Type ℓ where
  too_large : (len max : ℕ) → FrameError J
  unexpected_eof : (read needed : ℕ) → FrameError J
  json : J → FrameError J
  io : ErrorKind → FrameError J

-- `serde_json::to_vec` and `from_slice` at the message type `T`
pub record Serde (J T : Type 0) : Type 0 where
  pub to_vec : T → Result J (List ℕ)
  pub from_slice : List ℕ → Result J T

-- A round that fills `n + 1` bytes leaves less to do.
pub fills-lt : (left n : ℕ) → 0 < left → left - suc n < left
fills-lt left n h = omega arith

module _ {R J : Type 0} (rd : Read R) where
  -- What one call of `read` leads to, with `got` in the buffer and `left` bytes of it free.
  abbrev pub after_read :
      (got : List ℕ) (left : ℕ)
      → Result ErrorKind (List ℕ) × R
      → (ℕ → List ℕ → R → Result (FrameError J) (List ℕ) × R)
      → Result (FrameError J) (List ℕ) × R
  after_read got left (err e, r) again = (err (io e), r)
  after_read got left (ok [], r) again = (err (unexpected_eof (length got) (length got + left)), r)
  after_read got left (ok (b ∷ bs), r) again = again b bs r

  -- The `while` of `read_exact`: every round that goes on fills at least one byte.
  unfoldable pub read_loop : (got : List ℕ) (left : ℕ) → Acc ◌<◌ left → Io R (FrameError J) (List ℕ)
  read_loop got left (Acc.intro _ smaller) r =
      dite (dec_lt 0 left)
        (λ pos. after_read got left (rd.read r left) (λ b bs r'.
          read_loop (got ++ b ∷ bs) (left - suc (length bs))
            (smaller (left - suc (length bs)) (fills-lt left (length bs) pos)) r'))
        (λ _. (ok got, r))

  unfoldable pub read_exact : ℕ → Io R (FrameError J) (List ℕ)
  unfolding read_loop lt_wf
  read_exact n r = read_loop [] n (lt_wf.apply n) r

  unfoldable pub read_frame_bytes : (max_frame : ℕ) → Io R (FrameError J) (List ℕ)
  read_frame_bytes max_frame = do
    header ← read_exact header_len
    let len = from_le_bytes header
    if ltb max_frame len then raise (too_large len max_frame) else read_exact len

module _ {R J T : Type 0} (serde : Serde J T) (rd : Read R) where
  unfoldable pub read_frame_with_limit : (max_frame : ℕ) → Io R (FrameError J) T
  read_frame_with_limit max_frame = do
    payload ← read_frame_bytes rd max_frame
    lift (map_err json (serde.from_slice payload))

  unfoldable pub read_frame : Io R (FrameError J) T
  unfolding read_frame_with_limit
  read_frame = read_frame_with_limit default_max_frame_bytes

module _ {W J : Type 0} (wr : Write W) where
  unfoldable pub write_frame_bytes :
      (payload : List ℕ) (max_frame : ℕ) → Io W (FrameError J) (Unit {0})
  write_frame_bytes payload max_frame =
      let len = length payload in
      if ltb max_frame len then raise (too_large len max_frame) else do
        with_err io (λ w. wr.write_all w (frame_header len))
        with_err io (λ w. wr.write_all w payload)
        with_err io (λ w. wr.flush w)
        pure tt

module _ {W J T : Type 0} (serde : Serde J T) (wr : Write W) where
  unfoldable pub write_frame_with_limit : (msg : T) (max_frame : ℕ) → Io W (FrameError J) (Unit {0})
  write_frame_with_limit msg max_frame = do
    payload ← lift (map_err json (serde.to_vec msg))
    write_frame_bytes wr payload max_frame

  unfoldable pub write_frame : (msg : T) → Io W (FrameError J) (Unit {0})
  unfolding write_frame_with_limit
  write_frame msg = write_frame_with_limit msg default_max_frame_bytes
