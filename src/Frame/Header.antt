-- ===== src/Frame/Header.antt =====
-- The frame header of ipc/frame.rs: a `u32` in little-endian order.
use Prim.Native.Nat.{◌≤◌}
use rust_commons.Prelude.{
  ℕ, ◌+◌, ◌-◌, ◌*◌, ◌/◌, ◌%◌, ◌^◌, ◌<◌, ◌≡◌, refl, List, [], ◌∷◌, ltb, length, if◌then◌else◌, arith,
}

-- `HEADER_LEN`
abbrev pub header_len : ℕ
header_len = 4

abbrev pub u32_max : ℕ
u32_max = 2 ^ 32 - 1

-- `u32::to_le_bytes`
abbrev pub to_le_bytes : ℕ → List ℕ
to_le_bytes n = n % 256 ∷ n / 256 % 256 ∷ n / 65536 % 256 ∷ n / 16777216 % 256 ∷ []

-- `u32::from_le_bytes`; the argument is a `[u8; 4]`
abbrev pub from_le_bytes : List ℕ → ℕ
from_le_bytes (a ∷ b ∷ c ∷ d ∷ []) = a + 256 * b + 65536 * c + 16777216 * d
from_le_bytes _ = 0

-- `u32::try_from(len).unwrap_or(u32::MAX)`
abbrev pub saturate : ℕ → ℕ
saturate len = if ltb u32_max len then u32_max else len

unfoldable pub frame_header : ℕ → List ℕ
frame_header len = to_le_bytes (saturate len)

pub length-frame_header : (len : ℕ) → length (frame_header len) ≡ header_len
unfolding frame_header
length-frame_header len = refl

saturate-le : (len : ℕ) → saturate len ≤ u32_max
saturate-le len = ground arith

pub from_le_bytes-to_le_bytes : (n : ℕ) → n ≤ u32_max → from_le_bytes (to_le_bytes n) ≡ n
from_le_bytes-to_le_bytes n h = omega arith

-- A reader of the header sees the length, or `u32::MAX` for a length above it.
pub from_le_bytes-frame_header : (len : ℕ) → from_le_bytes (frame_header len) ≡ saturate len
unfolding frame_header
from_le_bytes-frame_header len = from_le_bytes-to_le_bytes (saturate len) (saturate-le len)

pub saturate-eq : (len : ℕ) → len ≤ u32_max → saturate len ≡ len
saturate-eq len h = ground arith

pub saturate-above : (len : ℕ) → u32_max < len → saturate len ≡ u32_max
saturate-above len h = ground arith
