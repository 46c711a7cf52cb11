-- ===== src/Frame/HeaderType.antt =====
-- The header of ipc/frame.rs as a type: what `u32::to_le_bytes` and `from_le_bytes` take to each
-- other. A byte is a number below 256.
use rust_commons.Prelude.{
  ℕ, ◌+◌, ◌*◌, ◌/◌, ◌%◌, ◌≤◌, ◌<◌, ◌≡◌, refl, ap, ◌∙◌, List, [], ◌∷◌, ◌++◌, ok, length, arith,
}
use rust_commons.StdIo.{Write, Appends}
use rust_commons.Frame.{
  header_len, frame_header, from_le_bytes, to_le_bytes, u32_max, write_frame_bytes,
}
use rust_commons.Frame.Header.{saturate-eq, from_le_bytes-frame_header}
use rust_commons.Frame.RoundTrip.{frame, write_frame_bytes-written}

abbrev pub AllBytes : List ℕ → Type 0
AllBytes [] = Unit {0}
AllBytes (b ∷ bs) = (b < 256) × AllBytes bs

abbrev pub IsHeader : List ℕ → Type 0
IsHeader bs = (length bs ≡ header_len) × AllBytes bs

AllBytes-append : (xs ys : List ℕ) → AllBytes xs → AllBytes ys → AllBytes (xs ++ ys)
AllBytes-append [] ys h k = k
AllBytes-append (x ∷ xs) ys (b, h) k = (b, AllBytes-append xs ys h k)

frame_header-IsHeader : (len : ℕ) → IsHeader (frame_header len)
unfolding frame_header
frame_header-IsHeader len = (refl, (omega arith, (omega arith, (omega arith, (omega arith, tt)))))

four_bytes :
    (a b c d : ℕ)
    → a < 256
    → b < 256
    → c < 256
    → d < 256
    → (from_le_bytes (a ∷ b ∷ c ∷ d ∷ []) ≤ u32_max)
      × (to_le_bytes (from_le_bytes (a ∷ b ∷ c ∷ d ∷ [])) ≡ a ∷ b ∷ c ∷ d ∷ [])
four_bytes a b c d ha hb hc hd =
    let n = a + 256 * b + 65536 * c + 16777216 * d in
    let e₀ : n % 256 ≡ a = omega arith in
    let e₁ : n / 256 % 256 ≡ b = omega arith in
    let e₂ : n / 65536 % 256 ≡ c = omega arith in
    let e₃ : n / 16777216 % 256 ≡ d = omega arith in (omega arith, cc)

header_bytes :
    (bs : List ℕ)
    → IsHeader bs
    → (from_le_bytes bs ≤ u32_max) × (frame_header (from_le_bytes bs) ≡ bs)
unfolding frame_header
header_bytes [] (n, h) = absurd (omega arith)
header_bytes (a ∷ []) (n, h) = absurd (omega arith)
header_bytes (a ∷ b ∷ []) (n, h) = absurd (omega arith)
header_bytes (a ∷ b ∷ c ∷ []) (n, h) = absurd (omega arith)
header_bytes (a ∷ b ∷ c ∷ d ∷ []) (n, (ha, (hb, (hc, (hd, _))))) =
    let (small, e) = four_bytes a b c d ha hb hc hd in
    (small, ap to_le_bytes (saturate-eq (from_le_bytes (a ∷ b ∷ c ∷ d ∷ [])) small) ∙ e)
header_bytes (a ∷ b ∷ c ∷ d ∷ e ∷ bs) (n, h) = absurd (omega arith)

-- The headers are the `u32` values: the header of a length up to `u32::MAX` is four bytes that read
-- as that length, and any four bytes read as a number up to `u32::MAX` whose header they are.
pub u32_codec :
    ((len : ℕ)
      → len ≤ u32_max
      → IsHeader (frame_header len) × (from_le_bytes (frame_header len) ≡ len))
    × ((bs : List ℕ)
        → IsHeader bs
        → (from_le_bytes bs ≤ u32_max) × (frame_header (from_le_bytes bs) ≡ bs))
u32_codec = (
  λ len h. (frame_header-IsHeader len, from_le_bytes-frame_header len ∙ saturate-eq len h),
  header_bytes,
)

-- A write that succeeds of a payload of bytes keeps a stream of bytes one of bytes, also where the
-- length is above `u32::MAX`.
pub write_frame_bytes-AllBytes :
    (J : Type 0) {W : Type 0} {wr : Write W} (a : Appends wr) (payload : List ℕ) (max_frame : ℕ)
    (w w' : W)
    → AllBytes payload
    → AllBytes (a.written w)
    → write_frame_bytes {J = J} wr payload max_frame w ≡ (ok tt, w')
    → AllBytes (a.written w')
write_frame_bytes-AllBytes J a payload max_frame w w' h k e =
    rw ((write_frame_bytes-written J a payload max_frame w w' e).1) (
      AllBytes-append (a.written w) (frame payload) k (
        AllBytes-append (frame_header (length payload)) payload
          (frame_header-IsHeader (length payload)).1 h))
