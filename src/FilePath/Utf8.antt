-- ===== src/FilePath/Utf8.antt =====
-- `OsStr::to_str`: some text if the bytes are valid UTF-8. The validator goes byte by byte with the
-- ranges that the rest of the present character must lie in.
use rust_commons.Prelude.{
  ℕ, Bool, true, false, ◌&&◌, Option, none, some, List, [], ◌∷◌, leb, ltb, if◌then◌else◌, Str, ◌==◌,
}

pub record Range : Type 0 where
  low : ℕ
  high : ℕ

abbrev cont : Range
cont = record { low = 0x80; high = 0xbf }

abbrev between : ℕ → ℕ → ℕ → Bool
between a b c = leb a c && leb c b

first_byte : ℕ → Option (List Range)
first_byte b =
    if ltb b 0x80
    then some []
    else if between 0xc2 0xdf b
    then some (cont ∷ [])
    else if b == 0xe0
    then some (record { low = 0xa0; high = 0xbf } ∷ cont ∷ [])
    else if b == 0xed
    then some (record { low = 0x80; high = 0x9f } ∷ cont ∷ [])
    else if between 0xe1 0xef b
    then some (cont ∷ cont ∷ [])
    else if b == 0xf0
    then some (record { low = 0x90; high = 0xbf } ∷ cont ∷ cont ∷ [])
    else if between 0xf1 0xf3 b
    then some (cont ∷ cont ∷ cont ∷ [])
    else if b == 0xf4
    then some (record { low = 0x80; high = 0x8f } ∷ cont ∷ cont ∷ [])
    else none

next_byte : ℕ → List Range → Option (List Range)
unfolding first_byte
next_byte b [] = first_byte b
next_byte b (r ∷ rs) = if between r.low r.high b then some rs else none

is_utf8_from : Str → List Range → Bool
is_utf8_from [] [] = true
is_utf8_from [] (r ∷ rs) = false
is_utf8_from (b ∷ s) pending = elim (next_byte b pending) [
  | some rest ↦ is_utf8_from s rest
  | none ↦ false
]

unfoldable pub to_str : Str → Option Str
unfolding is_utf8_from next_byte
to_str s = if is_utf8_from s [] then some s else none
