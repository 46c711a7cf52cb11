-- ===== src/Prelude/Bytes.antt =====
-- Text as the list of its UTF-8 bytes, with equality, prefixes and suffixes.
use Prim.Native.Nat.{ℕ}
use Prim.Native.Char.{code}
use Prim.Native.String.{String}
use mathlib.Core.Path.{◌≡◌, refl, sym, ap, ◌∙◌}
use mathlib.Core.Logic.{◌↔◌, ◌≢◌}
use mathlib.Core.Bool.{Bool, true, false, ◌&&◌}
use mathlib.Core.List.{List, [], ◌∷◌, ◌++◌, reverse, reverse-append, reverse-reverse}
use native.Mathlib.Omega.{arith}
use rust_commons.Prelude.Tests.{◌==◌}

abbrev pub Str : Type 0
Str = List ℕ

-- The bytes of an ASCII literal.
abbrev pub codes : String → Str
codes String.[] = []
codes (String.◌∷◌ c s) = code c ∷ codes s

unfoldable pub str_eq : Str → Str → Bool
str_eq [] [] = true
str_eq (x ∷ xs) (y ∷ ys) = x == y && str_eq xs ys
str_eq _ _ = false

pub str_eq_iff : (a b : Str) → (str_eq a b ≡ true) ↔ (a ≡ b)
unfolding str_eq
str_eq_iff [] [] = ground arith
str_eq_iff (x ∷ xs) (y ∷ ys) = ground (arith, str_eq_iff xs ys)
str_eq_iff _ _ = ground arith

pub str_eq_refl : (a : Str) → str_eq a a ≡ true
str_eq_refl a = (str_eq_iff a a).1 refl

pub str_eq_ne : (a b : Str) → a ≢ b → str_eq a b ≡ false
str_eq_ne a b h = ground (arith, str_eq_iff a b)

-- `starts_with(p)`: the text first, as in Rust
unfoldable pub starts_with : Str → Str → Bool
starts_with s [] = true
starts_with [] (p ∷ ps) = false
starts_with (c ∷ s) (p ∷ ps) = c == p && starts_with s ps

unfoldable pub ends_with : Str → Str → Bool
unfolding starts_with
ends_with s p = starts_with (reverse s) (reverse p)

pub starts_with_iff : (s p : Str) → (starts_with s p ≡ true) ↔ ((rest : Str) × (s ≡ p ++ rest))
unfolding starts_with
starts_with_iff s [] = (λ h. (s, refl), λ h. refl)
starts_with_iff [] (p ∷ ps) = (λ h. cc, λ (rest, h). cc)
starts_with_iff (c ∷ s) (p ∷ ps) = (
  λ h.
      let same : c ≡ p = ground arith in
      let (rest, e) = (starts_with_iff s ps).0 (ground arith) in (rest, cc),
  λ (rest, h).
      let same : c ≡ p = cc in
      let tails : s ≡ ps ++ rest = cc in
      let more : starts_with s ps ≡ true = (starts_with_iff s ps).1 (rest, tails) in ground arith,
)

pub ends_with_iff : (s p : Str) → (ends_with s p ≡ true) ↔ ((front : Str) × (s ≡ front ++ p))
unfolding ends_with
ends_with_iff s p = (
  λ h.
      let (rest, e) = (starts_with_iff (reverse s) (reverse p)).0 h in
      (
        reverse rest,
        sym (reverse-reverse s)
            ∙ ap (λ (l : Str). reverse l) e
            ∙ reverse-append (reverse p) rest
            ∙ ap (λ (l : Str). reverse rest ++ l) (reverse-reverse p),
      ),
  λ (front, e).
      (starts_with_iff (reverse s) (reverse p)).1
        (reverse front, ap (λ (l : Str). reverse l) e ∙ reverse-append front p),
)
