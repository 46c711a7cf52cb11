-- ===== src/Prelude/Decimal.antt =====
-- Numbers in decimal, as `{}` prints them, and how they are read.
use Prim.Native.Nat.{ℕ, zero, suc, ◌+◌, ◌*◌, ◌^◌, ◌/◌, ◌%◌, ◌-◌, ◌<◌}
use mathlib.Core.Path.{◌≡◌, ap, ◌∙◌, subst}
use mathlib.Core.Logic.{inl, inr}
use mathlib.Core.List.{[], ◌∷◌}
use native.Mathlib.Omega.{arith}
use native.Mathlib.Nat.{pow-suc}
use rust_commons.Prelude.Tests.{◌==◌, ==_iff, Bool-cases, if◌then◌else◌}
use rust_commons.Prelude.Bytes.{Str}

-- The digits of a number that has at most `fuel` of them, with a text behind.
abbrev pub decimal_from : (fuel : ℕ) → ℕ → Str → Str
decimal_from zero n behind = behind
decimal_from (suc fuel) n behind =
    let text = (b'0' + n % 10) ∷ behind in
    let more = decimal_from fuel (n / 10) text in if n / 10 == 0 then text else more

-- The number that is read from decimal digits, with the ones before them.
unfoldable pub number_from : ℕ → Str → ℕ
number_from before [] = before
number_from before (c ∷ digits) = number_from (before * 10 + (c - b'0')) digits

digit_read : (n : ℕ) → n / 10 * 10 + (b'0' + n % 10 - b'0') ≡ n
digit_read n = omega arith

pub decimal_from-number :
    (fuel n : ℕ) (behind : Str)
    → n < 10 ^ suc fuel
    → number_from 0 (decimal_from (suc fuel) n behind) ≡ number_from n behind
unfolding number_from
decimal_from-number zero n behind h =
    let read : 0 * 10 + (b'0' + n % 10 - b'0') ≡ n = omega arith in
    elim (Bool-cases (n / 10 == 0)) [
      | inl e ↦ rw e (ap (λ k. number_from k behind) read)
      | inr e ↦ rw e (ap (λ k. number_from k behind) read)
    ]
decimal_from-number (suc fuel) n behind h = elim (Bool-cases (n / 10 == 0)) [
  | inl e ↦
      let small : n / 10 ≡ 0 = (==_iff (n / 10) 0).0 e in
      let read : 0 * 10 + (b'0' + n % 10 - b'0') ≡ n = omega arith in
      rw e (ap (λ k. number_from k behind) read)
  | inr e ↦
      let room : n < 10 ^ suc fuel * 10 = subst (λ k. n < k) (pow-suc 10 (suc fuel)) h in
      rw e (
        decimal_from-number fuel (n / 10) ((b'0' + n % 10) ∷ behind) (omega arith)
        ∙ ap (λ k. number_from k behind) (digit_read n))
]
