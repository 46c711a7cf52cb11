-- ===== src/Prelude/Fallible.antt =====
-- Rust's `Result`, and code that threads a state through fallible steps.
use mathlib.Core.Path.{◌≡◌, refl}
use mathlib.Core.Logic.{◌⊎◌, inl, inr}

pub data Result {ℓ κ} (E : Type ℓ) (A : Type κ) : Type (ℓ ⊔ κ) where
  ok : A → Result E A
  err : E → Result E A

pub Result-cases {ℓ κ} :
    {E : Type ℓ} {A : Type κ} (r : Result E A) → ((a : A) × (r ≡ ok a)) ⊎ ((e : E) × (r ≡ err e))
Result-cases (ok a) = inl (a, refl)
Result-cases (err e) = inr (e, refl)

-- `Result::map_err`, which `?` applies with `From`
abbrev pub map_err {ℓ κ μ} :
    {E : Type ℓ} {F : Type κ} {A : Type μ} → (E → F) → Result E A → Result F A
map_err f (ok a) = ok a
map_err f (err e) = err (f e)

-- A computation over the state `S` that may fail. A failure keeps the changes made before it.
abbrev pub Io {ℓ κ μ} : Type ℓ → Type κ → Type μ → Type (ℓ ⊔ κ ⊔ μ)
Io S E A = S → Result E A × S

abbrev pub pure {ℓ κ μ} : {S : Type ℓ} {E : Type κ} {A : Type μ} → A → Io S E A
pure a s = (ok a, s)

abbrev pub raise {ℓ κ μ} : {S : Type ℓ} {E : Type κ} {A : Type μ} → E → Io S E A
raise e s = (err e, s)

abbrev pub lift {ℓ κ μ} : {S : Type ℓ} {E : Type κ} {A : Type μ} → Result E A → Io S E A
lift r s = (r, s)

-- What follows a step that gave `r`.
abbrev pub then_run {ℓ κ μ ν} :
    {S : Type ℓ} {E : Type κ} {A : Type μ} {B : Type ν}
    → Result E A × S
    → (A → Io S E B)
    → Result E B × S
then_run (ok a, s) f = f a s
then_run (err e, s) f = (err e, s)

infixl 5 ◌>>=◌ ◌>>◌
abbrev pub ◌>>=◌ {ℓ κ μ ν} :
    {S : Type ℓ} {E : Type κ} {A : Type μ} {B : Type ν} → Io S E A → (A → Io S E B) → Io S E B
◌>>=◌ m f s = then_run (m s) f

abbrev pub ◌>>◌ {ℓ κ μ ν} :
    {S : Type ℓ} {E : Type κ} {A : Type μ} {B : Type ν} → Io S E A → Io S E B → Io S E B
◌>>◌ m k = m >>= λ _. k

-- `m.map_err(f)` on a step
abbrev pub with_err {ℓ κ μ ν} :
    {S : Type ℓ} {E : Type κ} {F : Type μ} {A : Type ν} → (E → F) → Io S E A → Io S F A
with_err f m s = let (r, s') = m s in (map_err f r, s')

-- A block that succeeds went through its first step.
pub then_run-eq-ok {ℓ κ μ ν} :
    {S : Type ℓ} {E : Type κ} {A : Type μ} {B : Type ν} (m : Result E A × S) (f : A → Io S E B)
    {b : B} {s' : S}
    → then_run m f ≡ (ok b, s')
    → (a : A) × (s₁ : S) × (m ≡ (ok a, s₁)) × (f a s₁ ≡ (ok b, s'))
then_run-eq-ok (ok a, s) f h = (a, s, refl, h)
then_run-eq-ok (err e, s) f h = cc
