-- ===== src/FilePath/Laws.antt =====
-- Facts about paths that the components share: the name at the end of a joined path.
use rust_commons.Prelude.{
  ℕ, ◌≡◌, refl, ap, ◌∙◌, Bool, true, false, some, List, [], ◌∷◌, ◌++◌, append_assoc, ◌==◌,
  if◌then◌else◌, Str, codes, str_eq, Bool-cases, inl, inr,
}
use rust_commons.FilePath.{
  FilePath, slash, Component, root_dir, cur_dir, normal, split_slash, is_absolute, component_of,
  components_of, first_component, components, last_component, name_in, file_name, push, needs_slash,
}

-- A name that can stand between two slashes and names an entry of a directory.
abbrev pub has_slash : Str → Bool
has_slash [] = false
has_slash (c ∷ s) = if c == slash then true else has_slash s

pub record IsName (s : Str) : Type 0 where
  pub one_piece : has_slash s ≡ false
  pub filled : str_eq s [] ≡ false
  pub not_here : str_eq s (codes ".") ≡ false
  pub not_above : str_eq s (codes "..") ≡ false

split_slash-cons : (s : Str) → (a : Str) × (l : List Str) × (split_slash s ≡ a ∷ l)
unfolding split_slash
split_slash-cons [] = ([], [], refl)
split_slash-cons (c ∷ s) =
    let (a, l, e) = split_slash-cons s in
    elim (Bool-cases (c == slash)) [
      | inl at_slash ↦ ([], split_slash s, rw at_slash)
      | inr inside ↦ (c ∷ a, l, rw (inside, e))
    ]

split_slash-piece : (s : Str) → has_slash s ≡ false → split_slash s ≡ s ∷ []
unfolding split_slash
split_slash-piece [] h = refl
split_slash-piece (c ∷ s) h = elim (Bool-cases (c == slash)) [
  | inl at_slash ↦ cc (rw at_slash at h)
  | inr inside ↦ rw (inside, split_slash-piece s (rw inside at h))
]

split_slash-append :
    (base s : Str) → split_slash (base ++ slash ∷ s) ≡ split_slash base ++ split_slash s
unfolding split_slash
split_slash-append [] s = refl
split_slash-append (c ∷ base) s = elim (Bool-cases (c == slash)) [
  | inl at_slash ↦ rw (at_slash, split_slash-append base s)
  | inr inside ↦ let (a, l, e) = split_slash-cons base in rw (inside, split_slash-append base s, e)
]

components_of-append :
    (l m : List Str) → components_of (l ++ m) ≡ components_of l ++ components_of m
unfolding components_of
components_of-append [] m = refl
components_of-append (s ∷ l) m = rw (components_of-append l m, append_assoc)

last_component-append : (l : List Component) (c : Component) → last_component (l ++ c ∷ []) ≡ some c
last_component-append [] c = refl
last_component-append (a ∷ []) c = refl
last_component-append (a ∷ b ∷ l) c = last_component-append (b ∷ l) c

module _ (name : Str) (n : IsName name) where
  component_of-name : component_of name ≡ normal name ∷ []
  unfolding component_of
  component_of-name = rw (n.filled, n.not_here, n.not_above)

  components_of-name :
      (l : List Str) → components_of (l ++ name ∷ []) ≡ components_of l ++ normal name ∷ []
  unfolding components_of
  components_of-name l =
      components_of-append l (name ∷ [])
      ∙ ap (λ (m : List Component). components_of l ++ (m ++ [])) component_of-name

  first_component-name :
      (a : Str) (l : List Str)
      → last_component (first_component (a ∷ (l ++ name ∷ []))) ≡ some (normal name)
  unfolding first_component
  first_component-name a l = elim (Bool-cases (str_eq a (codes "."))) [
    | inl here_first ↦
        rw (here_first, components_of-name l)
          (last_component-append (cur_dir ∷ components_of l) (normal name))
    | inr other ↦
        rw (other, components_of-name (a ∷ l))
          (last_component-append (components_of (a ∷ l)) (normal name))
  ]

  pieces : (base : FilePath) → split_slash (base ++ slash ∷ name) ≡ split_slash base ++ name ∷ []
  pieces base =
      split_slash-append base name
      ∙ ap (λ (m : List Str). split_slash base ++ m) (split_slash-piece name n.one_piece)

  last_of_components :
      (base : FilePath) → last_component (components (base ++ slash ∷ name)) ≡ some (normal name)
  unfolding components
  last_of_components base = elim (Bool-cases (is_absolute (base ++ slash ∷ name))) [
    | inl absolute ↦
        rw (absolute, pieces base, components_of-name (split_slash base))
          (last_component-append (root_dir ∷ components_of (split_slash base)) (normal name))
    | inr relative ↦
        let (a, l, e) = split_slash-cons base in
        rw (relative, pieces base, e) (first_component-name a l)
  ]

  -- The file name of an entry of a directory is the name of the entry.
  pub file_name-entry : (base : FilePath) → file_name (base ++ slash ∷ name) ≡ some name
  unfolding file_name
  file_name-entry base = ap name_in (last_of_components base)

relative_of_name : (name : Str) → IsName name → is_absolute name ≡ false
unfolding is_absolute
relative_of_name [] n = refl
relative_of_name (c ∷ s) n = elim (Bool-cases (c == slash)) [
  | inl at_slash ↦ cc (rw at_slash at n.one_piece)
  | inr inside ↦ inside
]

-- Pushing a name onto a path that does not end in a slash puts one slash between them.
pub push-name :
    (base : FilePath) (name : Str)
    → IsName name
    → needs_slash base ≡ true
    → push base name ≡ base ++ slash ∷ name
unfolding push
push-name base name n h = rw (relative_of_name name n, h)

pub file_name-push :
    (base : FilePath) (name : Str)
    → IsName name
    → needs_slash base ≡ true
    → file_name (push base name) ≡ some name
file_name-push base name n h = ap file_name (push-name base name n h) ∙ file_name-entry name n base

needs_slash-append :
    (base : FilePath) (c : ℕ) (s : Str) → needs_slash (base ++ c ∷ s) ≡ needs_slash (c ∷ s)
needs_slash-append [] c s = refl
needs_slash-append (b ∷ []) c s = refl
needs_slash-append (b ∷ d ∷ base) c s = needs_slash-append (d ∷ base) c s

needs_slash-piece : (c : ℕ) (s : Str) → has_slash (c ∷ s) ≡ false → needs_slash (c ∷ s) ≡ true
needs_slash-piece c [] h = elim (Bool-cases (c == slash)) [
  | inl at_slash ↦ cc (rw at_slash at h)
  | inr inside ↦ rw inside
]
needs_slash-piece c (d ∷ s) h = elim (Bool-cases (c == slash)) [
  | inl at_slash ↦ cc (rw at_slash at h)
  | inr inside ↦ needs_slash-piece d s (rw inside at h)
]

needs_slash-entry :
    (base : FilePath) (name : Str) → IsName name → needs_slash (base ++ slash ∷ name) ≡ true
unfolding str_eq
needs_slash-entry base [] n = cc (n.filled)
needs_slash-entry base (c ∷ s) n =
    needs_slash-append base slash (c ∷ s) ∙ needs_slash-piece c s n.one_piece

-- Two names in a row.
pub push-push :
    (base : FilePath) (a b : Str)
    → needs_slash base ≡ true
    → IsName a
    → IsName b
    → push (push base a) b ≡ (base ++ slash ∷ a) ++ slash ∷ b
push-push base a b h m n =
    ap (λ (x : FilePath). push x b) (push-name base a m h)
    ∙ push-name (base ++ slash ∷ a) b n (needs_slash-entry base a m)

pub push-push-push :
    (base : FilePath) (a b c : Str)
    → needs_slash base ≡ true
    → IsName a
    → IsName b
    → IsName c
    → push (push (push base a) b) c ≡ ((base ++ slash ∷ a) ++ slash ∷ b) ++ slash ∷ c
push-push-push base a b c h l m n =
    ap (λ (x : FilePath). push x c) (push-push base a b h l m)
    ∙ push-name ((base ++ slash ∷ a) ++ slash ∷ b) c n (needs_slash-entry (base ++ slash ∷ a) b m)

pub push-absolute : (base p : FilePath) → is_absolute p ≡ true → push base p ≡ p
unfolding push
push-absolute base p h = rw h
