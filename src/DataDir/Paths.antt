-- ===== src/DataDir/Paths.antt =====
-- The paths that datadir.rs builds below the data root.
use rust_commons.Prelude.{
  ◌≡◌, refl, sym, ap, ◌∙◌, true, false, List, [], ◌∷◌, ◌++◌, append_assoc, append-nil, Str, codes,
  str_eq, Bool-cases, inl, inr,
}
use rust_commons.FilePath.{FilePath, is_absolute, push, needs_slash, slash}
use rust_commons.FilePath.Laws.{IsName, push-push, push-push-push, push-absolute}
use rust_commons.DataDir.{
  DataDir, from_path, push_all, join, etc_file, etc_dir, run_socket, run_nested_socket,
}

abbrev pub AllRelative : List FilePath → Type 0
AllRelative [] = Unit
AllRelative (p ∷ ps) = (is_absolute p ≡ false) × AllRelative ps

push-extends :
    (base part : FilePath)
    → is_absolute part ≡ false
    → (rest : FilePath) × (push base part ≡ base ++ rest)
unfolding push
push-extends base part h = elim (Bool-cases (needs_slash base)) [
  | inl needed ↦ (slash ∷ part, rw (h, needed))
  | inr ended ↦ (part, rw (h, ended))
]

push_all-extends :
    (base : FilePath) (parts : List FilePath)
    → AllRelative parts
    → (rest : FilePath) × (push_all base parts ≡ base ++ rest)
unfolding push_all
push_all-extends base [] h = ([], sym (append-nil base))
push_all-extends base (part ∷ parts) h =
    let (x, p) = push-extends base part h.0 in
    let (y, q) = push_all-extends (push base part) parts h.1 in
    (x ++ y, q ∙ (ap (λ (l : FilePath). l ++ y) p ∙ append_assoc base x y))

-- Relative parts stay below the root: the joined path is the root with something behind it.
pub join-extends :
    (d : DataDir) (parts : List FilePath)
    → AllRelative parts
    → (rest : FilePath) × (join d parts ≡ d.root ++ rest)
join-extends d parts h = push_all-extends d.root parts h

-- An absolute part throws away the root and what was joined before it.
pub join-absolute :
    (d : DataDir) (before : List FilePath) (p : FilePath) (after : List FilePath)
    → is_absolute p ≡ true
    → join d (before ++ p ∷ after) ≡ join (from_path p) after
unfolding push_all
join-absolute d [] p after h = ap (λ (x : FilePath). push_all x after) (push-absolute d.root p h)
join-absolute d (x ∷ before) p after h = join-absolute (from_path (push d.root x)) before p after h

etc-IsName : IsName (codes "etc")
unfolding str_eq
etc-IsName = record { one_piece = refl; filled = refl; not_here = refl; not_above = refl }

pub run-IsName : IsName (codes "run")
unfolding str_eq
run-IsName = record { one_piece = refl; filled = refl; not_here = refl; not_above = refl }

-- The four kinds of path of a daemon, written out, for a root with no slash at its end and names
-- that are one component.
pub daemon_paths :
    (d : DataDir) (name ext : Str)
    → needs_slash d.root ≡ true
    → IsName name
    → IsName (name ++ codes "." ++ ext)
    → IsName (name ++ codes ".sock")
    → (etc_file d name ext ≡ (d.root ++ codes "/etc") ++ slash ∷ (name ++ codes "." ++ ext))
      × (etc_dir d name ≡ (d.root ++ codes "/etc") ++ slash ∷ name)
      × (run_socket d name ≡ (d.root ++ codes "/run") ++ slash ∷ (name ++ codes ".sock"))
      × (run_nested_socket d name
          ≡ ((d.root ++ codes "/run") ++ slash ∷ name) ++ slash ∷ (name ++ codes ".sock"))
unfolding etc_file etc_dir run_socket run_nested_socket push_all
daemon_paths d name ext rooted n file sock = (
  push-push d.root (codes "etc") _ rooted etc-IsName file,
  push-push d.root (codes "etc") name rooted etc-IsName n,
  push-push d.root (codes "run") _ rooted run-IsName sock,
  push-push-push d.root (codes "run") name _ rooted run-IsName n sock,
)
