-- ===== src/Watch/Relevant.antt =====
-- What `is_relevant_path` of config/watch.rs lets pass, as a relation, and what a spec for one file
-- sees of its directory.
use rust_commons.Prelude.{
  ◌≡◌, refl, ap, ◌↔◌, inl, inr, true, false, Option, none, some, List, [], ◌∷◌, ◌++◌, arith,
  if◌then◌else◌, Str, codes, starts_with, ends_with, starts_with_iff, ends_with_iff, str_eq,
  str_eq_iff, Bool-cases, Member, here, there,
}
use rust_commons.FilePath.{FilePath, file_name, extension, to_str, slash, push, needs_slash}
use rust_commons.FilePath.Laws.{IsName, file_name-push, file_name-entry}
use rust_commons.Watch.{
  PathFilter, basename, any, text_of, file, is_junk_name, any_suffix, any_equal, has_extension,
  is_empty, passes, named_passes, is_relevant_path,
}

any_equal→Member : (ns : List Str) (name : Str) → any_equal ns name ≡ true → Member name ns
unfolding any_equal
any_equal→Member [] name h = cc
any_equal→Member (n ∷ ns) name h = elim (Bool-cases (str_eq n name)) [
  | inl same ↦ here ((str_eq_iff n name).0 same)
  | inr other ↦ there (any_equal→Member ns name (rw other at h))
]

Member→any_equal : (ns : List Str) (name : Str) → Member name ns → any_equal ns name ≡ true
unfolding any_equal
Member→any_equal [] name m = elim m [ ]
Member→any_equal (n ∷ ns) name (here e) = rw ((str_eq_iff n name).1 e)
Member→any_equal (n ∷ ns) name (there m) = ground (arith, Member→any_equal ns name m)

pub data HasSuffix (suffix name : Str) : Type 0 where
  behind : (front : Str) → name ≡ front ++ suffix → HasSuffix suffix name

-- What an editor leaves behind: a hidden file, a backup, a swap file, a file that is being written.
pub data JunkName (name : Str) : Type 0 where
  hidden : (rest : Str) → name ≡ codes "." ++ rest → JunkName name
  backup : HasSuffix (codes "~") name → JunkName name
  swap : HasSuffix (codes ".swp") name → JunkName name
  temporary : HasSuffix (codes ".tmp") name → JunkName name

-- A name with one of the suffixes.
pub data HasAny (name : Str) : List Str → Type 0 where
  this : {s : Str} {rest : List Str} → HasSuffix s name → HasAny name (s ∷ rest)
  later : {s : Str} {rest : List Str} → HasAny name rest → HasAny name (s ∷ rest)

ends_with-HasSuffix : (s name : Str) → ends_with name s ≡ true → HasSuffix s name
ends_with-HasSuffix s name h = let (front, e) = (ends_with_iff name s).0 h in behind front e

HasSuffix-ends_with : (s name : Str) → HasSuffix s name → ends_with name s ≡ true
HasSuffix-ends_with s name (behind front e) = (ends_with_iff name s).1 (front, e)

JunkName-is_junk_name : (name : Str) → JunkName name → is_junk_name name ≡ true
unfolding is_junk_name
JunkName-is_junk_name name (hidden rest e) =
    let starts : starts_with name (codes ".") ≡ true =
      (starts_with_iff name (codes ".")).1 (rest, e) in
    ground (arith, starts)
JunkName-is_junk_name name (backup h) =
    let ends = HasSuffix-ends_with (codes "~") name h in ground (arith, ends)
JunkName-is_junk_name name (swap h) =
    let ends = HasSuffix-ends_with (codes ".swp") name h in ground (arith, ends)
JunkName-is_junk_name name (temporary h) =
    let ends = HasSuffix-ends_with (codes ".tmp") name h in ground (arith, ends)

is_junk_name-JunkName : (name : Str) → is_junk_name name ≡ true → JunkName name
unfolding is_junk_name
is_junk_name-JunkName name h = elim (Bool-cases (starts_with name (codes "."))) [
  | inl starts ↦ let (rest, e) = (starts_with_iff name (codes ".")).0 starts in hidden rest e
  | inr no_dot ↦ elim (Bool-cases (ends_with name (codes "~"))) [
    | inl ends ↦ backup (ends_with-HasSuffix (codes "~") name ends)
    | inr no_tilde ↦ elim (Bool-cases (ends_with name (codes ".swp"))) [
      | inl ends ↦ swap (ends_with-HasSuffix (codes ".swp") name ends)
      | inr no_swap ↦
          temporary (ends_with-HasSuffix (codes ".tmp") name (rw (no_dot, no_tilde, no_swap) at h))
    ]
  ]
]

no_junk_iff : (name : Str) → (is_junk_name name ≡ false) ↔ (¬ JunkName name)
no_junk_iff name = (
  λ fine junk. cc (JunkName-is_junk_name name junk),
  λ fine. elim (Bool-cases (is_junk_name name)) [
    | inl junk ↦ absurd (fine (is_junk_name-JunkName name junk))
    | inr not_junk ↦ not_junk
  ],
)

HasAny-any_suffix : (ss : List Str) (name : Str) → HasAny name ss → any_suffix ss name ≡ true
unfolding any_suffix
HasAny-any_suffix [] name m = elim m [ ]
HasAny-any_suffix (s ∷ ss) name (this h) = rw (HasSuffix-ends_with s name h)
HasAny-any_suffix (s ∷ ss) name (later m) = ground (arith, HasAny-any_suffix ss name m)

any_suffix-HasAny : (ss : List Str) (name : Str) → any_suffix ss name ≡ true → HasAny name ss
unfolding any_suffix
any_suffix-HasAny [] name h = cc
any_suffix-HasAny (s ∷ ss) name h = elim (Bool-cases (ends_with name s)) [
  | inl ends ↦ this (ends_with-HasSuffix s name ends)
  | inr goes_on ↦ later (any_suffix-HasAny ss name (rw goes_on at h))
]

no_suffix_iff : (ss : List Str) (name : Str) → (any_suffix ss name ≡ false) ↔ (¬ HasAny name ss)
no_suffix_iff ss name = (
  λ kept some_suffix. cc (HasAny-any_suffix ss name some_suffix),
  λ kept. elim (Bool-cases (any_suffix ss name)) [
    | inl dropped ↦ absurd (kept (any_suffix-HasAny ss name dropped))
    | inr none_matches ↦ none_matches
  ],
)

-- A name that a filter for directories lets pass: it has no suffix that is ignored, and it is one
-- of the extra names, or its extension is listed, or no extension is asked for.
pub data Passes (path : FilePath) (name : Str) : PathFilter → Type 0 where
  same_name : {want : Str} → name ≡ want → Passes path name (basename want)
  extra_name :
      {extensions extra_names ignore_suffixes : List Str}
      → ¬ HasAny name ignore_suffixes
      → Member name extra_names
      → Passes path name (any extensions extra_names ignore_suffixes)
  every_extension :
      {extensions extra_names ignore_suffixes : List Str}
      → ¬ HasAny name ignore_suffixes
      → extensions ≡ []
      → Passes path name (any extensions extra_names ignore_suffixes)
  listed_extension :
      {extensions extra_names ignore_suffixes : List Str} (ext : Str)
      → ¬ HasAny name ignore_suffixes
      → text_of (extension path) ≡ some ext
      → Member ext extensions
      → Passes path name (any extensions extra_names ignore_suffixes)

-- An event matters if its path has a name in UTF-8 that no editor leaves behind, and the filter
-- lets the name pass.
pub record Relevant (path : FilePath) (filter : PathFilter) : Type 0 where
  pub name : Str
  pub named : text_of (file_name path) ≡ some name
  pub no_junk : ¬ JunkName name
  pub passed : Passes path name filter

module _ (path : FilePath) (name : Str) where
  extension-Passes :
      (exts extra ignored : List Str) (o : Option Str)
      → ¬ HasAny name ignored
      → text_of (extension path) ≡ o
      → has_extension exts o ≡ true
      → Passes path name (any exts extra ignored)
  extension-Passes exts extra ignored none i e h = cc
  extension-Passes exts extra ignored (some ext) i e h =
      listed_extension ext i e (any_equal→Member exts ext h)

  unlisted-Passes :
      (exts extra ignored : List Str)
      → ¬ HasAny name ignored
      → (if is_empty exts then true else has_extension exts (text_of (extension path))) ≡ true
      → Passes path name (any exts extra ignored)
  unlisted-Passes [] extra ignored i h = every_extension i refl
  unlisted-Passes (x ∷ exts) extra ignored i h =
      extension-Passes (x ∷ exts) extra ignored (text_of (extension path)) i refl h

  passes-Passes : (filter : PathFilter) → passes path name filter ≡ true → Passes path name filter
  passes-Passes (basename want) h = same_name ((str_eq_iff name want).0 h)
  passes-Passes (any exts extra ignored) h = elim (Bool-cases (any_suffix ignored name)) [
    | inl dropped ↦ cc (rw dropped at h)
    | inr kept ↦ elim (Bool-cases (any_equal extra name)) [
      | inl listed ↦
          extra_name ((no_suffix_iff ignored name).0 kept) (any_equal→Member extra name listed)
      | inr unlisted ↦
          unlisted-Passes exts extra ignored ((no_suffix_iff ignored name).0 kept)
            (rw (kept, unlisted) at h)
    ]
  ]

  Passes-passes : (filter : PathFilter) → Passes path name filter → passes path name filter ≡ true
  Passes-passes (basename want) (same_name e) = (str_eq_iff name want).1 e
  Passes-passes (any exts extra ignored) (extra_name i m) =
      rw ((no_suffix_iff ignored name).1 i, Member→any_equal extra name m)
  Passes-passes (any exts extra ignored) (every_extension i e) =
      ground (arith, (no_suffix_iff ignored name).1 i, ap is_empty e)
  Passes-passes (any exts extra ignored) (listed_extension ext i e m) =
      ground (arith, (no_suffix_iff ignored name).1 i, Member→any_equal exts ext m)

named-Relevant :
    (path : FilePath) (filter : PathFilter) (o : Option Str)
    → text_of (file_name path) ≡ o
    → named_passes path o filter ≡ true
    → Relevant path filter
named-Relevant path filter none e h = cc
named-Relevant path filter (some name) e h = elim (Bool-cases (is_junk_name name)) [
  | inl junk ↦ cc (rw junk at h)
  | inr fine ↦ record {
    name = name;
    named = e;
    no_junk = (no_junk_iff name).0 fine;
    passed = passes-Passes path name filter (rw fine at h);
  }
]

-- `is_relevant_path` is true of exactly those paths that are relevant: the last component is valid
-- UTF-8 and no editor's leftover, that is, it does not begin with a dot or end with "~", ".swp" or
-- ".tmp"; and it passes the filter by its name or its extension.
pub is_relevant_path_iff :
    (path : FilePath) (filter : PathFilter)
    → (is_relevant_path path filter ≡ true) ↔ Relevant path filter
unfolding is_relevant_path
is_relevant_path_iff path filter = (
  named-Relevant path filter (text_of (file_name path)) refl,
  λ r. rw (r.named, (no_junk_iff r.name).1 r.no_junk) (Passes-passes path r.name filter r.passed),
)

junk_or_same :
    (seen name : Str)
    → (if is_junk_name seen then false else str_eq seen name)
      ≡ (if is_junk_name name then false else str_eq seen name)
junk_or_same seen name = elim (Bool-cases (str_eq seen name)) [
  | inl same ↦ rw ((str_eq_iff seen name).0 same)
  | inr other ↦ rw other (ground arith)
]

-- The spec of one file, whose name is one component and valid UTF-8, sees the events of that file in
-- whatever directory, and those of no other name; but if its name counts as an editor's leftover,
-- such as a hidden file, it sees none at all.
pub is_relevant_path-file :
    (base where_seen : FilePath) (name seen : Str)
    → needs_slash base ≡ true
    → IsName name
    → IsName seen
    → to_str name ≡ some name
    → to_str seen ≡ some seen
    → is_relevant_path (where_seen ++ slash ∷ seen) (file (push base name)).filter
      ≡ (if is_junk_name name then false else str_eq seen name)
unfolding is_relevant_path file
is_relevant_path-file base where_seen name seen h n m u v =
    rw (file_name-push base name n h, u, file_name-entry seen m where_seen, v)
      (junk_or_same seen name)
