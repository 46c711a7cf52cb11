-- ===== src/Config/JsonFile/Seeding.antt =====
-- When config/json.rs writes a file, and what a second load finds.
use rust_commons.Prelude.{
  ◌≡◌, refl, sym, ap, ◌∙◌, ◌⊎◌, inl, inr, ◌++◌, Result, ok, err, map_err, then_run-eq-ok, Str,
  codes, arith,
}
use rust_commons.StdIo.{
  ErrorKind, not_found, connection_refused, connection_reset, unexpected_eof, other,
}
use rust_commons.FilePath.{FilePath, parent}
use rust_commons.Config.{ConfigError, json}
use rust_commons.Config.JsonFile.{
  Fs, Serde, Seed, error_if_missing, default_in_memory, create_file, JsonFile, make_parent, create,
  after_read, load,
}

module _ {W J T : Type 0} (fs : Fs W) (serde : Serde J T) (f : JsonFile) where
  abbrev Untouched : Result ErrorKind Str × W → Type 0
  Untouched x =
      ((after_read fs serde f x).1 ≡ x.1) ⊎ ((x.0 ≡ err not_found) × (f.seed ≡ create_file))

  on_missing-Untouched : (seed : Seed) (w : W) → f.seed ≡ seed → Untouched (err not_found, w)
  on_missing-Untouched error_if_missing w e = inl (rw e)
  on_missing-Untouched default_in_memory w e = inl (rw e)
  on_missing-Untouched create_file w e = inr (refl, e)

  after_read-Untouched : (x : Result ErrorKind Str × W) → Untouched x
  after_read-Untouched (ok text, w) = inl refl
  after_read-Untouched (err not_found, w) = on_missing-Untouched f.seed w refl
  after_read-Untouched (err connection_refused, w) = inl refl
  after_read-Untouched (err connection_reset, w) = inl refl
  after_read-Untouched (err unexpected_eof, w) = inl refl
  after_read-Untouched (err (other c), w) = inl refl

  -- A load does nothing to the system but read the file, unless the file is missing and the loader
  -- is one that creates it. A file that is there is never overwritten, whether or not it can be
  -- read or parsed.
  pub load_reads_only :
      (w : W)
      → ((load fs serde f w).1 ≡ (fs.read_to_string f.path w).1)
        ⊎ (((fs.read_to_string f.path w).0 ≡ err not_found) × (f.seed ≡ create_file))
  unfolding load
  load_reads_only w = after_read-Untouched (fs.read_to_string f.path w)

  -- What a creation that succeeds has done.
  create_ok :
      (w w' : W) (value : T)
      → create fs serde f.path w ≡ (ok value, w')
      → (text : Str) × (w₁ : W) × (serde.to_string_pretty serde.default ≡ ok text)
        × (fs.write f.path (text ++ codes "\n") w₁ ≡ (ok tt, w'))
        × (value ≡ serde.default)
  unfolding create
  create_ok w w' value h =
      let (_, w₁, _, h₁) = then_run-eq-ok (make_parent fs serde (parent f.path) w) _ h in
      let (text, w₂, p, h₂) =
        then_run-eq-ok (map_err json (serde.to_string_pretty serde.default), w₁) _ h₁ in
      (text, w₂, ground arith, ground arith, ground arith)

  missing_file :
      (x : Result ErrorKind Str × W) (out : Result (ConfigError J) T × W)
      → f.seed ≡ create_file
      → x.0 ≡ err not_found
      → after_read fs serde f x ≡ out
      → create fs serde f.path x.1 ≡ out
  missing_file (ok text, w) out seed e h = cc
  missing_file (err x, w) out seed e h = let k : x ≡ not_found = cc in rw (k, seed) at h

  -- What a file that was written with success shows to the next reader.
  abbrev pub ReadsBack : Type 0
  ReadsBack =
      (p : FilePath) (text : Str) (w : W)
      → (fs.write p text w).0 ≡ ok tt
      → (fs.read_to_string p (fs.write p text w).1).0 ≡ ok text

  -- `from_str` of what `to_string_pretty` prints, with a line end behind it.
  abbrev pub Parses : Type 0
  Parses =
      (value : T) (text : Str)
      → serde.to_string_pretty value ≡ ok text
      → serde.from_str (text ++ codes "\n") ≡ ok value

  read_ok-load :
      (x : Result ErrorKind Str × W) (text : Str) (value : T)
      → x.0 ≡ ok text
      → serde.from_str text ≡ ok value
      → (after_read fs serde f x).0 ≡ ok value
  read_ok-load (ok t, w) text value e p = let k : t ≡ text = cc in rw (k, p)
  read_ok-load (err x, w) text value e p = cc

  -- The first load of a missing file that may be created gives the default value, if it succeeds,
  -- and the file that it leaves makes the next load give the same value; on a file system that
  -- reads back what was written, and if serde_json parses what it has printed.
  pub load_after_create :
      (w w' : W) (value : T)
      → ReadsBack
      → Parses
      → f.seed ≡ create_file
      → (fs.read_to_string f.path w).0 ≡ err not_found
      → load fs serde f w ≡ (ok value, w')
      → (value ≡ serde.default) × ((load fs serde f w').0 ≡ ok value)
  unfolding load
  load_after_create w w' value back parses seed missing h =
      let made = missing_file (fs.read_to_string f.path w) (ok value, w') seed missing h in
      let (text, w₁, pretty, wrote, same) =
        create_ok (fs.read_to_string f.path w).1 w' value made in
      let done : (fs.write f.path (text ++ codes "\n") w₁).0 ≡ ok tt = rw wrote in
      let left : (fs.write f.path (text ++ codes "\n") w₁).1 ≡ w' = rw wrote in
      let shown = rw left at (back f.path (text ++ codes "\n") w₁ done) in
      (
        same,
        read_ok-load (fs.read_to_string f.path w') (text ++ codes "\n") value shown
            (parses serde.default text pretty ∙ ap ok (sym same)),
      )
