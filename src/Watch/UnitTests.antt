-- ===== src/Watch/UnitTests.antt =====
-- The unit tests of the filters of config/watch.rs.
use rust_commons.Prelude.{
  ◌≡◌, refl, Bool, true, not, ◌&&◌, [], ◌∷◌, codes, str_eq, starts_with, ends_with,
}
use rust_commons.FilePath.{file_name, extension, to_str}
use rust_commons.Watch.{
  PathFilter, basename, any, is_junk_name, any_suffix, any_equal, is_relevant_path,
}

abbrev relevant_filters_basename : Bool
relevant_filters_basename =
    let f = basename (codes "micronet.json") in
    is_relevant_path (codes "/data/etc/micronet.json") f
    && (not (is_relevant_path (codes "/data/etc/.micronet.json") f)
        && (not (is_relevant_path (codes "/data/etc/micronet.json~") f)
            && (not (is_relevant_path (codes "/data/etc/other.json") f)
                && (not (is_relevant_path (codes "/data/etc/micronet.json.tmp") f)
                    && not (is_relevant_path (codes "/data/etc/micronet.json.swp") f)))))

abbrev relevant_filters_dropins : Bool
relevant_filters_dropins =
    let f : PathFilter = any (codes "json" ∷ []) (codes "microinit.d" ∷ []) [] in
    is_relevant_path (codes "/data/etc/microinit.json") f
    && (is_relevant_path (codes "/data/etc/microinit.d") f
        && (is_relevant_path (codes "/data/etc/microinit.d/loco.json") f
            && (not (is_relevant_path (codes "/data/etc/notes.txt") f)
                && not (is_relevant_path (codes "/data/etc/.hidden.json") f))))

basename_passes : relevant_filters_basename ≡ true
unfolding is_relevant_path file_name to_str is_junk_name starts_with ends_with str_eq
basename_passes = refl

dropins_pass : relevant_filters_dropins ≡ true
unfolding is_relevant_path file_name extension to_str is_junk_name starts_with ends_with str_eq
    any_suffix any_equal
dropins_pass = refl
