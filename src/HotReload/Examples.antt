-- ===== src/HotReload/Examples.antt =====
-- A test of the hot reload of config/watch.rs and config/mod.rs: a file is saved twice in a burst, and
-- the system is what the file says. A number below 10 is no configuration.
use rust_commons.Prelude.{
  ℕ, ◌+◌, ◌≤◌, ◌≡◌, refl, true, false, none, some, List, [], ◌∷◌, ok, err, codes, arith, leb,
  if◌then◌else◌, str_eq, starts_with, ends_with,
}
use rust_commons.StdIo.{other}
use rust_commons.FilePath.{file_name, extension, to_str}
use rust_commons.Config.{ConfigError, Load, new, snapshot}
use rust_commons.Config.Reload.{value_after}
use rust_commons.Watch.{WatchSpec, dir, is_junk_name, any_suffix, any_equal, is_relevant_path}
use rust_commons.Watch.Attach.{Watcher}
use rust_commons.Watch.Loop.{
  event, timed_out, modify, Turn, timeout_of, any_path, any_spec, is_relevant, default_debounce,
}
use rust_commons.Watch.Attach.Settled.{nothing, also}
use rust_commons.HotReload.{Hot, Step, turns, edits, run_steps}
use rust_commons.HotReload.Edits.{Editing, edit, change, quiet, last_edit, reload, edits_go_live}

abbrev disk : Watcher ℕ ℕ
disk = record {
  is_dir = λ p w. true;
  create_dir_all = λ p w. (err (other 13), w);
  watch = λ p recursive w. (ok tt, w);
}

abbrev source : Load ℕ ℕ ℕ
source = record {
  load = λ w. (if leb 10 w then ok w else err (ConfigError.other (codes "too small")), w);
}

abbrev one_dir : List WatchSpec
one_dir = dir (codes "/x") true ∷ []

abbrev at_rest : Hot ℕ ℕ
at_rest = record {
  watch = record {
    attached = true ∷ [];
    pending = none;
    world = 11;
    signals = 0;
    callbacks = 0;
    ended = false;
  };
  live = new 11;
}

abbrev expiry : Turn
expiry = record {
  stop = false;
  received = timed_out;
  waited_from = 1100;
  attached_at = 1300;
  noted_at = 1301;
}

abbrev saved : Turn
saved = record expiry { received = event modify (codes "/x/a.json" ∷ []); noted_at = 1000 }

saved_is_relevant : is_relevant one_dir modify (codes "/x/a.json" ∷ []) ≡ true
unfolding is_relevant any_path any_spec dir is_relevant_path file_name extension to_str is_junk_name
    starts_with ends_with str_eq any_suffix any_equal
saved_is_relevant = refl

waited : 1100 + timeout_of default_debounce 1100 (some 1000) ≤ 1301
unfolding timeout_of
waited = omega arith

-- The file is saved, then truncated and written again before the debounce has passed.
abbrev two_saves : List (Step ℕ)
two_saves = edits 12 ∷ turns saved ∷ edits 0 ∷ edits 13 ∷ turns expiry ∷ []

two_saves_burst : Editing one_dir default_debounce none two_saves
two_saves_burst = edit 12 (
    change modify (codes "/x/a.json" ∷ []) refl refl saved_is_relevant
      (edit 0 (edit 13 (quiet 1000 refl refl (omega arith) waited))))

edits_go_live_example :
    let h' = run_steps disk one_dir default_debounce (reload source) two_saves at_rest in
    (snapshot h'.live
      ≡ value_after source (snapshot at_rest.live) (source.load (last_edit two_saves 11)).0)
    × (h'.watch.pending ≡ none)
    × (h'.watch.callbacks ≡ 0 + 1)
edits_go_live_example =
    edits_go_live disk one_dir default_debounce source two_saves at_rest refl (also nothing)
      two_saves_burst

second_save_is_live :
    value_after source (snapshot at_rest.live) (source.load (last_edit two_saves 11)).0 ≡ 13
unfolding last_edit
second_save_is_live = refl
