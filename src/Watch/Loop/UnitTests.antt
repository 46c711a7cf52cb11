-- ===== src/Watch/Loop/UnitTests.antt =====
-- The unit tests of config/watch.rs that wait for a reload: what the channel gets from the turns that
-- inotify makes of the writes. The system is the list of its directories, the debounce 50
-- milliseconds.
use rust_commons.Prelude.{
  false, ℕ, ◌≡◌, refl, Bool, true, ◌||◌, List, [], ◌∷◌, ok, codes, str_eq, starts_with, ends_with,
  ltb,
}
use rust_commons.FilePath.{FilePath, file_name, extension, to_str, parent, push}
use rust_commons.Watch.{
  PathFilter, any, WatchSpec, file, is_junk_name, any_suffix, any_equal, is_relevant_path,
}
use rust_commons.Watch.Attach.{Watcher, attach_spec, attach_pending, watch_dir_for}
use rust_commons.Watch.Loop.{
  EventKind, create, modify, event, timed_out, Turn, signal_sinks, WatchState, attach_round,
  fire_reload, watch_loop, any_path, any_spec, is_relevant, run_loop,
}

abbrev Dirs : Type 0
Dirs = List FilePath

abbrev is_listed : FilePath → Dirs → Bool
is_listed p [] = false
is_listed p (q ∷ dirs) = str_eq p q || is_listed p dirs

abbrev dirs_watcher : Watcher Dirs ℕ
dirs_watcher = record {
  is_dir = is_listed;
  create_dir_all = λ p dirs. (ok tt, p ∷ dirs);
  watch = λ p recursive dirs. (ok tt, dirs);
}

-- An event at a time, and a time-out.
abbrev heard : EventKind → FilePath → ℕ → Turn
heard kind path at = record {
  stop = false;
  received = event kind (path ∷ []);
  waited_from = at;
  attached_at = at;
  noted_at = at;
}

abbrev waited : (begun at : ℕ) → Turn
waited begun at = record {
  stop = false;
  received = timed_out;
  waited_from = begun;
  attached_at = at;
  noted_at = at;
}

-- `microinit.json.tmp` is written and renamed.
abbrev dir_watch_fires_on_json_replace : Bool
dir_watch_fires_on_json_replace =
    let spec : WatchSpec = record {
      path = codes "/t";
      recursive = false;
      filter =
          any (codes "json" ∷ [])
            (codes "microinit.json"
              ∷ codes "microinit.services.enabled-override.json"
              ∷ codes "microinit.d"
              ∷ [])
            [];
    } in
    let turns =
      heard create (codes "/t/microinit.json.tmp") 150
      ∷ heard modify (codes "/t/microinit.json.tmp") 151
      ∷ heard modify (codes "/t/microinit.json") 152
      ∷ waited 152 202
      ∷ [] in
    let s = watch_loop dirs_watcher (spec ∷ []) 50 signal_sinks turns (codes "/t" ∷ []) in
    ltb 0 s.signals

-- The loop goes on from `s` in a system with these directories.
abbrev goes_on : List WatchSpec → List Turn → Dirs → WatchState Dirs → WatchState Dirs
goes_on specs turns dirs s =
    run_loop dirs_watcher specs 50 signal_sinks turns (record s { world = dirs })

-- The drop-ins appear, with a file that comes too early to be seen.
abbrev late_recursive_dir_attaches_and_fires_reload : Bool
late_recursive_dir_attaches_and_fires_reload =
    let filter : PathFilter =
      any (codes "json" ∷ []) (codes "microinit.json" ∷ codes "microinit.d" ∷ []) [] in
    let etc = codes "/t/etc" in
    let dropins = push (push etc (codes "microinit.d")) (codes "services") in
    let specs : List WatchSpec =
      (record { path = etc; recursive = false; filter = filter })
      ∷ (record { path = dropins; recursive = true; filter = filter })
      ∷ [] in
    let before = watch_loop dirs_watcher specs 50 signal_sinks (waited 0 150 ∷ []) (etc ∷ []) in
    let after =
      goes_on specs (waited 150 1150 ∷ waited 1150 1200 ∷ []) (dropins ∷ etc ∷ []) before in
    ltb before.signals after.signals

-- `blocked` is a file.
abbrev failed_recursive_spec_does_not_kill_file_watch : Bool
failed_recursive_spec_does_not_kill_file_watch =
    let config = codes "/t/cfg.json" in
    let specs : List WatchSpec =
      file config
      ∷ (record {
        path = codes "/t/blocked";
        recursive = true;
        filter = any (codes "json" ∷ []) [] [];
      })
      ∷ [] in
    let before =
      watch_loop dirs_watcher specs 50 signal_sinks (waited 0 150 ∷ []) (codes "/t" ∷ []) in
    let after =
      goes_on specs (heard modify config 150 ∷ waited 150 200 ∷ []) (codes "/t" ∷ []) before in
    ltb before.signals after.signals

dir_watch_passes : dir_watch_fires_on_json_replace ≡ true
unfolding watch_loop is_relevant any_path any_spec is_relevant_path file_name str_eq to_str
    is_junk_name starts_with ends_with attach_round any_suffix any_equal attach_pending attach_spec
    watch_dir_for fire_reload extension
dir_watch_passes = refl

late_recursive_passes : late_recursive_dir_attaches_and_fires_reload ≡ true
unfolding watch_loop run_loop attach_round attach_pending attach_spec str_eq watch_dir_for push
    fire_reload
late_recursive_passes = refl

failed_recursive_passes : failed_recursive_spec_does_not_kill_file_watch ≡ true
unfolding watch_loop run_loop file attach_round attach_pending attach_spec str_eq watch_dir_for
    parent is_relevant any_path any_spec is_relevant_path file_name to_str is_junk_name starts_with
    ends_with fire_reload
failed_recursive_passes = refl
