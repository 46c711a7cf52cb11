-- ===== src/HotReload/Saved.antt =====
-- A daemon that watches its one configuration file with `WatchSpec::file` of config/watch.rs, and
-- reloads it with `JsonFile` of config/json.rs and `try_reload` of config/mod.rs: a save goes live.
mod Examples
use rust_commons.Prelude.{
  ℕ, ◌+◌, ◌≤◌, ◌≡◌, refl, ap, ◌∙◌, Bool, true, false, ◌&&◌, ◌||◌, Option, none, some, List, [], ◌∷◌,
  ◌++◌, Result, ok, err, Str, str_eq, str_eq_refl, map_err, arith, if◌then◌else◌,
}
use rust_commons.StdIo.{ErrorKind}
use rust_commons.FilePath.{FilePath, push, needs_slash, to_str, slash}
use rust_commons.FilePath.Laws.{IsName}
use rust_commons.Config.{ConfigError, json, snapshot}
use rust_commons.Config.Reload.{value_after}
use rust_commons.Config.JsonFile.{Fs, Serde, JsonFile, after_read, load, json_load}
use rust_commons.Watch.{WatchSpec, file, is_junk_name, is_relevant_path}
use rust_commons.Watch.Relevant.{is_relevant_path-file}
use rust_commons.Watch.Attach.{Watcher}
use rust_commons.Watch.Attach.Settled.{AllAttached}
use rust_commons.Watch.Loop.{
  EventKind, event, timed_out, Turn, timeout_of, is_change, is_relevant, any_path, any_spec,
}
use rust_commons.HotReload.{Hot, Step, turns, edits, run_steps}
use rust_commons.HotReload.Edits.{Editing, edit, change, quiet, last_edit, reload, edits_go_live}

-- The value of a text, or the one before it.
abbrev pub parsed_or : {J T : Type 0} → Serde J T → T → Str → T
parsed_or serde old text = elim (serde.from_str text) [ ok value ↦ value | err e ↦ old ]

module _ (dir : FilePath) (name : Str) (rooted : needs_slash dir ≡ true) (one : IsName name)
    (text_of_name : to_str name ≡ some name) (kept : is_junk_name name ≡ false) where
  -- An event at the file is relevant to a watch for it.
  file_event_relevant :
      (seen_in : FilePath) (kind : EventKind) (paths : List FilePath)
      → is_change kind ≡ true
      → is_relevant (file (push dir name) ∷ []) kind ((seen_in ++ slash ∷ name) ∷ paths) ≡ true
  unfolding is_relevant any_path any_spec
  file_event_relevant seen_in kind paths e =
      let seen : is_relevant_path (seen_in ++ slash ∷ name) (file (push dir name)).filter ≡ true =
        is_relevant_path-file dir seen_in name name rooted one one text_of_name text_of_name
        ∙ ap (λ b. if b then false else str_eq name name) kept
        ∙ str_eq_refl name in
      rw (e, seen) refl

  module _ {W E J T : Type 0} (watcher : Watcher W E) (fs : Fs W) (serde : Serde J T)
      (config : JsonFile) (debounce : ℕ) where
    loaded_text :
        (old : T) (x : Result ErrorKind Str × W) (text : Str)
        → x.0 ≡ ok text
        → value_after (json_load fs serde config) old (after_read fs serde config x).0
          ≡ parsed_or serde old text
    loaded_text old (err e, w) text h = cc
    loaded_text old (ok t, w) text h = let same : t ≡ text = cc in rw same (ground arith)

    -- The configuration file of a daemon has a name that is one component, valid UTF-8 and no
    -- editor's leftover, in a directory with no slash at its end; the daemon watches it with
    -- `WatchSpec::file`, its loop has not ended, its watch is in place, and its callback is
    -- `try_reload` of the `JsonFile` at that path, whatever its seed. Someone saves the file, in
    -- one step; a change at its name is reported, and then the loop waits as long as it asks to.
    -- Behind that time-out the live value is the one that serde_json reads from the new text, or,
    -- if the text is no JSON of its type, the value that was live before; there was one reload, and
    -- no change is pending.
    pub save_goes_live :
        (saved : W) (text : Str) (seen_in : FilePath) (kind : EventKind) (paths : List FilePath)
        (t t' : Turn) (h : Hot W T)
        → config.path ≡ push dir name
        → (fs.read_to_string (push dir name) saved).0 ≡ ok text
        → is_change kind ≡ true
        → t.stop ≡ false
        → t.received ≡ event kind ((seen_in ++ slash ∷ name) ∷ paths)
        → t'.stop ≡ false
        → t'.received ≡ timed_out
        → t.noted_at ≤ t'.waited_from
        → t'.waited_from + timeout_of debounce t'.waited_from (some t.noted_at) ≤ t'.noted_at
        → h.watch.ended ≡ false
        → AllAttached h.watch.attached
        → let h' =
            run_steps watcher
              (file (push dir name) ∷ [])
              debounce
              (reload (json_load fs serde config))
              (edits saved ∷ turns t ∷ turns t' ∷ [])
              h in
          (snapshot h'.live ≡ parsed_or serde (snapshot h.live) text)
          × (h'.watch.pending ≡ none)
          × (h'.watch.callbacks ≡ h.watch.callbacks + 1)
    unfolding last_edit load
    save_goes_live saved text seen_in kind paths t t' h at_path read changed go r go' r' order
          waited on all =
        let (live, settled, once) =
          edits_go_live watcher (file (push dir name) ∷ []) debounce (json_load fs serde config)
            (edits saved ∷ turns t ∷ turns t' ∷ []) h on all
            (edit saved (
              change kind ((seen_in ++ slash ∷ name) ∷ paths) go r
                (file_event_relevant seen_in kind paths changed)
                (quiet t.noted_at go' r' order waited))) in
        (
          live
              ∙ loaded_text (snapshot h.live) (fs.read_to_string config.path saved) text
                  (rw at_path read),
          settled,
          once,
        )
