-- ===== src/HotReload/Saved/Examples.antt =====
-- A save of `/etc/a.json`, in a system that is the text of that file; a configuration is a text that
-- begins with a brace.
use rust_commons.Prelude.{
  ℕ, ◌+◌, ◌≤◌, ◌≡◌, refl, true, false, none, some, [], ◌∷◌, ◌++◌, ok, err, Str, codes, arith,
  starts_with, ends_with, str_eq, if◌then◌else◌,
}
use rust_commons.FilePath.{to_str, slash, push}
use rust_commons.FilePath.Laws.{IsName}
use rust_commons.Config.{new, snapshot}
use rust_commons.Config.JsonFile.{Fs, Serde, JsonFile, create_file, json_load}
use rust_commons.Watch.{file, is_junk_name}
use rust_commons.Watch.Attach.{Watcher}
use rust_commons.Watch.Attach.Settled.{nothing, also}
use rust_commons.Watch.Loop.{event, timed_out, modify, Turn, timeout_of, default_debounce}
use rust_commons.HotReload.{Hot, turns, edits, run_steps}
use rust_commons.HotReload.Edits.{reload}
use rust_commons.HotReload.Saved.{parsed_or, save_goes_live}

abbrev disk : Watcher Str ℕ
disk = record {
  is_dir = λ p w. true;
  create_dir_all = λ p w. (ok tt, w);
  watch = λ p recursive w. (ok tt, w);
}

abbrev one_file : Fs Str
one_file = record {
  read_to_string = λ p w. (ok w, w);
  create_dir_all = λ p w. (ok tt, w);
  write = λ p text w. (ok tt, text);
}

abbrev braces : Serde ℕ Str
braces = record {
  from_str = λ text. if starts_with text (codes "{") then ok text else err 1;
  to_string_pretty = λ value. ok value;
  default = codes "{}";
}

abbrev config : JsonFile
config = record { path = push (codes "/etc") (codes "a.json"); seed = create_file }

config_IsName : IsName (codes "a.json")
unfolding str_eq
config_IsName = record { one_piece = refl; filled = refl; not_here = refl; not_above = refl }

name_text : to_str (codes "a.json") ≡ some (codes "a.json")
unfolding to_str
name_text = refl

name_kept : is_junk_name (codes "a.json") ≡ false
unfolding is_junk_name starts_with ends_with str_eq
name_kept = refl

abbrev reported : Turn
reported = record {
  stop = false;
  received = event modify ((codes "/etc" ++ slash ∷ codes "a.json") ∷ []);
  waited_from = 900;
  attached_at = 1000;
  noted_at = 1000;
}

abbrev expiry : Turn
expiry = record {
  stop = false;
  received = timed_out;
  waited_from = 1100;
  attached_at = 1300;
  noted_at = 1301;
}

waited : 1100 + timeout_of default_debounce 1100 (some 1000) ≤ 1301
unfolding timeout_of
waited = omega arith

abbrev at_rest : Hot Str Str
at_rest = record {
  watch = record {
    attached = true ∷ [];
    pending = none;
    world = codes "{1}";
    signals = 0;
    callbacks = 4;
    ended = false;
  };
  live = new (codes "{1}");
}

save_goes_live_example :
    let h' =
      run_steps disk
        (file (push (codes "/etc") (codes "a.json")) ∷ [])
        default_debounce
        (reload (json_load one_file braces config))
        (edits (codes "{2}") ∷ turns reported ∷ turns expiry ∷ [])
        at_rest in
    (snapshot h'.live ≡ parsed_or braces (snapshot at_rest.live) (codes "{2}"))
    × (h'.watch.pending ≡ none)
    × (h'.watch.callbacks ≡ 4 + 1)
save_goes_live_example =
    save_goes_live (codes "/etc") (codes "a.json") refl config_IsName name_text name_kept disk
      one_file braces config default_debounce (codes "{2}") (codes "{2}") (codes "/etc") modify []
      reported expiry at_rest refl refl refl refl refl refl refl (omega arith) waited refl
      (also nothing)
