-- ===== src/Watch/Loop/Examples.antt =====
-- Tests of the loop of config/watch.rs and its theorems: a directory that appears late, a burst of
-- changes, and the quiet after it.
use rust_commons.Prelude.{
  ◌+◌, ◌<◌, ◌≤◌, ◌≡◌, refl, Bool, true, false, none, some, List, [], ◌∷◌, codes, str_eq,
  starts_with, ends_with, arith,
}
use rust_commons.FilePath.{file_name, extension, to_str}
use rust_commons.Watch.{WatchSpec, dir, is_junk_name, any_suffix, any_equal, is_relevant_path}
use rust_commons.Watch.Attach.{attach_spec, attach_pending}
use rust_commons.Watch.Loop.{
  event, timed_out, modify, Turn, signal_sinks, WatchState, timeout_of, attach_round, fire_reload,
  turn, begin, watch_loop, default_debounce, any_path, any_spec, is_relevant, run_loop,
}
use rust_commons.Watch.Attach.Settled.{AllAttached, Settled, no_specs, attached, failing}
use rust_commons.Watch.Loop.Burst.{Burst, change, noise, quiet, changes_fire_once}
use rust_commons.Watch.Loop.Late.{IsWatchable, AllDirs, late_dirs_announced}
use rust_commons.Watch.Loop.Debounce.{all_changes, watch_loop-le-changes, announced}
use rust_commons.Watch.Examples.{late, two_specs}

-- Nothing can be attached; a change was noted at 1000.
abbrev changed : WatchState Bool
changed = record {
  attached = false ∷ false ∷ [];
  pending = some 1000;
  world = false;
  signals = 4;
  callbacks = 0;
  ended = false;
}

abbrev expiry : Turn
expiry = record {
  stop = false;
  received = timed_out;
  waited_from = 1100;
  attached_at = 1300;
  noted_at = 1301;
}

waited : 1100 + timeout_of default_debounce 1100 (some 1000) ≤ 1301
unfolding timeout_of
waited = omega arith

no_news : (attach_pending late two_specs changed.attached changed.world).newly ≡ false
unfolding attach_pending attach_spec dir str_eq
no_news = refl

announces :
    announced late two_specs default_debounce signal_sinks changed
    < announced late two_specs default_debounce signal_sinks
        (turn late two_specs default_debounce signal_sinks expiry changed)
unfolding turn attach_round fire_reload attach_pending attach_spec dir str_eq
announces = omega arith

abbrev saved : Turn
saved = record expiry { received = event modify (codes "/x/a.json" ∷ []); noted_at = 1000 }

watch_loop-le-changes_example :
    ((watch_loop late two_specs default_debounce signal_sinks (saved ∷ expiry ∷ []) true).signals
      ≤ all_changes late two_specs default_debounce signal_sinks
          (saved ∷ expiry ∷ [])
          (begin late two_specs default_debounce signal_sinks true))
    × ((watch_loop late two_specs default_debounce signal_sinks
          (saved ∷ expiry ∷ [])
          true).callbacks
        ≤ all_changes late two_specs default_debounce signal_sinks
            (saved ∷ expiry ∷ [])
            (begin late two_specs default_debounce signal_sinks true))
watch_loop-le-changes_example =
    watch_loop-le-changes late two_specs default_debounce signal_sinks (saved ∷ expiry ∷ []) true

-- `/x` is attached, and `/y` is not there.
abbrev watching : WatchState Bool
watching = record changed { attached = false ∷ true ∷ []; pending = none; world = true }

abbrev XIsThere : Bool → Type 0
XIsThere w = w ≡ true

y_fails :
    (w : Bool)
    → XIsThere w
    → ((attach_spec late (dir (codes "/y") true) w).0 ≡ false)
      × XIsThere (attach_spec late (dir (codes "/y") true) w).1
unfolding attach_spec dir str_eq
y_fails w h = (refl, h)

only_y_missing : Settled late XIsThere two_specs (false ∷ true ∷ [])
only_y_missing = failing y_fails (attached no_specs)

abbrev swap_file : Turn
swap_file = record expiry { received = event modify (codes "/x/.a.swp" ∷ []); noted_at = 1050 }

saved_is_relevant : is_relevant two_specs modify (codes "/x/a.json" ∷ []) ≡ true
unfolding is_relevant any_path any_spec dir is_relevant_path file_name extension to_str is_junk_name
    starts_with ends_with str_eq any_suffix any_equal
saved_is_relevant = refl

swap_is_not : is_relevant two_specs modify (codes "/x/.a.swp" ∷ []) ≡ false
unfolding is_relevant any_path any_spec dir is_relevant_path file_name extension to_str is_junk_name
    starts_with ends_with str_eq any_suffix any_equal
swap_is_not = refl

a-Burst : Burst late two_specs default_debounce signal_sinks none (saved ∷ swap_file ∷ expiry ∷ [])
a-Burst = change modify (codes "/x/a.json" ∷ []) refl refl saved_is_relevant (
    noise modify (codes "/x/.a.swp" ∷ []) refl refl swap_is_not
      (quiet 1000 refl refl (omega arith) waited))

changes_fire_once_example :
    ((run_loop late two_specs default_debounce signal_sinks
        (saved ∷ swap_file ∷ expiry ∷ [])
        watching).pending
      ≡ none)
    × ((run_loop late two_specs default_debounce signal_sinks
          (saved ∷ swap_file ∷ expiry ∷ [])
          watching).signals
        ≡ 4 + 1)
    × ((run_loop late two_specs default_debounce signal_sinks
          (saved ∷ swap_file ∷ expiry ∷ [])
          watching).callbacks
        ≡ 0 + 0)
changes_fire_once_example =
    changes_fire_once late two_specs default_debounce signal_sinks XIsThere
      (saved ∷ swap_file ∷ expiry ∷ []) watching refl only_y_missing refl a-Burst

late_watchable : IsWatchable late
late_watchable = record { watch_ok = λ p r w h. refl; watch_still = λ p q r w. refl }

-- `/x` has come into being while nothing was attached.
abbrev appeared : WatchState Bool
appeared = record changed { attached = false ∷ []; pending = none; world = true }

abbrev poll : Turn
poll = record expiry { waited_from = 0; attached_at = 1000; noted_at = 1001 }

abbrev drop_in : List WatchSpec
drop_in = dir (codes "/x") true ∷ []

drop_in_there : AllDirs late drop_in true
unfolding dir str_eq
drop_in_there = (refl, tt)

late_dirs_announced_example :
    AllAttached (turn late drop_in default_debounce signal_sinks poll appeared).attached
    × ((run_loop late drop_in default_debounce signal_sinks (poll ∷ expiry ∷ []) appeared).pending
        ≡ none)
    × ((run_loop late drop_in default_debounce signal_sinks (poll ∷ expiry ∷ []) appeared).signals
        ≡ 4 + 1)
    × ((run_loop late drop_in default_debounce signal_sinks (poll ∷ expiry ∷ []) appeared).callbacks
        ≡ 0 + 0)
late_dirs_announced_example =
    late_dirs_announced late late_watchable drop_in default_debounce signal_sinks poll (expiry ∷ [])
      appeared refl refl refl drop_in_there refl refl (omega arith) (omega arith)
      (quiet 1000 refl refl (omega arith) waited)
