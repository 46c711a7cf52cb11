-- ===== src/Watch/Start/Examples.antt =====
-- Tests of the start of a watch in config/watch.rs.
use rust_commons.Prelude.{◌≡◌, refl, Bool, true, ok, Str, codes}
use rust_commons.StdIo.{ErrorKind, ThreadBuilder}
use rust_commons.Watch.Loop.{signal_sinks, callback_sinks, default_debounce}
use rust_commons.Watch.Start.{Watching, spawn_signal, spawn_callback}
use rust_commons.Watch.Examples.{two_specs}

abbrev threads : ThreadBuilder Bool
threads = record { spawn = λ name w. (ok tt, w) }

abbrev show_kind : ErrorKind → Str
show_kind e = codes "no thread"

abbrev signal_watch : Watching
signal_watch = record { specs = two_specs; debounce = default_debounce; sinks = signal_sinks }

abbrev callback_watch : Watching
callback_watch = record { specs = two_specs; debounce = default_debounce; sinks = callback_sinks }

signal_started :
    spawn_signal {J = Bool} threads show_kind two_specs default_debounce true
    ≡ (ok signal_watch, true)
unfolding spawn_signal
signal_started = refl

callback_started :
    spawn_callback {J = Bool} threads show_kind two_specs default_debounce true
    ≡ (ok callback_watch, true)
unfolding spawn_callback
callback_started = refl
