-- ===== src/Bind/UnitTests.antt =====
-- The tests of ipc/server.rs about binding, on the small system.
use rust_commons.Prelude.{
  ◌≡◌, refl, Bool, true, false, ◌&&◌, ◌||◌, none, [], ◌∷◌, Result, ok, err, Str, codes, str_eq,
  starts_with,
}
use rust_commons.FilePath.{FilePath, parent}
use rust_commons.Bind.{
  BindOptions, BindError, already_running, bind, claim, probe, unlink_stale,
  is_stale_socket_connect_error, make_parent, set_up, apply_socket_perms, location_of, decimal,
}
use rust_commons.Bind.World.{World, kernel}
use rust_commons.Bind.Display.{show_error}

abbrev empty_dir : World
empty_dir = record { entries = λ p. none; pid = 10 }

abbrev options_at : FilePath → BindOptions
options_at sock = record {
  path = sock;
  mode = 0o600;
  chown = none;
  process_name = codes "bigfred-shared-daemon-test";
}

abbrev is_bound : Result BindError FilePath → Bool
is_bound (ok listener) = true
is_bound (err e) = false

abbrev contains : Str → Str → Bool
contains [] p = starts_with [] p
contains (c ∷ s) p = starts_with (c ∷ s) p || contains s p

abbrev refused_as_running : Result BindError FilePath → Bool
refused_as_running (err (already_running name location path pid)) =
    contains (show_error (λ e. codes "") kernel.display (already_running name location path pid))
      (codes "already running")
refused_as_running _ = false

-- Two calls of `bind` on one path, both listeners in scope.
abbrev singleton_refuses_second_bind : Bool
singleton_refuses_second_bind =
    let opts = options_at (codes "/t/live.sock") in
    let (first, w) = bind kernel opts empty_dir in
    is_bound first && refused_as_running (bind kernel opts w).0

-- The first listener is dropped.
abbrev stale_socket_file_is_replaced : Bool
stale_socket_file_is_replaced =
    let opts = options_at (codes "/t/stale.sock") in
    let (first, w) = bind kernel opts empty_dir in
    is_bound first && is_bound (bind kernel opts (kernel.close opts.path w)).0

singleton_passes : singleton_refuses_second_bind ≡ true
unfolding bind claim probe is_stale_socket_connect_error parent str_eq starts_with location_of
    decimal show_error make_parent unlink_stale set_up apply_socket_perms
singleton_passes = refl

stale_socket_passes : stale_socket_file_is_replaced ≡ true
unfolding bind claim probe is_stale_socket_connect_error parent str_eq make_parent unlink_stale
    set_up apply_socket_perms
stale_socket_passes = refl
