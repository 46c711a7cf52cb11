-- ===== src/Bind/Race.antt =====
-- Two processes inside `bind` of ipc/bind.rs at once, on a Unix system. `claim` looks at the path
-- and removes what stands there in two calls, and `bind` makes the socket in a third; other
-- processes may run in between.
use rust_commons.Prelude.{
  ℕ, Str, ◌≡◌, refl, sym, ap, ◌∙◌, none, some, Result, ok, err, Io, then_run, ◌>>=◌, ◌>>◌, with_err,
  arith, str_eq_refl,
}
use rust_commons.Bind.{
  Os, BindOptions, BindError, io_at, make_parent, probe, unlink_stale, or_close, set_up, claim,
  bind, is_stale_socket_connect_error, apply_socket_perms, chown_socket,
}
use rust_commons.Bind.World.{
  Call, connecting, removing, listening, reading_mode, setting_mode, setting_owner, World,
  kernel_with, as_process,
}
use rust_commons.FilePath.{FilePath}
use rust_commons.StdIo.{ErrorKind}
use rust_commons.Bind.Kernel.{live}
use rust_commons.Bind.Unix.{IsUnix, seen, same}
use rust_commons.Bind.Unix.Steps.{
  seen-then_run, seen-probe, seen-unlink_stale, seen-finish, seen-listen,
}
use rust_commons.Bind.Singleton.{answer, seen-answer}

module _ {W U L E : Type 0} (os : Os W U L E) where
  -- `bind` from the end of the probe on.
  abbrev pub after_probe : BindOptions → Io W BindError L
  after_probe opts = do
    unlink_stale os opts.path
    listener ← with_err (io_at opts.path) (os.listen opts.path)
    λ w. or_close os listener (set_up os opts w)

  then_run_assoc :
      {A B C : Type 0} (x : Result BindError A × W) (f : A → Io W BindError B)
      (g : B → Io W BindError C)
      → then_run (then_run x f) g ≡ then_run x (λ a w. then_run (f a w) g)
  then_run_assoc x f g = ground arith

  then_run_ext :
      {A B : Type 0} (x : Result BindError A × W) (f g : A → Io W BindError B)
      → ((a : A) (w : W) → f a w ≡ g a w)
      → then_run x f ≡ then_run x g
  then_run_ext (ok a, w) f g h = h a w
  then_run_ext (err e, w) f g h = refl

  -- A call of `bind` is `make_parent`, the probe, and the rest.
  pub bind_split :
      (opts : BindOptions) (w : W)
      → bind os opts w
        ≡ then_run
            (make_parent os opts.path w)
            (λ _ w₁. then_run (probe os opts.path opts.process_name w₁) (λ _. after_probe opts))
  unfolding bind claim
  bind_split opts w =
      then_run_ext (make_parent os opts.path w) _ _
        (λ _ w₁. then_run_assoc (probe os opts.path opts.process_name w₁) _ _)

  module _ (enter : ℕ → W → W) where
    -- The scheduler lets another process run.
    abbrev pub switch : ℕ → Io W BindError (Unit {0})
    switch pid w = (ok tt, enter pid w)

    abbrev pub probes : BindOptions → ℕ → Io W BindError (Unit {0})
    probes opts pid = switch pid >> probe os opts.path opts.process_name

    abbrev pub finishes : BindOptions → ℕ → Io W BindError L
    finishes opts pid = switch pid >> after_probe opts

    -- Process `a` and process `b` both probe; then `a` goes through `bind` to its end.
    abbrev pub a_binds : BindOptions → (a b : ℕ) → Io W BindError L
    a_binds opts a b = do probes opts a; probes opts b; finishes opts a

    -- Now `b` goes on, which still believes the path to be free.
    abbrev pub b_binds : BindOptions → (a b : ℕ) → Io W BindError L
    b_binds opts a b = do a_binds opts a b; finishes opts b

kernel_race :
    (display : FilePath → Str) (opts : BindOptions) (a b : ℕ) (w : World)
    → w.entries opts.path ≡ none
    → ((a_binds (kernel_with display (λ call. none)) as_process opts a b w).0 ≡ ok opts.path)
      × (live (
            (a_binds (kernel_with display (λ call. none)) as_process opts a b w).1.entries
              opts.path)
          ≡ some a)
      × ((b_binds (kernel_with display (λ call. none)) as_process opts a b w).0 ≡ ok opts.path)
      × (live (
            (b_binds (kernel_with display (λ call. none)) as_process opts a b w).1.entries
              opts.path)
          ≡ some b)
unfolding probe unlink_stale is_stale_socket_connect_error set_up apply_socket_perms chown_socket
kernel_race display opts a b w h = ground (arith, str_eq_refl opts.path)

module _ {W U L E : Type 0} (os : Os W U L E) (unix : IsUnix os) (opts : BindOptions)
    (grants : (call : Call) (w : W) → unix.refuses call opts.path w ≡ none) (a b : ℕ) where
  open unix use {view, place, enter, view_enter}

  abbrev lenient : Os World ℕ FilePath ErrorKind
  lenient = kernel_with os.display (λ call. none)

  seen-after_probe :
      (w : W) → seen place view (after_probe os opts w) ≡ after_probe lenient opts (view w)
  seen-after_probe w =
      seen-then_run same view place (unlink_stale os opts.path w) _ _ _
        (seen-unlink_stale os unix (λ call. none) opts.path w (grants removing w))
        (λ _.
          seen-then_run place view place
            (with_err (io_at opts.path) (os.listen opts.path) (unlink_stale os opts.path w).1) _ _ _
            (seen-listen os unix (λ call. none) opts.path (unlink_stale os opts.path w).1
              (grants listening (unlink_stale os opts.path w).1))
            (λ l.
              seen-finish os unix (λ call. none) opts l
                (os.listen opts.path (unlink_stale os opts.path w).1).1
                (record {
                  modes = grants reading_mode _;
                  mode_sets = grants setting_mode _;
                  owner_sets = grants setting_owner _;
                })))

  seen-probes :
      (pid : ℕ) (w : W)
      → seen same view (probes os enter opts pid w) ≡ probes lenient as_process opts pid (view w)
  seen-probes pid w =
      seen-probe os unix (λ call. none) opts.path opts.process_name (enter pid w)
        (grants connecting (enter pid w))
      ∙ ap (λ v. probe lenient opts.path opts.process_name v) (view_enter pid w)

  seen-finishes :
      (pid : ℕ) (w : W)
      → seen place view (finishes os enter opts pid w)
        ≡ finishes lenient as_process opts pid (view w)
  seen-finishes pid w =
      seen-after_probe (enter pid w) ∙ ap (λ v. after_probe lenient opts v) (view_enter pid w)

  seen-a_binds :
      (w : W)
      → seen place view (a_binds os enter opts a b w) ≡ a_binds lenient as_process opts a b (view w)
  seen-a_binds w =
      seen-then_run same view place (probes os enter opts a w) _ _
        (λ _. probes lenient as_process opts b >> finishes lenient as_process opts a)
        (seen-probes a w)
        (λ _.
          seen-then_run same view place (probes os enter opts b (probes os enter opts a w).1) _ _
            (λ _. finishes lenient as_process opts a) (seen-probes b (probes os enter opts a w).1)
            (λ _. seen-finishes a _))

  seen-b_binds :
      (w : W)
      → seen place view (b_binds os enter opts a b w) ≡ b_binds lenient as_process opts a b (view w)
  seen-b_binds w =
      seen-then_run place view place (a_binds os enter opts a b w) _ _
        (λ _. finishes lenient as_process opts b) (seen-a_binds w) (λ _. seen-finishes b _)

  -- On a Unix system that refuses the two processes no call at a path (in a directory that is there)
  -- at which nothing stands: the call of `bind` by `a` succeeds, and `a` serves the socket; then the
  -- call by `b`, which has probed before, removes that live socket, puts its own in the place, and
  -- succeeds as well.
  pub live_socket_stolen :
      (w : W)
      → (view w).entries opts.path ≡ none
      → (answer place (a_binds os enter opts a b w).0 ≡ ok opts.path)
        × (live ((view (a_binds os enter opts a b w).1).entries opts.path) ≡ some a)
        × (answer place (b_binds os enter opts a b w).0 ≡ ok opts.path)
        × (live ((view (b_binds os enter opts a b w).1).entries opts.path) ≡ some b)
  live_socket_stolen w h =
      let x = sym (seen-answer place view (a_binds os enter opts a b w)) ∙ seen-a_binds w in
      let y = sym (seen-answer place view (b_binds os enter opts a b w)) ∙ seen-b_binds w in
      let (p, q, r, s) = kernel_race os.display opts a b (view w) h in
      (
        ap (λ z. z.0) x ∙ p,
        ap (λ z. live (z.1.entries opts.path)) x ∙ q,
        ap (λ z. z.0) y ∙ r,
        ap (λ z. live (z.1.entries opts.path)) y ∙ s,
      )
