-- ===== src/Bind/Unix/Calls.antt =====
-- `bind` of ipc/bind.rs on any Unix system, and what that system refuses in the course of one call.
use rust_commons.Prelude.{◌≡◌, refl, ap, ◌∙◌, Option, Result, ok, err, with_err}
use rust_commons.StdIo.{ErrorKind}
use rust_commons.FilePath.{parent}
use rust_commons.Bind.{Os, BindOptions, probe, claim, make_parent, apply_socket_perms, bind, io_at}
use rust_commons.Bind.World.{
  Call, connecting, removing, making_dir, listening, reading_mode, setting_mode, setting_owner,
  World, kernel_with,
}
use rust_commons.Bind.Kernel.{make_dir_keeps}
use rust_commons.Bind.Unix.{seen, same, IsUnix}
use rust_commons.Bind.Unix.Steps.{
  dir_of, seen-then_run, seen-probe, seen-unlink_stale, seen-make_dir, seen-listen, seen-finish,
}

-- What the system refuses in the course of one call of `bind`, each call in the state that it is
-- made in.
module _ {W U L E : Type 0} (os : Os W U L E) (unix : IsUnix os) (opts : BindOptions) (w : W) where
  open unix use {view, refuses, place}

  abbrev w₁ : W
  w₁ = (make_parent os opts.path w).1

  abbrev w₂ : W
  w₂ = (claim os opts.path opts.process_name w₁).1

  abbrev w₃ : W
  w₃ = (os.listen opts.path w₂).1

  abbrev pub refusals : Call → Option ErrorKind
  refusals making_dir = refuses making_dir (dir_of (parent opts.path)) w
  refusals connecting = refuses connecting opts.path w₁
  refusals removing = refuses removing opts.path (probe os opts.path opts.process_name w₁).1
  refusals listening = refuses listening opts.path w₂
  refusals reading_mode = refuses reading_mode opts.path w₃
  refusals setting_mode = refuses setting_mode opts.path (os.permissions opts.path w₃).1
  refusals setting_owner =
      refuses setting_owner opts.path (apply_socket_perms os opts.path opts.mode w₃).1

  -- `bind` on any Unix system looks from outside as it does on `kernel_with` with these refusals.
  pub seen-bind :
      seen place view (bind os opts w) ≡ bind (kernel_with os.display refusals) opts (view w)
  unfolding bind make_parent claim
  seen-bind =
      seen-then_run same view place (make_parent os opts.path w) _ _ _
        (seen-make_dir os unix refusals (parent opts.path) w refl)
        (λ u.
          seen-then_run same view place (claim os opts.path opts.process_name w₁) _ _ _
            (seen-then_run same view same (probe os opts.path opts.process_name w₁) _ _ _
              (seen-probe os unix refusals opts.path opts.process_name w₁ refl)
              (λ u'.
                seen-unlink_stale os unix refusals opts.path
                  (probe os opts.path opts.process_name w₁).1 refl))
            (λ u'.
              seen-then_run place view place (with_err (io_at opts.path) (os.listen opts.path) w₂) _
                _ _ (seen-listen os unix refusals opts.path w₂ refl)
                (λ l.
                  seen-finish os unix refusals opts l w₃
                    (record { modes = refl; mode_sets = refl; owner_sets = refl }))))

  pub seen-state :
      {X A B : Type 0} (f : A → B) (x : Result X A × W) (y : Result X B × World)
      → seen f view x ≡ y
      → view x.1 ≡ y.1
  seen-state f (ok a, w) y h = ap (λ z. z.1) h
  seen-state f (err e, w) y h = ap (λ z. z.1) h

  -- At the call of `connect`, the files are what they were.
  pub view-make_parent : view w₁ ≡ view w
  unfolding make_parent
  view-make_parent =
      seen-state same (make_parent os opts.path w) _
        (seen-make_dir os unix refusals (parent opts.path) w refl)
      ∙ make_dir_keeps os.display refusals (parent opts.path) (view w)
