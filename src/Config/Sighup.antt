-- ===== src/Config/Sighup.antt =====
-- config/sighup.rs: the flag that SIGHUP raises.
mod Examples
use rust_commons.Prelude.{
  ℕ, ◌≡◌, Bool, true, false, List, [], ◌∷◌, ◌++◌, Result, ok, err, Io, pure, then_run, ◌>>=◌, ◌>>◌,
}
use rust_commons.StdIo.{ErrorKind}

-- `signal_hook::flag::register`: `Flag` stands for the `Arc<AtomicBool>`, and `I` for the id of the
-- registration.
pub record SignalHook (W Flag I : Type 0) : Type 0 where
  pub register : (signal : ℕ) → Flag → Io W ErrorKind I

-- `signal_hook::consts::SIGHUP`
abbrev pub sighup : ℕ
sighup = 1

unfoldable pub install_sighup_flag :
    {W Flag I : Type 0} → SignalHook W Flag I → Flag → Io W ErrorKind (Unit {0})
install_sighup_flag hook flag = do hook.register sighup flag; pure tt
