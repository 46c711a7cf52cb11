-- ===== src/Bind/Display.antt =====
-- The texts of `BindError` in ipc/bind.rs: what the second instance of a daemon tells.
use rust_commons.Prelude.{
  ℕ, ◌^◌, ◌<◌, ◌≡◌, refl, false, [], ◌++◌, err, Str, codes, arith, ◌==◌, none, some,
}
use rust_commons.Prelude.Decimal.{number_from, decimal_from-number}
use rust_commons.StdIo.{ErrorKind}
use rust_commons.FilePath.{FilePath}
use rust_commons.Bind.World.{connecting, making_dir}
use rust_commons.Bind.Kernel.{live, running}
use rust_commons.Bind.Unix.{IsUnix}
use rust_commons.Bind.Unix.Calls.{refusals}
use rust_commons.Bind.Singleton.{bind_told, answer-eq-err}
use rust_commons.Bind.{
  Os, BindOptions, bind, BindError, already_running, io_at, decimal, location_of,
}

-- `Display` of `BindError`; `show_io` is that of `io::Error`, and `display` is `Path::display`.
unfoldable pub show_error : (ErrorKind → Str) → (display : FilePath → Str) → BindError → Str
show_error show_io display (already_running process_name location path pid) =
    process_name ++ (codes " already running at " ++ location)
show_error show_io display (io_at path source) =
    codes "I/O error on " ++ (display path ++ (codes ": " ++ show_io source))

-- Ten digits are enough for a `u32`.
pub decimal-number : (n : ℕ) → n < 2 ^ 32 → number_from 0 (decimal n) ≡ n
unfolding decimal number_from
decimal-number n h = decimal_from-number 9 n [] (omega arith)

module _ {W U L E : Type 0} (os : Os W U L E) (unix : IsUnix os) (show_io : ErrorKind → Str) where
  open unix use {view, place}

  -- On a Unix system, a second instance on a path that a process serves, to which it may connect in
  -- a directory that is there, with a pid of that process that the system tells and a `u32` holds,
  -- fails with a text that names the daemon, the path as it is displayed, and that process: its pid
  -- is read from the digits, of which there are enough.
  pub refusal_text :
      (opts : BindOptions) (w : W) (pid : ℕ)
      → live ((view w).entries opts.path) ≡ some pid
      → refusals os unix opts w making_dir ≡ none
      → refusals os unix opts w connecting ≡ none
      → 0 < pid
      → pid < 2 ^ 32
      → (e : BindError) × (digits : Str) × (((bind os opts w).0 ≡ err e)
          × (show_error show_io os.display e
              ≡ opts.process_name
                ++ (codes " already running at "
                    ++ (os.display opts.path ++ (codes " (pid " ++ (digits ++ codes ")")))))
          × (number_from 0 digits ≡ pid))
  unfolding show_error location_of
  refusal_text opts w pid served made granted told fits =
      let r = bind_told os unix opts w pid served made granted in
      let other_than_zero : (pid == 0) ≡ false = ground arith in
      (
        running os.display opts pid,
        decimal pid,
        (
          answer-eq-err place (bind os opts w).0 _ r,
          rw other_than_zero refl,
          decimal-number pid fits,
        ),
      )
