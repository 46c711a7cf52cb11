-- ===== src/Frame/Display.antt =====
-- The texts of `FrameError` in ipc/frame.rs. Those of serde_json and of `io::Error` are parameters.
use rust_commons.Prelude.{ℕ, [], ◌++◌, Str, codes}
use rust_commons.Prelude.Decimal.{decimal_from}
use rust_commons.StdIo.{ErrorKind}
use rust_commons.Frame.{FrameError, too_large, unexpected_eof, json, io}

-- A `usize` has at most twenty digits.
abbrev pub decimal_usize : ℕ → Str
decimal_usize n = decimal_from 20 n []

-- `Display` of the errors that the crate only passes on.
pub record Texts (J : Type 0) : Type 0 where
  pub show_json : J → Str
  pub show_io : ErrorKind → Str

-- `Display` of `FrameError`
unfoldable pub show_frame_error : {J : Type 0} → Texts J → FrameError J → Str
show_frame_error t (too_large len max) =
    codes "frame length "
    ++ (decimal_usize len ++ (codes " too large (max " ++ (decimal_usize max ++ codes " bytes)")))
show_frame_error t (unexpected_eof read needed) =
    codes "connection closed: read "
    ++ (decimal_usize read ++ (codes " of " ++ (decimal_usize needed ++ codes " bytes")))
show_frame_error t (json e) = codes "json codec error: " ++ t.show_json e
show_frame_error t (io e) = codes "io error: " ++ t.show_io e
