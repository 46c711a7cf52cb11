-- ===== src/Config/Display.antt =====
-- The texts of `ConfigError` in config/mod.rs.
use rust_commons.Prelude.{◌++◌, Str, codes}
use rust_commons.Frame.Display.{Texts}
use rust_commons.Config.{ConfigError, io_at, json, other}

-- `Display` of `ConfigError`
unfoldable pub show_config_error : {J : Type 0} → Texts J → ConfigError J → Str
show_config_error t (io_at path source) =
    codes "I/O error on " ++ (path ++ (codes ": " ++ t.show_io source))
show_config_error t (json e) = codes "JSON error: " ++ t.show_json e
show_config_error t (other message) = message
