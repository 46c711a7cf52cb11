-- ===== src/Command/Display.antt =====
-- The texts of `IpcError` (ipc/server.rs) and of `DuplicateCommand` (ipc/command.rs).
use rust_commons.Prelude.{◌++◌, Str, codes}
use rust_commons.Frame.Display.{Texts, show_frame_error}
use rust_commons.Command.{IpcError, frame, other, hangup, DuplicateCommand}

-- `Display` of `IpcError`
unfoldable pub show_ipc_error : {J : Type 0} → Texts J → IpcError J → Str
unfolding show_frame_error
show_ipc_error t (frame e) = show_frame_error t e
show_ipc_error t (other message) = message
show_ipc_error t hangup = codes "session closed"

-- `Display` of `DuplicateCommand`
unfoldable pub show_duplicate : DuplicateCommand → Str
show_duplicate e = codes "duplicate IPC command " ++ e.name
