-- ===== src/StdIo.antt =====
-- What the crate uses of `std::io`: error kinds, and the traits `Read` and `Write` as records of
-- operations that pass the state of the stream on. `Delivers` and `Appends` are the documented
-- contracts of the two traits; the generic theorems about framing take them as parameters.
mod Defs
pub mod Duplex
pub mod Memory
pub use Defs.*
