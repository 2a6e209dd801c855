-- ===== src/Machine.antt =====
-- machine.ts: machine identifiers. The functions `validate` and `version` of the package uuid are
-- arguments. Lower case is that of the ASCII letters: no other code unit has a lower case that can
-- stand in a UUID, so a text that holds one is refused either way.
pub mod Defs
mod Laws
pub use Laws.*
