-- ===== src/Reference.antt =====
-- reference.ts: human references. Check symbols, hyphens, writing, reading, and what ties them
-- together.
pub mod CheckSymbol
pub mod Hyphens
pub mod Decimal
pub mod Format
pub mod Parse
pub mod Units
pub mod Locate
pub mod RoundTrip
pub mod Candidate
pub mod Sequence
pub mod Overflow
mod Parts
pub mod Canonical
