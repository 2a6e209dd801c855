-- ===== src/Reference/RoundTrip.antt =====
-- Reading what was written (reference.ts), and writing what was read.
pub mod Random
pub mod Sequential
