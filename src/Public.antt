-- ===== src/Public.antt =====
-- public.ts: public identifiers. The functions of the package typeid-js are arguments.
pub mod Defs
pub mod RoundTrip
