-- ===== src/Service.antt =====
-- service.ts: the object that `createIdentifold` returns. Reading identifiers is in Identify,
-- creating identities in Create.
pub mod Identify
pub mod Create
pub mod Agreement
