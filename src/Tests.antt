-- ===== src/Tests.antt =====
-- Tests, and one concrete use of each theorem, on the values of Samples.
mod References
mod Symbols
mod Registries
mod Identifiers
mod Services
mod Databases
mod Sqlite
mod Clients
mod Behaviour
mod Boundaries
