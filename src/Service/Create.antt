-- ===== src/Service/Create.antt =====
-- `createIdentifold` and `create` of service.ts. What the service calls (the source of machine
-- identifiers, the clock, the source of bytes, the store, the allocator) are functions on a state
-- of the world `W`, which they may change; a call that throws may change it too. The options for
-- which the source has a default (`createMachineId`, `new Date()`, `secureRandomBytes`) are given.
pub mod Defs
pub mod Reserved
pub mod Bounded
pub mod Allocated
