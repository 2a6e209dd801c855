-- ===== src/Lib.antt =====
-- identifold: identifiers of three kinds for one entity (a UUID of version 7, a TypeID, and a
-- reference for people), as written in packages/typescript/src.
--
-- The parts and the files that model them:
-- * Errors (errors.ts): the error codes; `Result` is what a function returns or throws. Messages
--   are left out. `BoundaryCode` is the error class of middleware.ts.
-- * Registry (registry.ts): a registry is the list of definitions and the two maps that its
--   closures capture; `register` is one round of the loop of `createNamespaceRegistry`.
--   Registry/WellFormed is the invariant, Registry/Creation and Registry/Lookup use it.
-- * Exchange (exchange.ts): a registry written out and read in.
-- * Reference (reference.ts): CheckSymbol the two check symbols, Hyphens the grouping, Decimal the
--   digits of a number, Format the writers and `createReferenceCandidate`, Parse the reader. The
--   other files under Reference hold proofs: Units tables over the alphabets, Locate the search for
--   the namespace, and those named for what they show.
-- * Machine (machine.ts) and Public (public.ts): what the program itself does around the packages
--   uuid and typeid-js, which are records of functions and come in as arguments. What the package
--   typeid-js documents is the record of laws `IsTypeIdLibrary`, a hypothesis where it is needed.
-- * Service (service.ts): Service/Identify has `parse`, `normalize`, `validate` and `inspect`,
--   Service/Create has `createIdentifold` and `create`. The store, the allocator, the clock, the
--   source of bytes and the source of machine identifiers are functions on a state of the world of
--   any type, which each call may change, also one that throws.
-- * Json (json.ts), Legacy (legacy.ts), Middleware (middleware.ts) and Resolver (resolver.ts): what
--   stands around the service, an identity for JSON, the plan to migrate an older identifier, the
--   parser for requests, and references resolved by a lookup.
-- * Storage (storage.ts): the contract of the storage adapters; its children Bytes and Sequential are
--   the encodings of sql-storage.ts, Values what an adapter sees of a value of type `unknown`, and
--   BigInt the conversion of a text by `BigInt`.
-- * Database (database.ts) with Database/Postgres (postgres.ts), Database/Prisma (prisma.ts) and
--   Database/Drizzle (drizzle.ts): the three functions of an adapter over a function that runs a
--   statement. Mysql (mysql.ts): the same over a MySQL client, with the retries of an allocation.
--   The clients are arguments, functions that act on a state of the world and may throw anything.
-- * Sqlite (sqlite.ts): an allocation is a transaction of up to eight calls. The database is
--   an argument. Sqlite/Laws is what SQLite documents of transactions and of these statements, over
--   the tables of Sqlite/Tables (integrations/sqlite/migrations): each call may fail, and then has
--   no effect, or SQLite has rolled the transaction back; a session counts the calls that have
--   failed, so that a theorem can say that none has. One connection is modelled: while an
--   allocation runs, nobody else writes, as `BEGIN IMMEDIATE` ensures once it has succeeded.
--   Sqlite/Specification is an allocation as one step on the tables, Sqlite/Refinement compares the
--   two, Sqlite/Sound is the invariant of the tables, and Sqlite/Lookup specifies a lookup.
--   Sqlite/Safety, Sqlite/Resolution and Sqlite/Reservation put these together. Sqlite/Nested is about
--   an allocation in a transaction of the caller.
-- * Adapters (database.ts, mysql.ts, sqlite.ts): what the adapters have in common.
-- * Cli (cli.ts): the options, the commands and their exit codes, over a platform that reads files,
--   makes machine identifiers and runs the conformance suite. Zod (zod.ts), OpenApi (openapi.ts) and
--   Observability (observability.ts): schemas, the lists of an OpenAPI document, and log fields.
-- * Prelude and its children: shared names, lists measured by native numbers, texts and maps.
-- * Samples and Tests: a concrete registry, concrete packages, and runs on them.
--
-- A text is the list of its UTF-16 code units. Upper and lower case are those of the ASCII letters;
-- where a text may hold other letters, the file says why this makes no difference, or, for the
-- lookup by a reference prefix in Registry, names the other letters. Sequence numbers
-- are integers of any size, as `bigint` is. Loops are recursion on the list or number they go
-- through; only `decimal_digits` takes fuel, one more than the number, which is more than it has
-- digits; the retries over MySQL are recursion on the rounds that are left, of which the source
-- has five. An object that the source freezes is a value here.
--
-- Not modelled: the default sources (`createMachineId`, `secureRandomBytes`, `new Date()`), which
-- only call a package or the platform; what the SQL functions and procedures of the PostgreSQL and
-- MySQL migrations do; the constant parts of an OpenAPI document and the printing of JSON; and the
-- ports to other languages.
pub mod Prelude
pub mod Errors
pub mod Registry
pub mod Exchange
pub mod Reference
pub mod Machine
pub mod Public
pub mod Service
pub mod Json
pub mod Legacy
pub mod Middleware
pub mod Resolver
pub mod Storage
pub mod Database
pub mod Mysql
pub mod Sqlite
pub mod Adapters
pub mod Cli
pub mod Zod
pub mod Observability
pub mod OpenApi
pub mod Samples
pub mod Tests
