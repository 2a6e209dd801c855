-- ===== src/Exchange.antt =====
-- exchange.ts: writing a registry out for exchange and reading one in.
pub mod Defs
mod RoundTrip
pub use RoundTrip.{import_registry-export_registry}
