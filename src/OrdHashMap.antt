-- ===== src/OrdHashMap.antt =====
-- pilatus/src/recipe/ord_hash_map.rs: a hash map whose values carry their place in the order of
-- insertion, so that the order survives a JSON round trip.
mod Defs
pub mod Indices
pub mod Order
pub mod Lookup
mod Tests
unfoldable pub use Defs.*
