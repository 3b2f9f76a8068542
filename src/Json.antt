-- ===== src/Json.antt =====
-- `serde_json::Value`, with the type of its numbers as a parameter.
mod Defs
mod Equality
unfoldable pub use Defs.*
unfoldable pub use Equality.*
