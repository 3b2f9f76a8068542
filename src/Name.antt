-- ===== src/Name.antt =====
-- pilatus/src/name: the names of recipes, devices and tags.
mod Defs
pub mod Check
pub mod Suggest
mod Tests
unfoldable pub use Defs.*
