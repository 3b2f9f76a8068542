-- ===== src/Import.antt =====
-- pilatus-rt/src/recipe/import: how the recipes of a file are added to those that are there.
mod Defs
mod Merge
mod Apply
pub mod Duplicates
pub mod Untouched
pub mod Whole
pub mod Added
pub mod Blocked
mod Tests
unfoldable pub use Defs.*
