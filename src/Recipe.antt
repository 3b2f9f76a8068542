-- ===== src/Recipe.antt =====
-- pilatus/src/recipe: devices, recipes and the set of all recipes.
mod Config
mod Defs
mod Collection
pub mod Restore
pub mod Changes
pub mod Active
pub mod Steps
pub mod Unique
mod Tests
unfoldable pub use Config.*
unfoldable pub use Defs.*
unfoldable pub use Collection.*
