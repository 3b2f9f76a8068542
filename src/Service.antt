-- ===== src/Service.antt =====
-- pilatus-rt/src/recipe/{mod,recipes}.rs: the transactions of `RecipeDataService`.
pub mod Tx
pub mod Defs
pub mod Keeps
pub mod Valid
pub mod Serve
pub mod Atomic
mod Tests
unfoldable pub use Tx.*
unfoldable pub use Defs.*
