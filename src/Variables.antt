-- ===== src/Variables.antt =====
-- pilatus/src/recipe/variable and the parameters of pilatus/src/recipe/mod.rs: JSON parameters that
-- refer to variables.
mod Defs
pub mod Patch
pub mod Resolve
pub mod RoundTrip
mod Tests
unfoldable pub use Defs.*
