-- ===== src/Handler.antt =====
-- pilatus/src/device/spawner.rs and pilatus-rt/src/recipe/parameters.rs: the handlers of the types of
-- devices, which validate, spawn and update devices.
pub mod Defs
mod Agree
mod Tests
unfoldable pub use Defs.*
