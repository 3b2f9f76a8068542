-- ===== src/RelativePath.antt =====
-- pilatus/src/relative/path: relative paths of files and directories.
mod Defs
pub mod Valid
pub mod File
pub mod Position
mod Tests
unfoldable pub use Defs.*
