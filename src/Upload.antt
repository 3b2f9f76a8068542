-- ===== src/Upload.antt =====
-- pilatus-axum-rt/src/recipe/import/websocket_reader.rs: reading an upload.
mod Defs
mod Reading
mod Ends
mod Tests
unfoldable pub use Defs.*
