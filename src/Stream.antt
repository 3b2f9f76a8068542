-- ===== src/Stream.antt =====
-- pilatus-axum/src/image.rs: the messages in which images are streamed to a browser.
mod Defs
mod Layout
mod Raw
mod Jpeg
mod Outcomes
mod Tests
