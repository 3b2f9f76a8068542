-- ===== src/Content.antt =====
-- pilatus-rt/src/recipe/mod.rs: `is_content_equal`, by which the files of the active recipe are
-- compared with those of its backup.
mod Defs
mod Chunks
mod Full
mod Stale
mod Tests
