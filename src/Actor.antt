-- ===== src/Actor.antt =====
-- pilatus/src/device/system: the actor system, in which devices register handlers for messages.
mod Defs
mod Senders
mod Execute
mod Live
mod Steps
mod Listed
mod Twice
mod Answers
mod Tests
unfoldable pub use Defs.*
unfoldable pub use Senders.*
