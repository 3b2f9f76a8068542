-- ===== src/Image.antt =====
-- pilatus-engineering/src/image: images, and the buffers they share.
mod Defs
mod Memory
mod Release
mod Valid
mod Tidy
mod Transfer
mod Share
mod Clone
mod Edit
mod Steps
mod Packing
mod Pixels
mod Channels
mod Sizes
mod Hash
mod Keys
mod Broadcast
mod Named
mod Tests
unfoldable pub use Defs.*
