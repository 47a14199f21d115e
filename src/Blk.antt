-- ===== src/Blk.antt =====
-- internal/blk: the on-disk format of one device and the operations on its index stream.
pub mod Layout
pub mod Errors
pub mod Addr
pub mod Entry
pub mod Index
pub mod Compact
pub mod Header
pub mod Scrub
mod Tests
