-- ===== src/Daemon.antt =====
-- internal/daemon: the storage daemon, from one disk's extents to the pool of disks.
pub mod Errors
pub mod Config
pub mod Interval
pub mod PackedTable
pub mod Replay
pub mod Device
pub mod Gate
pub mod Chd
pub mod Stream
pub mod Pool
pub mod Server
pub mod Fragmentation
pub mod Trim
mod Tests
