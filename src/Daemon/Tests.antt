-- ===== src/Daemon/Tests.antt =====
-- The theorems of internal/daemon at concrete inputs.
mod Storage
mod Commits
mod Service
mod Streams
mod Packing
