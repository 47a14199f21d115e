-- ===== src/Client/Tests.antt =====
-- The theorems of the client libraries at concrete inputs.
mod Uploads
mod Downloads
mod Chunks
