-- ===== src/Lib.antt =====
-- BSOS is an object store. A daemon (internal/daemon) keeps a pool of disks; a disk is a device
-- with a header, an index stream of 16-byte entries, and a grid of 4096-byte slots (internal/blk).
-- An object is named by a 64-bit fid, and the slots that it lies on are computed from the fid and
-- its size, so the index holds no addresses. An alias is a jump indicator before the object's
-- entry; small objects are packed into container objects, each described by a packed table behind
-- an anchor entry.
--
-- Base: names of the libraries passed on, Boolean tests on native numbers, lists, results, little-
-- endian bytes (Base/Bytes) and Go's maps as association lists (Base/Maps).
--
-- Blk, the format:
--   Blk/Layout, Blk/Errors: layout.go and the errors.
--   Blk/Addr: addr.go, AddrForFID; a uint64 is a number below 2 ^ 64 and wraps where Go's does.
--   Blk/Entry: index_v2.go, the entry and its codec.
--   Blk/Index: index.go, FindIndexEnd and FindLatestIndexEntry.
--   Blk/Compact: index_compact.go, the live records, their compacted stream and its validation.
--   Blk/Header: header.go and the header of init.go.
--   Blk/Scrub: index_packed_scrub.go, the check of an index's packed tables.
--
-- Daemon, the store:
--   Daemon/Interval: interval.go, the confirmed and pending extents of a disk.
--   Daemon/PackedTable: packed_table.go, the codec of packed tables.
--   Daemon/Replay: index_state.go, replayIndex: the tables of a disk from its index stream.
--   Daemon/Device: state.go, PrepareWrite, Commit, Abort, Get, Head, Confirmed.
--   Daemon/Stream: state.go, writeExact and writeZeros; Daemon/Stream/Context: WriteFromContext.
--   Daemon/Stream/Direct: directio.go, the writes of whole aligned chunks.
--   Daemon/Gate: gate.go, the fids that the pool has reserved.
--   Daemon/Chd: chd.go, computeCHD, and its binary search.
--   Daemon/Pool: multidisk.go, and the pool's parts of server.go (Health, Bonnie).
--   Daemon/Server: server.go, Put, the ranges and messages of Get, NewServer's tests.
--   Daemon/Server/Incoming: server.go, the reader of a Put's messages.
--   Daemon/Config: config.go, sizes and the defaults and limits of LoadConfig.
--   Daemon/Fragmentation: fragmentation.go, the threshold for small objects.
--   Daemon/Trim: trim.go, the batch, the container, the anchor and the tombstones.
--   Daemon/Trim/Objects, Daemon/Trim/Pack: trim.go, the writing of its two objects with the retries on a
--     conflict (256, as in the source), and maybeTrim from the container to the tombstones.
--
-- Client, the Go client libraries (pkg), which talk to a daemon over a connection:
--   Client, Client/Upload: client.go, the codes of errors and Put with its messages; PutBytes.
--   Client/Jump: client.go, the retries on a conflict of PutBytes and of PutFile.
--   Client/Download: client.go, Get, GetBytes and GetFile.
--   Client/Verify: client.go, VerifyContent with its waits.
--   Client/Chunker: cdc/chunker.go, the chunks and their places.
--   Client/Manifest: manifest/manifest.go, the magic header around the manifest.
--   Client/Chunked: cdc.go, the results that PutCDC collects and GetCDC with its ranges.
--
-- A Put runs the parts in the handler's order: Gate.reserve, the selection of a disk (Pool), then
-- on that disk PrepareWrite (Interval), WriteFromContext (Stream/Context) and Commit (Device), with
-- Abort on each failure, and Gate.release at the end. A restart runs Replay on the bytes that the
-- commits wrote.
--
-- A mutex makes an operation one step here, so an operation is a function from a state to a state,
-- and an error is a value. The device (deviceFile) is a record of operations that a theorem takes
-- as a parameter: a write answers a count and whether it failed, and a theorem assumes nothing of
-- it unless it says so. The hash of CH_d (xxh3), and its share of samples, which the source rounds
-- up in floating point, are parameters. So are, for a client, the connection, the file that it
-- reads, the hash, the serializer of manifests and the cuts of FastCDC, and for the configuration
-- the reading of numbers and durations in a text. Concurrent answers come as a list in any order of
-- arrival.
--
-- The loops over a file run on fuel: 64 chunks of 4 MiB are all of an index stream; the writes of a
-- stream get one round for each 4 MiB and one more, those of the direct path one for each MiB and
-- one more, and writeAllAt one for each byte, as each of its writes makes progress or fails; the
-- binary search of CH_d gets as many rounds as there are slots, and its range shrinks in each. A
-- client's Put gets one round for each chunk and one more. The loops over jump codes and over
-- attempts count down what is left of them.
--
-- Not modelled: gRPC, timeouts, the queue for a disk's turn (whether it comes is an argument), the
-- pool's mapping to disks (pool_mapping.go, internal/pan), zram devices and snapshots
-- (internal/zram, but for the test of a path), the tools of internal/blk but for the scrub, the
-- workers and channels of PutCDC, the command lines (cmd) and the scripts. Of a trim the backup,
-- the temporary files, its status and the final compaction are left out.
pub mod Base
pub mod Blk
pub mod Client
pub mod Daemon
