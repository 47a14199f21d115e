-- ===== src/Daemon/Stream/Direct.antt =====
-- internal/daemon/directio.go: writeStreamDirect and writeAllAt. The alignment of the buffer's
-- address in memory is not modelled.
pub mod Whole
use bsos.Base.{
  ℕ, zero, suc, ◌+◌, ◌-◌, ◌*◌, ◌/◌, ◌%◌, Bool, true, false, not, List, [], ◌∷◌, ◌++◌, Option, none,
  some, length, take, drop, replicate, min, ltb, ◌==◌, if◌then◌else◌,
}
use bsos.Blk.Layout.{slot_size}
use bsos.Daemon.Errors.{Error, io_failed, unexpected_eof, not_aligned}
use bsos.Daemon.Device.{DeviceFile}
use bsos.Daemon.Stream.{Stream, end_of_stream, short_read}

abbrev pub direct_chunk_bytes : ℕ
direct_chunk_bytes = 1024 * 1024

-- A round for each buffer, and one more.
abbrev pub direct_rounds : ℕ → ℕ
direct_rounds total = total / direct_chunk_bytes + 1

-- What a round reads of the stream: as much as the rest of the object and the buffer allow.
unfoldable pub wanted : ℕ → ℕ → ℕ → ℕ
wanted real_size written chunk_len =
    if ltb written real_size then min (real_size - written) chunk_len else 0

-- The tests of a round on what it has read: a short read, and then the end behind the last byte.
unfoldable pub read_error_of : Stream → ℕ → ℕ → ℕ → Option Error
read_error_of r real_size written want =
    let buf : List ℕ = take want r.bytes in
    if not (ltb written real_size)
    then none
    else if not (length buf == want)
    then some (short_read r (written + length buf) real_size)
    else if written + want == real_size
    then end_of_stream (record r { bytes = drop want r.bytes }) real_size
    else none

module _ (d : DeviceFile) where
  open d use {File, write_at}

  -- The loop of writeAllAt; `none` says that the fuel ran out.
  unfoldable pub write_all_loop : ℕ → File → List ℕ → ℕ → Option (File × Option Error)
  write_all_loop fuel f [] off = some (f, none)
  write_all_loop zero f (b ∷ bs) off = none
  write_all_loop (suc fuel) f (b ∷ bs) off =
      let (f', w) = write_at f off (b ∷ bs) in
      let rest = write_all_loop fuel f' (drop w.count (b ∷ bs)) (off + w.count) in
      if w.failed
      then some (f', some io_failed)
      else if w.count == 0
      then some (f', some unexpected_eof)
      else rest

  -- A byte at least goes out in each round.
  unfoldable pub write_all_at : File → List ℕ → ℕ → File × Option Error
  write_all_at f buf off = elim (write_all_loop (length buf) f buf off) [
    | some done ↦ done
    | none ↦ (f, some io_failed)
  ]

  unfoldable pub direct_loop : ℕ → File → ℕ → ℕ → ℕ → Stream → ℕ → File × Option Error
  direct_loop zero f addr real_size total r written = (f, none)
  direct_loop (suc rounds) f addr real_size total r written =
      let chunk_len : ℕ = min direct_chunk_bytes (total - written) in
      let want : ℕ = wanted real_size written chunk_len in
      let buf : List ℕ = take want r.bytes ++ replicate (chunk_len - want) 0 in
      let wrote = write_all_at f buf (addr + written) in
      elim (ltb written total) [
        | false ↦ (f, none)
        | true ↦ elim (read_error_of r real_size written want) [
          | some e ↦ (f, some e)
          | none ↦ elim wrote.1 [
            | some e ↦ (wrote.0, some e)
            | none ↦
                direct_loop rounds wrote.0 addr real_size total
                  (record r { bytes = drop want r.bytes }) (written + chunk_len)
          ]
        ]
      ]

  unfoldable pub write_stream_direct : File → ℕ → ℕ → ℕ → Stream → File × Option Error
  write_stream_direct f addr real_size total r =
      if not (total % slot_size == 0)
      then (f, some (not_aligned total))
      else if not (direct_chunk_bytes % slot_size == 0)
      then (f, some (not_aligned direct_chunk_bytes))
      else direct_loop (direct_rounds total) f addr real_size total r 0
