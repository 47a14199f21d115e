-- ===== src/Daemon/Stream.antt =====
-- internal/daemon/state.go: writeExact and writeZeros, which bring a stream to a reserved extent, and the
-- part of WriteFromContext that runs without direct I/O.
pub mod Exact
pub mod Direct
pub mod Context
use bsos.Base.{
  ℕ, zero, suc, ◌+◌, ◌-◌, ◌*◌, ◌/◌, Bool, true, false, not, ◌||◌, List, [], ◌∷◌, ◌++◌, Option, none,
  some, length, take, drop, replicate, min, ltb, ◌==◌, if◌then◌else◌,
}
use bsos.Blk.Layout.{slot_size}
use bsos.Daemon.Interval.{Interval}
use bsos.Daemon.Errors.{Error, io_failed, short_write, stream_short, stream_long, stream_failed}
use bsos.Daemon.Device.{DeviceFile, PreparedWrite}

-- What a reader will still give: these bytes, and then the end of the stream or a failure.
pub record Stream : Type 0 where
  pub bytes : List ℕ
  pub fault : Bool

abbrev pub write_chunk : ℕ
write_chunk = 4 * 1024 * 1024

-- Behind the last declared byte: one more byte, or anything but the end, is an error.
unfoldable pub end_of_stream : Stream → ℕ → Option Error
end_of_stream r total =
    if not (length r.bytes == 0)
    then some (stream_long total)
    else if r.fault
    then some stream_failed
    else none

-- ReadFull's error where the buffer stayed short.
unfoldable pub short_read : Stream → ℕ → ℕ → Error
short_read r written total = if r.fault then stream_failed else stream_short written total

abbrev pub write_rounds : ℕ → ℕ
write_rounds total = total / write_chunk + 1

module _ (d : DeviceFile) where
  open d use {File, write_at}

  -- WriteAt of one buffer.
  unfoldable pub write_buffer : File → ℕ → List ℕ → File × Option Error
  write_buffer f off buf =
      let (f', w) = write_at f off buf in
      (
        f',
        if w.failed
            then some io_failed
            else if not (w.count == length buf)
            then some short_write
            else none,
      )

  -- A round of writeExact writes what it has read, if anything.
  unfoldable pub write_some : File → ℕ → List ℕ → File × Option Error
  write_some f off buf = if length buf == 0 then (f, none) else write_buffer f off buf

  -- The loop of writeExact, `rounds` rounds at most.
  unfoldable pub write_exact : ℕ → File → ℕ → ℕ → Stream → ℕ → File × Option Error
  write_exact zero f addr total r written = (f, end_of_stream r total)
  write_exact (suc rounds) f addr total r written =
      let want : ℕ = min write_chunk (total - written) in
      let buf : List ℕ = take want r.bytes in
      let wrote = write_some f (addr + written) buf in
      elim (ltb written total) [
        | false ↦ (f, end_of_stream r total)
        | true ↦ elim wrote.1 [
          | some e ↦ (wrote.0, some e)
          | none ↦ elim (length buf == want) [
            | false ↦ (wrote.0, some (short_read r (written + length buf) total))
            | true ↦
                write_exact rounds wrote.0 addr total (record r { bytes = drop want r.bytes })
                  (written + length buf)
          ]
        ]
      ]

  -- The loop of writeZeros.
  unfoldable pub write_zeros : ℕ → File → ℕ → ℕ → ℕ → File × Option Error
  write_zeros zero f addr total written = (f, none)
  write_zeros (suc rounds) f addr total written =
      let want : ℕ = min write_chunk (total - written) in
      let wrote = write_buffer f (addr + written) (replicate want 0) in
      elim (ltb written total) [
        | false ↦ (f, none)
        | true ↦ elim wrote.1 [
          | some e ↦ (wrote.0, some e)
          | none ↦ write_zeros rounds wrote.0 addr total (written + want)
        ]
      ]

  unfoldable pub write_from : File → PreparedWrite → Stream → File × Option Error
  write_from f pw r =
      let slots_needed : ℕ = pw.iv.end - pw.iv.start + 1 in
      let total : ℕ = slots_needed * slot_size in
      let wrote = write_exact (write_rounds pw.size) f pw.addr pw.size r 0 in
      let pad : ℕ = total - pw.size in
      elim wrote.1 [
        | some e ↦ (wrote.0, some e)
        | none ↦
            if ltb 0 pad
            then write_zeros (write_rounds pad) wrote.0 (pw.addr + pw.size) pad 0
            else (wrote.0, none)
      ]
