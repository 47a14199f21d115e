-- ===== src/Daemon/Stream/Context.antt =====
-- internal/daemon/state.go: WriteFromContext. The turn on the disk is waited for outside of the model;
-- `acquired` says whether it came before the context or the stall timeout ended.
use bsos.Base.{◌+◌, ◌-◌, ◌*◌, Bool, true, false, Option, none, some}
use bsos.Blk.Layout.{slot_size}
use bsos.Daemon.Errors.{Error, io_turn_missed}
use bsos.Daemon.Device.{DeviceFile, DeviceState, PreparedWrite}
use bsos.Daemon.Stream.{Stream, write_from}
use bsos.Daemon.Stream.Direct.{write_stream_direct}

-- A disk whose directFile is open is written through that handle, which has a WriteAt of its own.
unfoldable pub write_from_context :
    (d : DeviceFile) → DeviceState d.File → PreparedWrite → Stream → Bool → d.File × Option Error
write_from_context d s pw r acquired = elim acquired [
  | false ↦ (s.file, some io_turn_missed)
  | true ↦ elim s.direct_file [
    | some write_direct ↦
        write_stream_direct (record d { write_at = write_direct }) s.file pw.addr pw.size
          ((pw.iv.end - pw.iv.start + 1) * slot_size) r
    | none ↦ write_from d s.file pw r
  ]
]
