-- ===== src/Daemon/Errors.antt =====
-- The errors of internal/daemon: the named ones, those of internal/blk, and one constructor for each
-- other message.
use bsos.Base.{ℕ}
use bsos.Blk.Errors
use bsos.Daemon.PackedTable.{TableError}

pub data Error : Type 0 where
  conflict not_found : Error
  blk : Errors.Error → Error
  empty_object invalid_alias : Error
  io_failed short_write unexpected_eof index_fault : Error
  incomplete_alias incomplete_packed : Error
  invalid_packed_entry invalid_packed_anchor invalid_alias_indicator invalid_alias_target : Error
  duplicate_alias duplicate_entry unsupported_entry read_table : ℕ → Error
  decode_table : ℕ → TableError → Error
  overlapping_extents : Error
  stream_short : ℕ → ℕ → Error
  stream_long : ℕ → Error
  stream_failed : Error
  not_aligned : ℕ → Error
  stopped_at_failpoint io_turn_missed : Error
  no_available_disk : ℕ → Error
  bad_packed_table bad_packed_ref : ℕ → Error
