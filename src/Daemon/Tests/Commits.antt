-- ===== src/Daemon/Tests/Commits.antt =====
-- The commit of one object on an empty disk: its tables, and what a restart finds.
use bsos.Base.{
  ok, List, ℕ, suc, ◌+◌, ◌*◌, ◌≡◌, refl, true, false, [], ◌∷◌, ◌++◌, none, some, length, replicate,
  Holds, arith,
}
use bsos.Base.Maps.{lookup, values}
use bsos.Base.Bytes.{le_bytes}
use bsos.Blk.Layout.{grid_start, slot_size, index_start}
use bsos.Blk.Addr.{Placement, addr_for_fid}
use bsos.Blk.Entry.{build_index_entry, encode_size7}
use bsos.Daemon.Errors.{conflict}
use bsos.Daemon.Interval.Slots.{occupants, IsExclusive}
use bsos.Daemon.Replay.{
  Reader, extent_of, empty_state, replay_entries, finish, expand_tables, any_neighbours_overlap,
}
use bsos.Daemon.Replay.Sort.{sort_extents}
use bsos.Daemon.Replay.Append.{
  IsCommittable, commit_raws, entries_of, committed, replay_entries-commit,
}
use bsos.Daemon.Replay.Invariant.{
  IsReplayed, empty-IsReplayed, replay_entries-IsReplayed, scan_state,
}
use bsos.Daemon.Device.{
  DeviceFile, DeviceState, PreparedWrite, commit, check_commit, commit_bytes, commit_tables,
  write_commit, write_synced,
}
use bsos.Daemon.Device.Guards.{SameTables, IsEnded, IsWritten, commit_failed}
use bsos.Daemon.Device.Recovery.{Mirrors}
use bsos.Daemon.Device.Crash.{IsPrepared, commit-Mirrors}

-- A device that counts its writes and never fails.
abbrev counting : DeviceFile
counting = record {
  File = ℕ;
  read_at = λ f off n. some (replicate n 0);
  write_at = λ f off buf. (suc f, record { count = length buf; failed = false });
  sync = λ f. (f, true);
}

abbrev disk_size : ℕ
disk_size = grid_start + 16 * slot_size

abbrev spot : Placement
spot = record { addr = grid_start + 7 * slot_size; slot_index = 7; slots_needed = 2 }

abbrev prepared : PreparedWrite
prepared = record { fid = 7; size = 5000; addr = spot.addr; iv = extent_of spot }

-- An empty disk with that one reservation.
abbrev reserved : DeviceState ℕ
reserved = record {
  file = 0;
  direct_file = none;
  disk_id = 1;
  disk_bytes = disk_size;
  extents = record { intervals = []; pending_intervals = prepared.iv ∷ []; index_err = none };
  confirmed = [];
  packed = [];
  index_end = index_start;
}

abbrev no_reads : Reader
no_reads addr size = none

reserved-IsExclusive : IsExclusive reserved.extents
unfolding occupants
reserved-IsExclusive = record { at_most_one = λ slot. ground arith }

prepared-IsPrepared : IsPrepared reserved prepared
unfolding addr_for_fid
prepared-IsPrepared = record {
  placement = spot;
  placed = refl;
  extent = refl;
  pending = refl;
  fid_range = omega arith;
  size_pos = omega arith;
  size_lt = omega arith;
}

reserved-Mirrors : Mirrors no_reads reserved []
unfolding replay_entries finish expand_tables values sort_extents any_neighbours_overlap
reserved-Mirrors = record {
  st = empty_state;
  rep = record { confirmed = []; packed = []; intervals = []; index_end = index_start };
  scanned = refl;
  finished = refl;
  confirmed_same = λ k. refl;
  packed_same = refl;
  intervals_same = λ slot. refl;
  end_at = refl;
}

-- The commit of the object with an alias.
commit_works : (commit counting reserved prepared 9).1 ≡ none
unfolding commit check_commit commit_bytes build_index_entry encode_size7 le_bytes write_commit
    write_synced commit_tables lookup
commit_works = refl

commit-Mirrors_example :
    (bytes : List ℕ) × (commit_bytes prepared 9 ≡ ok bytes)
    × IsWritten counting reserved bytes (commit counting reserved prepared 9).0.file
    × Mirrors no_reads (commit counting reserved prepared 9).0 ([] ++ entries_of bytes)
unfolding reserved-Mirrors
commit-Mirrors_example =
    commit-Mirrors counting no_reads reserved prepared 9 [] reserved-Mirrors prepared-IsPrepared
      reserved-IsExclusive (omega arith) tt commit_works

-- A disk on which the fid is registered already.
abbrev registered : DeviceState ℕ
registered = record reserved {
  confirmed = (7, record { fid = 7; stored_size = 1; size = 1; offset = 0; packed = false }) ∷ [];
}

commit_failed_example :
    SameTables (commit counting registered prepared 0).0 registered
    × IsEnded counting registered prepared 0 (commit counting registered prepared 0).0 conflict
unfolding commit check_commit lookup
commit_failed_example = commit_failed counting registered prepared 0 conflict refl

prepared-IsCommittable : IsCommittable disk_size empty_state prepared 9 spot
unfolding addr_for_fid lookup
prepared-IsCommittable = record {
  no_pair = refl;
  no_alias = refl;
  fid_range = omega arith;
  alias_range = omega arith;
  size_pos = omega arith;
  size_lt = omega arith;
  fresh = refl;
  alias_fresh = λ ne. refl;
  good_alias = refl;
  placed = refl;
}

replay_entries-commit_example :
    (bytes : List ℕ) × (commit_bytes prepared 9 ≡ ok bytes)
    × (replay_entries disk_size index_start (entries_of bytes ++ []) empty_state
        ≡ replay_entries disk_size
            (index_start + length bytes)
            []
            (committed empty_state prepared 9 spot))
replay_entries-commit_example =
    replay_entries-commit disk_size index_start empty_state prepared 9 [] spot
      prepared-IsCommittable

replay_entries-IsReplayed_example :
    Holds
      (λ scan. IsReplayed (scan_state scan))
      (replay_entries disk_size index_start (commit_raws prepared 9) empty_state)
replay_entries-IsReplayed_example =
    replay_entries-IsReplayed disk_size index_start (commit_raws prepared 9) empty_state
      empty-IsReplayed
