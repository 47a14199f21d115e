-- ===== src/Daemon/Tests/Packing.antt =====
-- The packing of small objects at concrete inputs.
use bsos.Blk.Entry.Codec.{entry_bytes}
use bsos.Daemon.Replay.{empty_state, stopped, replay_entries}
use bsos.Daemon.Trim.{append_tombstone}
use bsos.Daemon.Trim.Tombstone.{buried, append_tombstone-replay_entries}
use bsos.Base.{
  ◌++◌, ok, arith, ◌≡◌, ◌==◌, if◌then◌else◌, ℕ, ◌+◌, ◌*◌, refl, Bool, true, false, List, [], ◌∷◌,
  Option, some, none, length, take, replicate, ◌==◌, if◌then◌else◌,
}
use bsos.Blk.Layout.{index_start, grid_start, slot_size}
use bsos.Daemon.PackedTable.{PackedTableHeader, PackedTableEntry}
use bsos.Daemon.Replay.{whole_ref}
use bsos.Daemon.Device.{DeviceFile, DeviceState}
use bsos.Daemon.Trim.{TrimCandidate}
use bsos.Daemon.Trim.Pack.{Stage}

-- The newest bytes that were written to an offset, or zeros.
unfoldable read_newest : List (ℕ × List ℕ) → ℕ → ℕ → List ℕ
read_newest [] off n = replicate n 0
read_newest ((at', buf) ∷ writes) off n =
    if at' == off then take n buf else read_newest writes off n

-- A device that keeps its writes, the newest first, and never fails.
abbrev keeping : DeviceFile
keeping = record {
  File = List (ℕ × List ℕ);
  read_at = λ f off n. some (read_newest f off n);
  write_at = λ f off buf. ((off, buf) ∷ f, record { count = length buf; failed = false });
  sync = λ f. (f, true);
}

-- Two objects of 3 and 5 bytes.
abbrev two_objects : DeviceState keeping.File
two_objects = record {
  file = [];
  direct_file = none;
  disk_id = 5;
  disk_bytes = grid_start + 16 * slot_size;
  extents = record { intervals = []; pending_intervals = []; index_err = none };
  confirmed = (3, whole_ref 3 3 3) ∷ (4, whole_ref 4 5 5) ∷ [];
  packed = [];
  index_end = index_start + 32;
}

abbrev both_candidates : List TrimCandidate
both_candidates = record { fid = 3; size = 3 } ∷ record { fid = 4; size = 5 } ∷ []

-- The hash of the tests: a fid from the length.
abbrev hash_of : List ℕ → ℕ
hash_of content = 100 + length content

abbrev one_read : List ℕ → List (Option (List ℕ))
one_read content = some content ∷ []

abbrev never : Stage → Bool
never stage = false

abbrev small_header : PackedTableHeader
small_header = record {
  disk_id = 5;
  container_fid = 108;
  container_size = 8;
  entry_count = 2;
  reserved = 0;
}

abbrev small_entries : List PackedTableEntry
small_entries =
    record { fid = 3; offset = 0; size = 3 } ∷ record { fid = 4; offset = 3; size = 5 } ∷ []

append_tombstone-replay_entries_example :
    (append_tombstone keeping two_objects 3 ≡ (
      record two_objects {
        file = (keeping.write_at two_objects.file two_objects.index_end (entry_bytes 3 0 0)).0;
        index_end = two_objects.index_end + 16;
      },
      none,
    ))
    × (replay_entries two_objects.disk_bytes index_start
          ([] ++ (entry_bytes 3 0 0 ∷ []))
          empty_state
        ≡ (if 3 == 0
            then ok (stopped (index_start + 16 * length {A = List ℕ} []) empty_state)
            else replay_entries two_objects.disk_bytes
                (index_start + 16 * length {A = List ℕ} [] + 16)
                []
                (buried empty_state 3)))
unfolding replay_entries
append_tombstone-replay_entries_example =
    append_tombstone-replay_entries keeping two_objects 3 [] [] empty_state (omega arith)
      (omega arith) refl refl refl
