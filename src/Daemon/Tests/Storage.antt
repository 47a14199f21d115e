-- ===== src/Daemon/Tests/Storage.antt =====
-- Extents, packed tables, streams and trimming at concrete inputs.
use bsos.Base.{
  map, ℕ, ◌+◌, ◌*◌, ◌^◌, ◌≡◌, refl, true, List, [], ◌∷◌, ◌++◌, none, All, length, Result, ok, err,
  arith,
}
use bsos.Daemon.Errors.{Error}
use bsos.Daemon.Interval.{Interval, Extents, overlaps, reserve_extent}
use bsos.Daemon.Interval.Slots.{covers, occupants, IsExclusive, reserve_extent-IsExclusive}
use bsos.Daemon.PackedTable.{
  PackedTableHeader, PackedTableEntry, encode_packed_table, encode_header, decode_packed_table,
  cap_out_of_range,
}
use bsos.Daemon.PackedTable.RoundTrip.{IsTable, decode-encode}
use bsos.Daemon.PackedTable.Checks.{IsChecked, decode_packed_table_sound, decode_panics}
use bsos.Daemon.Trim.{TrimCandidate, ContainerEntry, build_container}
use bsos.Daemon.Trim.Container.{HoldsObject, build_container-HoldsObject}

abbrev low : Interval
low = record { start = 0; end = 1 }

abbrev high : Interval
high = record { start = 2; end = 3 }

-- One extent is confirmed, and another is pending.
abbrev one_held : Extents
one_held = record { intervals = low ∷ []; pending_intervals = []; index_err = none }

abbrev both_held : Extents
both_held = record { intervals = low ∷ []; pending_intervals = high ∷ []; index_err = none }

one_held-IsExclusive : IsExclusive one_held
unfolding occupants
one_held-IsExclusive = record { at_most_one = λ slot. ground arith }

both_held-IsExclusive : IsExclusive both_held
unfolding occupants
both_held-IsExclusive = record { at_most_one = λ slot. ground arith }

reserve_extent-IsExclusive_example :
    IsExclusive both_held
    × ((slot : ℕ)
        → covers slot high ≡ true
        → occupants slot one_held.intervals + occupants slot one_held.pending_intervals ≡ 0)
    × (both_held.intervals ≡ one_held.intervals)
    × (both_held.pending_intervals ≡ one_held.pending_intervals ++ (high ∷ []))
unfolding reserve_extent overlaps
reserve_extent-IsExclusive_example =
    reserve_extent-IsExclusive one_held both_held high one_held-IsExclusive refl

abbrev table : PackedTableHeader
table = record {
  disk_id = 5;
  container_fid = 900;
  container_size = 300;
  entry_count = 2;
  reserved = 0;
}

abbrev table_entries : List PackedTableEntry
table_entries =
    record { fid = 11; offset = 0; size = 100 } ∷ record { fid = 12; offset = 100; size = 200 } ∷ []

table-IsTable : IsTable table table_entries
table-IsTable = record {
  disk_range = omega arith;
  fid_range = omega arith;
  size_range = omega arith;
  reserved_range = omega arith;
  counted = refl;
  fits = omega arith;
  entries = (
    record {
      fid_range = omega arith;
      offset_range = omega arith;
      size_range = omega arith;
      nonempty = omega arith;
      inside = omega arith;
    },
    (
      record {
        fid_range = omega arith;
        offset_range = omega arith;
        size_range = omega arith;
        nonempty = omega arith;
        inside = omega arith;
      },
      tt,
    ),
  );
}

decode-encode_example :
    decode_packed_table (encode_packed_table table table_entries) ≡ ok (table, table_entries)
decode-encode_example = decode-encode table table_entries table-IsTable

decode_packed_table_sound_example :
    (length (encode_packed_table table table_entries) ≡ 48 + length table_entries * 24)
    × (length table_entries ≡ table.entry_count)
    × All (IsChecked table.container_size) table_entries
decode_packed_table_sound_example =
    decode_packed_table_sound (encode_packed_table table table_entries) table table_entries
      (decode-encode table table_entries table-IsTable)

decode_panics_example : decode_packed_table (encode_header table (2 ^ 61)) ≡ err cap_out_of_range
decode_panics_example = decode_panics table (2 ^ 61) (omega arith) (omega arith) refl

abbrev sizes : List ℕ
sizes = 3 ∷ 2 ∷ 9 ∷ 0 ∷ []

abbrev three_candidates : List TrimCandidate
three_candidates =
    record { fid = 1; size = 4 }
    ∷ record { fid = 2; size = 9 }
    ∷ record { fid = 3; size = 5 }
    ∷ record { fid = 4; size = 3 }
    ∷ []

-- Objects whose bytes are their own fid.
abbrev read_object : ℕ → Result Error (List ℕ × ℕ)
read_object fid = ok (fid ∷ fid ∷ [], 2)

abbrev container : List ℕ
container = 1 ∷ 1 ∷ 3 ∷ 3 ∷ []

abbrev container_entries : List ContainerEntry
container_entries =
    record { fid = 1; offset = 0; size = 2 } ∷ record { fid = 3; offset = 2; size = 2 } ∷ []

build_container-HoldsObject_example :
    (map (λ e. e.fid) container_entries ≡ 1 ∷ 3 ∷ [])
    × All (HoldsObject read_object container) container_entries
unfolding build_container
build_container-HoldsObject_example =
    build_container-HoldsObject read_object
      (record { fid = 1; size = 2 } ∷ record { fid = 3; size = 2 } ∷ []) container container_entries
      (λ fid size object h. ground (arith, h)) refl
