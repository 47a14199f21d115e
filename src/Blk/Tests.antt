-- ===== src/Blk/Tests.antt =====
-- Small runs of internal/blk, and its theorems at concrete inputs.
use bsos.Base.{
  some, inr, replicate, ◌++◌, ℕ, ◌+◌, ◌-◌, ◌*◌, ◌≡◌, ◌≢◌, refl, inl, true, false, List, [], ◌∷◌,
  ◌++◌, none, ok, arith,
}
use bsos.Base.Bytes.{le_bytes}
use bsos.Blk.Layout.{grid_start, slot_size, index_jump_sentinel, packed_anchor_code}
use bsos.Blk.Addr.{Placement, addr_for_fid}
use bsos.Blk.Addr.Bounds.{IsPlaced, addr_for_fid-IsPlaced}
use bsos.Blk.Entry.{encode_size7, build_index_entry, parse_index_entry}
use bsos.Blk.Entry.Codec.{entry_bytes, parse-build}
use bsos.Blk.Index.{Latest, no_latest, latest_chunk}
use bsos.Blk.Index.LastWins.{latest_chunk-alias}
use bsos.Blk.Compact.{LatestIndexRecord, zero_run}
use bsos.Blk.Index.{ReadAt}
use bsos.Blk.Compact.{
  Collected, nothing_collected, collect_step, scan_index_stream, write_latest_index_records,
}
use bsos.Blk.Compact.Rewrite.{view, overlay}
use bsos.Blk.Compact.Filled.{bytes_of, scan_index_stream-write}
use bsos.Blk.Compact.ZeroRun.{zero_run-tombstone}

-- A disk of 16 slots.
abbrev small_disk : ℕ
small_disk = grid_start + 16 * slot_size

abbrev seven : Placement
seven = record { addr = grid_start + 7 * slot_size; slot_index = 7; slots_needed = 2 }

addr_for_fid-IsPlaced_example : IsPlaced small_disk 5000 seven
unfolding addr_for_fid
addr_for_fid-IsPlaced_example =
    addr_for_fid-IsPlaced small_disk 7 5000 seven (omega arith) (omega arith) (omega arith) refl

parse-build_example :
    (build_index_entry 42 5000 0 ≡ ok (entry_bytes 42 5000 0))
    × (parse_index_entry (entry_bytes 42 5000 0)
        ≡ ok (record { fid = 42; size = 5000; jump_code = 0 }))
parse-build_example = parse-build 42 5000 0 (omega arith) (omega arith, inl refl)

abbrev sought : ℕ
sought = 9

abbrev target : ℕ
target = 42

latest_chunk-alias_example :
    (st' : Latest) × (latest_chunk sought
        (entry_bytes sought index_jump_sentinel 1 ∷ entry_bytes target 5000 0 ∷ [])
        (none, no_latest)
      ≡ ok (false, (none, st')))
    × (sought ≡ sought
        → st' ≡ record {
          logic_size = 5000 - 1;
          actual_fid = target;
          actual_size = 5000;
          found = true;
          jump = true;
        })
    × (sought ≡ target
        → st' ≡ record {
          logic_size = 5000;
          actual_fid = target;
          actual_size = 5000;
          found = true;
          jump = false;
        })
    × (sought ≢ sought → sought ≢ target → st' ≡ no_latest)
latest_chunk-alias_example =
    latest_chunk-alias sought sought target 5000 1 no_latest (omega arith) (omega arith)
      (λ e. omega (arith, e)) (omega arith) (omega arith) (omega arith)

-- A plain object, and a packed table behind its anchor.
abbrev plain : LatestIndexRecord
plain = record {
  fid = 42;
  size = 5000;
  actual_fid = 42;
  actual_size = 5000;
  jump_code = 0;
  seq = 1;
  jump = false;
  packed = false;
}

abbrev anchored : LatestIndexRecord
anchored = record {
  fid = 77;
  size = 96;
  actual_fid = 77;
  actual_size = 96;
  jump_code = packed_anchor_code;
  seq = 2;
  jump = false;
  packed = true;
}

abbrev two_records : List LatestIndexRecord
two_records = plain ∷ anchored ∷ []

zero_run-tombstone_example :
    (zero_run 0 ([] ++ (entry_bytes 5 0 0 ++ (entry_bytes 512 4096 0 ++ [])))).0 ≡ true
zero_run-tombstone_example = zero_run-tombstone 0 5 512 4096 0 [] [] (omega arith) (omega arith)

abbrev greeting : List ℕ
greeting = 104 ∷ 105 ∷ []

-- Runs of the codec.
build_index_entry_run :
    build_index_entry 0x0102 0x0304 0
    ≡ ok (2 ∷ 1 ∷ 0 ∷ 0 ∷ 0 ∷ 0 ∷ 0 ∷ 0 ∷ 4 ∷ 3 ∷ 0 ∷ 0 ∷ 0 ∷ 0 ∷ 0 ∷ 0 ∷ [])
unfolding build_index_entry le_bytes encode_size7
build_index_entry_run = refl

-- A compacted index of the two records, with four zero entries behind it.
abbrev filled : ReadAt
filled addr n = some (bytes_of (write_latest_index_records two_records).0 ++ replicate 64 0)

scan_index_stream-write_example :
    (c : Collected) × ((write_latest_index_records two_records).1 ≡ none)
    × (scan_index_stream collect_step 65 filled 0 0 nothing_collected ≡ ok c)
    × ((k : ℕ) → view k c ≡ overlay k two_records none)
scan_index_stream-write_example =
    scan_index_stream-write two_records 64 3 filled
      (
        record {
          fid_range = omega arith;
          actual_range = omega arith;
          size_pos = omega arith;
          size_lt = omega arith;
          kind = inr (inr (refl, refl, refl, refl, refl));
        },
        (
          record {
            fid_range = omega arith;
            actual_range = omega arith;
            size_pos = omega arith;
            size_lt = omega arith;
            kind = inl (refl, refl, refl, refl);
          },
          tt,
        ),
      )
      refl
