-- ===== src/Blk/Scrub/Tests.antt =====
-- The packed scrub at concrete inputs.
use bsos.Base.{
  ℕ, ◌+◌, ◌*◌, ◌≡◌, refl, true, false, ◌&&◌, not, List, [], ◌∷◌, ◌++◌, Option, some, length, take,
  replicate, ◌==◌, arith,
}
use bsos.Blk.Layout.{grid_start, slot_size}
use bsos.Blk.Addr.{Placement, addr_for_fid}
use bsos.Blk.Compact.{LatestIndexRecord}
use bsos.Daemon.PackedTable.{packed_table_magic, decode_packed_table, decode_header}
use bsos.Blk.Scrub.{validate_packed_table_object}
use bsos.Blk.Scrub.Agreement.{is_ok, validate-decode}

-- A table without entries, of a container of one byte.
abbrev blob : List ℕ
blob = packed_table_magic ++ (1 ∷ 0 ∷ 48 ∷ 0 ∷ (replicate 16 0 ++ (1 ∷ replicate 23 0)))

abbrev disk_bytes : ℕ
disk_bytes = grid_start + 16 * slot_size

abbrev placement : Placement
placement = record { addr = grid_start + 7 * slot_size; slot_index = 7; slots_needed = 1 }

abbrev blob_at : ℕ → ℕ → Option (List ℕ)
blob_at addr n = some (take n blob)

validate-decode_example :
    is_ok (validate_packed_table_object blob_at disk_bytes 7 (length blob))
    ≡ (is_ok (decode_packed_table blob) && not ((decode_header blob).container_size == 0))
unfolding addr_for_fid
validate-decode_example =
    validate-decode blob_at disk_bytes 7 blob placement refl (λ n le. refl) (omega arith)

abbrev anchor : LatestIndexRecord
anchor = record {
  fid = 7;
  size = 48;
  actual_fid = 7;
  actual_size = 48;
  jump_code = 255;
  seq = 0;
  jump = false;
  packed = true;
}

abbrev unplaced : LatestIndexRecord
unplaced = record anchor { fid = 8; actual_size = 0 }

abbrev two_anchors : List LatestIndexRecord
two_anchors = anchor ∷ unplaced ∷ []
