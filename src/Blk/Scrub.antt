-- ===== src/Blk/Scrub.antt =====
-- internal/blk/index_packed_scrub.go: the test of the packed tables on a disk, and the records that a
-- fix keeps. `read` is ReadAt on the disk, of an address and a length.
pub mod Agreement
pub mod Fixed
mod Tests
use bsos.Base.{
  ℕ, zero, suc, ◌+◌, ◌*◌, ◌^◌, Bool, true, false, not, ◌&&◌, List, [], ◌∷◌, Option, none, some,
  length, take, drop, keep, some_of, min, ltb, leb, ◌==◌, add64, mul64, if◌then◌else◌, Result, ok,
  err, ◌>>=◌, ◌>>◌, fail_if,
}
use bsos.Base.Bytes.{le_value}
use bsos.Blk.Addr.{Placement, addr_for_fid}
use bsos.Blk.Entry.{slice}
use bsos.Blk.Compact.{LatestIndexRecord}
use bsos.Daemon.PackedTable.{
  packed_table_magic, packed_table_version, packed_table_header_size, packed_table_entry_size,
  same_bytes,
}
use bsos.Blk.Errors

-- Why a table is refused. `panicked` stands for a run-time panic: an allocation or an index out of
-- range.
pub data ScrubError : Type 0 where
  table_too_small size_mismatch : ℕ → ScrubError
  not_placed : Errors.Error → ScrubError
  unreadable bad_magic bad_version bad_header_size zero_container : ScrubError
  zero_size_entry entry_out_of_range zero_size_table panicked : ScrubError

-- The tests on the header: the container's size and the number of entries.
pub check_header : List ℕ → ℕ → Result ScrubError (ℕ × ℕ)
check_header header size =
    let container_size : ℕ = le_value (slice 24 32 header) in
    let entry_count : ℕ = le_value (slice 32 40 header) in
    fail_if (not (same_bytes (slice 0 4 header) packed_table_magic)) bad_magic
    >> (fail_if (not (le_value (slice 4 6 header) == packed_table_version)) bad_version
        >> (fail_if (not (le_value (slice 6 8 header) == packed_table_header_size)) bad_header_size
            >> (fail_if (container_size == 0) zero_container
                >> (fail_if
                      (not (
                        size
                        == add64 packed_table_header_size
                            (mul64 entry_count packed_table_entry_size)))
                      (size_mismatch size)
                    >> ok (container_size, entry_count)))))

-- The loop over the entries; `rest` is blob[offset:].
pub check_entries : ℕ → ℕ → List ℕ → Result ScrubError (Unit {0})
check_entries zero container_size rest = ok tt
check_entries (suc n) container_size rest =
    let entry_offset : ℕ = le_value (slice 8 16 rest) in
    let entry_size : ℕ = le_value (slice 16 24 rest) in
    let later = check_entries n container_size (drop packed_table_entry_size rest) in
    if ltb (length rest) packed_table_entry_size
    then err panicked
    else if entry_size == 0
    then err zero_size_entry
    else if ltb container_size (add64 entry_offset entry_size)
    then err entry_out_of_range
    else later

pub place_table : ℕ → ℕ → ℕ → Result ScrubError ℕ
place_table disk_bytes fid size = elim (addr_for_fid disk_bytes fid size) [
  | err e ↦ err (not_placed e)
  | ok p ↦ ok p.addr
]

pub record PackedAnchorIssue : Type 0 where
  pub table_fid : ℕ
  pub table_size : ℕ
  pub reason : ScrubError

module _ (read : ℕ → ℕ → Option (List ℕ)) where
  -- Bytes that end before the n-th come with io.EOF, which is an error here.
  pub read_or_fail : ℕ → ℕ → Result ScrubError (List ℕ)
  read_or_fail addr n = elim (read addr n) [
    | none ↦ err unreadable
    | some bs ↦ if length bs == n then ok bs else err unreadable
  ]

  -- The entries are read only where there are any.
  pub check_blob : ℕ → ℕ → ℕ → ℕ → Result ScrubError (Unit {0})
  check_blob addr size container_size entry_count =
      if entry_count == 0
      then ok tt
      else if ltb (2 ^ 48) size
      then err panicked
      else (read_or_fail addr size >>= λ blob.
          check_entries entry_count container_size (drop packed_table_header_size blob))

  pub validate_packed_table_object : ℕ → ℕ → ℕ → Result ScrubError (Unit {0})
  validate_packed_table_object disk_bytes fid size = do
    fail_if (ltb size packed_table_header_size) (table_too_small size)
    addr ← place_table disk_bytes fid size
    header ← read_or_fail addr packed_table_header_size
    h ← check_header header size
    check_blob addr size h.0 h.1

  -- The error of a record's table, if it has one. The 64 bytes read for the report may come back
  -- short, but not fail.
  unfoldable pub table_error : ℕ → LatestIndexRecord → Option ScrubError
  table_error disk_bytes record' =
      elim (place_table disk_bytes record'.actual_fid record'.actual_size) [
        | err e ↦ some e
        | ok addr ↦
            if record'.actual_size == 0
            then some zero_size_table
            else elim (read addr (min record'.actual_size 64)) [
              | none ↦ some unreadable
              | some header ↦
                  elim (validate_packed_table_object disk_bytes record'.actual_fid
                    record'.actual_size) [ ok u ↦ none | err e ↦ some e ]
            ]
      ]

  -- The issues in the order of the records; the source then sorts them for its report.
  pub find_packed_anchor_issues : ℕ → List LatestIndexRecord → List PackedAnchorIssue
  find_packed_anchor_issues disk_bytes [] = []
  find_packed_anchor_issues disk_bytes (r ∷ rs) =
      let rest = find_packed_anchor_issues disk_bytes rs in
      elim r.packed [
        | false ↦ rest
        | true ↦ elim (table_error disk_bytes r) [
          | none ↦ rest
          | some e ↦ record { table_fid = r.fid; table_size = r.actual_size; reason = e } ∷ rest
        ]
      ]

-- A fix keeps every record but the packed ones with a fid among the issues.
pub is_bad : List ℕ → LatestIndexRecord → Bool
is_bad bad r = r.packed && some_of (λ fid. fid == r.fid) bad

pub filter_records : List ℕ → List LatestIndexRecord → List LatestIndexRecord
filter_records bad records = keep (λ r. not (is_bad bad r)) records
