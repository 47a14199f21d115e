-- ===== src/Daemon/Trim/Pack.antt =====
-- internal/daemon/trim.go: maybeTrim from the container of its candidates to their tombstones. `stops`
-- says which of the failpoints is set, and `ratio` is the test on TrimThresholdRatio, in floating point.
pub mod Confirmed
use bsos.Base.{
  ℕ, ◌+◌, Bool, true, false, not, ◌&&◌, ◌||◌, List, [], ◌∷◌, Option, none, some, map, length, leb,
  ◌==◌, if◌then◌else◌, Result, ok, err,
}
use bsos.Daemon.Errors.{Error, io_failed, stopped_at_failpoint}
use bsos.Daemon.PackedTable.{PackedTableHeader, PackedTableEntry}
use bsos.Daemon.Device.{DeviceFile, DeviceState, get}
use bsos.Daemon.Trim.{
  TrimCandidate, ContainerEntry, build_container, load_packed_tables, append_tombstones,
  append_packed_anchor, verify_packed_candidates,
}
use bsos.Daemon.Trim.Objects.{write_container_object, write_packed_table_object}

pub data Stage : Type 0 where
  after_container_build after_container_write after_table_write after_anchor_append : Stage
  after_delete : Stage

-- Whether the objects are to be packed: there are candidates, and enough of the objects are small.
unfoldable is_triggered : (ℕ → ℕ → Bool) → ℕ → List TrimCandidate → ℕ → ℕ → Bool
is_triggered ratio min_file_count candidates small_files total_files =
    if length candidates == 0 || total_files == 0
    then false
    else if leb small_files min_file_count || not (ratio small_files total_files)
    then false
    else true

abbrev pub table_entry : ContainerEntry → PackedTableEntry
table_entry e = record { fid = e.fid; offset = e.offset; size = e.size }

abbrev pub table_header : ℕ → ℕ → ℕ → ℕ → PackedTableHeader
table_header disk_id container_fid container_size entry_count = record {
  disk_id = disk_id;
  container_fid = container_fid;
  container_size = container_size;
  entry_count = entry_count;
  reserved = 0;
}

module _ (d : DeviceFile) (hash : List ℕ → ℕ) (reads : List ℕ → List (Option (List ℕ)))
    (stops : Stage → Bool) (candidates : List TrimCandidate) where
  open d use {File, sync}

  -- The candidates' own entries are deleted.
  pub bury_candidates : DeviceState File → DeviceState File × Option Error
  bury_candidates s =
      let buried = append_tombstones d candidates s in
      let synced = sync buried.0.file in
      elim buried.1 [
        | some e ↦ (buried.0, some e)
        | none ↦ (
          record (buried.0) { file = synced.0 },
          if not synced.1
              then some io_failed
              else if stops after_delete
              then some stopped_at_failpoint
              else none,
        )
      ]

  -- The table's objects enter the tables of the disk, and are checked there.
  pub expand_table_object : DeviceState File → ℕ → DeviceState File × Option Error
  expand_table_object s table_fid =
      let loaded = load_packed_tables d (table_fid ∷ []) s in
      elim loaded.1 [
        | some e ↦ (loaded.0, some e)
        | none ↦ elim (verify_packed_candidates d candidates loaded.0) [
          | some e ↦ (loaded.0, some e)
          | none ↦ bury_candidates loaded.0
        ]
      ]

  pub anchor_table : DeviceState File → ℕ → ℕ → DeviceState File × Option Error
  anchor_table s table_fid table_size =
      let anchored = append_packed_anchor d s table_fid table_size in
      elim anchored.1 [
        | some e ↦ (anchored.0, some e)
        | none ↦
            if stops after_anchor_append
            then (anchored.0, some stopped_at_failpoint)
            else expand_table_object anchored.0 table_fid
      ]

  pub table_container :
      DeviceState File → ℕ → ℕ → List ContainerEntry → DeviceState File × Option Error
  table_container s container_fid container_size entries =
      let header = table_header s.disk_id container_fid container_size (length entries) in
      let wrote = write_packed_table_object d hash s header (map table_entry entries) in
      elim wrote.1 [
        | err e ↦ (wrote.0, some e)
        | ok (table_fid, table_size) ↦
            if stops after_table_write
            then (wrote.0, some stopped_at_failpoint)
            else anchor_table wrote.0 table_fid table_size
      ]

  pub store_container :
      DeviceState File → List ℕ → List ContainerEntry → DeviceState File × Option Error
  store_container s content entries =
      let wrote = write_container_object d hash reads s content in
      elim wrote.1 [
        | err e ↦ (wrote.0, some e)
        | ok (container_fid, container_size) ↦
            if stops after_container_write
            then (wrote.0, some stopped_at_failpoint)
            else table_container wrote.0 container_fid container_size entries
      ]

  pub pack_candidates : DeviceState File → DeviceState File × Option Error
  pack_candidates s = elim (build_container (get d s) 0 candidates) [
    | err e ↦ (s, some e)
    | ok (content, entries) ↦
        if stops after_container_build
        then (s, some stopped_at_failpoint)
        else store_container s content entries
  ]
