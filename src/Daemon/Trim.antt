-- ===== src/Daemon/Trim.antt =====
-- internal/daemon/trim.go: small objects are packed into one container object, which a packed table
-- describes; then the objects' own entries are deleted and the index is compacted. The steps keep the
-- disk's lock, so each is a function on its state. The backup of the index, the temporary files and the
-- log are the operating system's and are left out.
pub mod Batch
pub mod Container
pub mod Objects
pub mod Pack
pub mod Tombstone
use bsos.Base.{
  ℕ, zero, suc, ◌+◌, ◌-◌, ◌*◌, ◌^◌, Bool, true, false, not, ◌&&◌, ◌||◌, List, [], ◌∷◌, ◌++◌, Option,
  none, some, length, replicate, some_of, ltb, leb, ◌==◌, if◌then◌else◌, is_some, u64_mod, Result,
  ok, err, ◌>>=◌, ◌>>◌, fail_if,
}
use bsos.Base.Maps.{Map, lookup, insert}
use bsos.Blk.Errors
use bsos.Blk.Layout.{grid_start, slot_size, index_packed_sentinel, packed_anchor_code}
use bsos.Blk.Entry.{build_index_entry}
use bsos.Blk.Compact.{LatestIndexRecord}
use bsos.Daemon.Errors.{
  Error, blk, conflict, empty_object, io_failed, not_found, decode_table, bad_packed_table,
  bad_packed_ref,
}
use bsos.Daemon.Interval.{Interval}
use bsos.Daemon.Chd.{any_overlap}
use bsos.Daemon.PackedTable.{PackedTableHeader, PackedTableEntry, decode_packed_table}
use bsos.Daemon.Replay.{PackedRecord, place, extent_of, whole_ref, packed_ref}
use bsos.Daemon.Device.{DeviceFile, DeviceState, from_blk, get}

pub record TrimCandidate : Type 0 where
  pub fid : ℕ
  pub size : ℕ

pub record ContainerEntry : Type 0 where
  pub fid : ℕ
  pub offset : ℕ
  pub size : ℕ

-- The limits of the configuration.
pub record TrimConfig : Type 0 where
  pub min_threshold : ℕ
  pub max_threshold : ℕ
  pub max_put : ℕ

abbrev has : List ℕ → ℕ → Bool
has xs k = some_of (λ x. x == k) xs

-- The fids that aliases point to, and those of packed tables.
unfoldable jump_targets : List LatestIndexRecord → List ℕ
jump_targets [] = []
jump_targets (r ∷ rs) = if r.jump then r.actual_fid ∷ jump_targets rs else jump_targets rs

unfoldable packed_table_fids : List LatestIndexRecord → List ℕ
packed_table_fids [] = []
packed_table_fids (r ∷ rs) =
    if not r.jump && r.packed then r.fid ∷ packed_table_fids rs else packed_table_fids rs

-- Plain records that no alias points to and that are neither tables nor containers.
unfoldable eligible_records : List ℕ → List ℕ → List ℕ → List LatestIndexRecord → List TrimCandidate
eligible_records targets tables containers [] = []
eligible_records targets tables containers (r ∷ rs) =
    let rest = eligible_records targets tables containers rs in
    if r.packed || r.jump
    then rest
    else if has targets r.fid
    then rest
    else if has tables r.fid
    then rest
    else if has containers r.fid
    then rest
    else record { fid = r.fid; size = r.size } ∷ rest

unfoldable clamp_threshold : TrimConfig → ℕ → ℕ
clamp_threshold cfg threshold =
    let raised = if ltb threshold cfg.min_threshold then cfg.min_threshold else threshold in
    if ltb 0 cfg.max_threshold && ltb cfg.max_threshold raised then cfg.max_threshold else raised

unfoldable batch_limit : TrimConfig → ℕ → ℕ
batch_limit cfg chd =
    let low = if ltb chd (2 ^ 23) then 2 ^ 23 else chd in
    let high = if ltb (2 ^ 28) low then 2 ^ 28 else low in
    if ltb 0 cfg.max_put && ltb cfg.max_put high then cfg.max_put else high

-- The loop over the eligible objects; the first one that does not fit ends it, unless it is the first.
pub choose_batch : ℕ → ℕ → ℕ → Bool → List TrimCandidate → List TrimCandidate
choose_batch threshold limit total any [] = []
choose_batch threshold limit total any (c ∷ cs) =
    let rest = choose_batch threshold limit total any cs in
    let more = choose_batch threshold limit (total + c.size) true cs in
    if not (ltb c.size threshold)
    then rest
    else if ltb limit (total + c.size) && any
    then []
    else c ∷ more

-- The container: the objects one after another, with their offsets.
unfoldable pub build_container :
    (ℕ → Result Error (List ℕ × ℕ))
    → ℕ
    → List TrimCandidate
    → Result Error (List ℕ × List ContainerEntry)
build_container read offset [] = ok ([], [])
build_container read offset (c ∷ cs) = do
  object ← read c.fid
  rest ← build_container read (offset + object.1) cs
  ok (object.0 ++ rest.0, record { fid = c.fid; offset = offset; size = object.1 } ∷ rest.1)

module _ {F : Type 0} where
  -- The objects of a packed table, in the tables of the disk.
  unfoldable pub load_entries :
      PackedTableHeader → ℕ → ℕ → List PackedTableEntry → DeviceState F → DeviceState F
  load_entries h table_fid table_size [] s = s
  load_entries h table_fid table_size (e ∷ es) s =
      load_entries h table_fid table_size es (record s {
        confirmed = insert e.fid (packed_ref h e) s.confirmed;
        packed =
            insert e.fid
              (record {
                container_fid = h.container_fid;
                container_size = h.container_size;
                offset = e.offset;
                logic_size = e.size;
                table_fid = table_fid;
                table_size = table_size;
              })
              s.packed;
      })

module _ (d : DeviceFile) where
  open d use {File, sync}

  -- WriteAt, of which only the error is looked at.
  unfoldable pub write_plain : File → ℕ → List ℕ → File × Option Error
  write_plain f off buf =
      let (f', w) = d.write_at f off buf in (f', if w.failed then some io_failed else none)

  unfoldable pub load_packed_tables : List ℕ → DeviceState File → DeviceState File × Option Error
  load_packed_tables [] s = (s, none)
  load_packed_tables (t ∷ ts) s = elim (get d s t) [
    | err e ↦ (s, some e)
    | ok (blob, table_size) ↦ elim (decode_packed_table blob) [
      | err e ↦ (s, some (decode_table t e))
      | ok (h, es) ↦
          if not (h.disk_id == s.disk_id) || h.container_size == 0
          then (s, some (bad_packed_table t))
          else load_packed_tables ts (load_entries h t table_size es s)
    ]
  ]

  -- An entry at the end of the index; the caller syncs.
  unfoldable pub append_tombstone : DeviceState File → ℕ → DeviceState File × Option Error
  append_tombstone s fid = elim (from_blk (build_index_entry fid 0 0)) [
    | err e ↦ (s, some e)
    | ok entry ↦ elim (ltb grid_start (s.index_end + length entry)) [
      | true ↦ (s, some (blk Errors.index_full))
      | false ↦
          let wrote = write_plain s.file s.index_end entry in
          elim wrote.1 [
            | some e ↦ (record s { file = wrote.0 }, some e)
            | none ↦ (record s { file = wrote.0; index_end = s.index_end + length entry }, none)
          ]
    ]
  ]

  unfoldable pub append_tombstones :
      List TrimCandidate → DeviceState File → DeviceState File × Option Error
  append_tombstones [] s = (s, none)
  append_tombstones (c ∷ cs) s =
      let done = append_tombstone s c.fid in
      elim done.1 [ some e ↦ (done.0, some e) | none ↦ append_tombstones cs done.0 ]

  -- The anchor of a packed table, and the table's entry behind it.
  unfoldable pub append_packed_anchor : DeviceState File → ℕ → ℕ → DeviceState File × Option Error
  append_packed_anchor s table_fid table_size =
      elim (from_blk (build_index_entry table_fid index_packed_sentinel packed_anchor_code)) [
        | err e ↦ (s, some e)
        | ok anchor ↦ elim (from_blk (build_index_entry table_fid table_size 0)) [
          | err e ↦ (s, some e)
          | ok real ↦ elim (ltb grid_start (s.index_end + (length anchor + length real))) [
            | true ↦ (s, some (blk Errors.index_full))
            | false ↦
                let first = write_plain s.file s.index_end anchor in
                let second = write_plain first.0 (s.index_end + length anchor) real in
                let synced = sync second.0 in
                elim first.1 [
                  | some e ↦ (record s { file = first.0 }, some e)
                  | none ↦ elim second.1 [
                    | some e ↦ (record s { file = second.0 }, some e)
                    | none ↦ elim synced.1 [
                      | false ↦ (record s { file = synced.0 }, some io_failed)
                      | true ↦ (
                        record s {
                          file = synced.0;
                          index_end = s.index_end + (length anchor + length real);
                        },
                        none,
                      )
                    ]
                  ]
                ]
          ]
        ]
      ]

  -- What was packed is checked against the tables; the bytes read are only counted.
  unfoldable pub verify_packed_candidates : List TrimCandidate → DeviceState File → Option Error
  verify_packed_candidates [] s = none
  verify_packed_candidates (c ∷ cs) s = elim (lookup c.fid s.packed) [
    | none ↦ some (bad_packed_ref c.fid)
    | some p ↦ elim (lookup c.fid s.confirmed) [
      | none ↦ some (bad_packed_ref c.fid)
      | some ref ↦
          if not ref.packed
          then some (bad_packed_ref c.fid)
          else (elim (place s.disk_bytes p.container_fid p.container_size) [
            | err e ↦ some e
            | ok a ↦
                if not (is_some (d.read_at s.file (a.addr + p.offset) p.logic_size))
                then some io_failed
                else if not (p.logic_size == c.size)
                then some (bad_packed_ref c.fid)
                else verify_packed_candidates cs s
          ])
    ]
  ]
