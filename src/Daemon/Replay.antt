-- ===== src/Daemon/Replay.antt =====
-- internal/daemon/index_state.go: the index stream read back into the tables of a disk.
-- `Reader` is io.ReaderAt: an offset and a length, and the bytes or an error.
pub mod Sort
pub mod Extents
pub mod Append
pub mod Invariant
pub mod Overlay
use bsos.Base.{
  ℕ, zero, suc, ◌+◌, ◌-◌, ◌*◌, ◌/◌, Bool, true, false, not, ◌||◌, List, [], ◌∷◌, ◌++◌, Option, none,
  some, length, take, drop, ltb, leb, ◌==◌, if◌then◌else◌, is_some, Result, ok, err, ◌>>=◌, ◌>>◌,
  fail_if, min,
}
use bsos.Base.Maps.{Map, lookup, insert, delete, values}
use bsos.Blk.Layout.{grid_start, index_packed_sentinel, index_entry_size, index_start}
use bsos.Blk.Addr.{Placement, addr_for_fid}
use bsos.Blk.Entry.{
  is_zero_entry, pieces, IndexEntry, parse_index_entry, is_jump_indicator, is_packed_anchor,
  is_tombstone,
}
use bsos.Blk.Errors as BlkErrors
use bsos.Daemon.Errors.{
  Error, blk, io_failed, unexpected_eof, incomplete_alias, incomplete_packed, invalid_packed_entry,
  invalid_packed_anchor, invalid_alias_indicator, invalid_alias_target, duplicate_alias,
  duplicate_entry, unsupported_entry, read_table, decode_table, overlapping_extents,
}
use bsos.Daemon.Interval.{Interval, overlaps}
use bsos.Daemon.PackedTable.{PackedTableHeader, PackedTableEntry, TableError, decode_packed_table}
use Sort.{sort_extents}

pub record ObjectRef : Type 0 where
  pub fid : ℕ
  pub stored_size : ℕ
  pub size : ℕ
  pub offset : ℕ
  pub packed : Bool

pub record PackedRecord : Type 0 where
  pub container_fid : ℕ
  pub container_size : ℕ
  pub offset : ℕ
  pub logic_size : ℕ
  pub table_fid : ℕ
  pub table_size : ℕ

-- The variables of the scan.
pub record ReplayState : Type 0 where
  pub refs : Map ObjectRef
  pub packed : Map PackedRecord
  pub extents_map : Map Interval
  pub alias : Option IndexEntry
  pub pending_packed : Option IndexEntry
  pub packed_table_fids : List ℕ

abbrev pub Reader : Type 0
Reader = ℕ → ℕ → Option (List ℕ)

abbrev pub empty_state : ReplayState
empty_state = record {
  refs = [];
  packed = [];
  extents_map = [];
  alias = none;
  pending_packed = none;
  packed_table_fids = [];
}

-- The fields that a literal leaves out are zero.
abbrev pub whole_ref : ℕ → ℕ → ℕ → ObjectRef
whole_ref fid stored_size size = record {
  fid = fid;
  stored_size = stored_size;
  size = size;
  offset = 0;
  packed = false;
}

abbrev pub extent_of : Placement → Interval
extent_of p = record { start = p.slot_index; end = p.slot_index + p.slots_needed - 1 }

abbrev pub place : ℕ → ℕ → ℕ → Result Error Placement
place disk_bytes fid size = elim (addr_for_fid disk_bytes fid size) [
  | ok p ↦ ok p
  | err e ↦ err (blk e)
]

-- The object and its extent enter the tables.
abbrev pub add_object : ReplayState → ℕ → ℕ → Placement → ReplayState
add_object st fid size p = record st {
  refs = insert fid (whole_ref fid size size) st.refs;
  extents_map = insert fid (extent_of p) st.extents_map;
}

-- The entry behind a packed anchor.
pub replay_table : ℕ → ReplayState → IndexEntry → Result Error ReplayState
replay_table disk_bytes st e = do
  fail_if (not (e.jump_code == 0) || e.size == 0) invalid_packed_entry
  p ← place disk_bytes e.fid e.size
  ok (record (add_object st e.fid e.size p) {
    pending_packed = none;
    packed_table_fids = st.packed_table_fids ++ (e.fid ∷ []);
  })

-- The alias that waits for its target, if there is one.
pub replay_alias : ReplayState → Option IndexEntry → IndexEntry → Result Error ReplayState
replay_alias st none e = ok st
replay_alias st (some a) e = do
  fail_if (a.fid == e.fid || ltb e.size 2) invalid_alias_target
  ok (record st { refs = insert a.fid (whole_ref e.fid e.size (e.size - 1)) st.refs; alias = none })

-- An ordinary object.
pub replay_object : ℕ → ReplayState → IndexEntry → Result Error ReplayState
unfolding replay_alias
replay_object disk_bytes st e = do
  fail_if (not (e.jump_code == 0) || (e.size == 0 || leb index_packed_sentinel e.size))
      (unsupported_entry e.fid)
  fail_if (is_some (lookup e.fid st.refs)) (duplicate_entry e.fid)
  p ← place disk_bytes e.fid e.size
  replay_alias (add_object st e.fid e.size p) st.alias e

unfoldable pub replay_unpaired : ℕ → ReplayState → IndexEntry → Result Error ReplayState
unfolding replay_object
replay_unpaired disk_bytes st e =
    if is_packed_anchor e
    then (do
      fail_if (is_some st.alias || e.fid == 0) invalid_packed_anchor
      ok (record st { pending_packed = some e }))
    else if is_jump_indicator e
    then (do
      fail_if (is_some st.alias || e.fid == 0) invalid_alias_indicator
      fail_if (is_some (lookup e.fid st.refs)) (duplicate_alias e.fid)
      ok (record st { alias = some e }))
    else if is_tombstone e
    then ok (record st {
      refs = delete e.fid st.refs;
      packed = delete e.fid st.packed;
      extents_map = delete e.fid st.extents_map;
    })
    else replay_object disk_bytes st e

-- One round of the scan.
unfoldable pub replay_entry : ℕ → ReplayState → IndexEntry → Result Error ReplayState
unfolding replay_table replay_unpaired
replay_entry disk_bytes st e = elim st.pending_packed [
  | some anchor ↦ replay_table disk_bytes st e
  | none ↦ replay_unpaired disk_bytes st e
]

-- The scan stops at the first zero entry, at its offset, or wants more bytes.
pub data Scan : Type 0 where
  stopped : ℕ → ReplayState → Scan
  more : ReplayState → Scan

-- The inner loop: the 16-byte pieces of the buffer, the first at offset `off`.
unfoldable pub replay_entries : ℕ → ℕ → List (List ℕ) → ReplayState → Result Error Scan
replay_entries disk_bytes off [] st = ok (more st)
replay_entries disk_bytes off (raw ∷ raws) st =
    if is_zero_entry raw then ok (stopped off st) else elim (parse_index_entry raw) [
      | err e ↦ err (blk e)
      | ok e ↦
          (replay_entry disk_bytes st e >>= λ st'.
          replay_entries disk_bytes (off + index_entry_size) raws st')
    ]

abbrev pub packed_ref : PackedTableHeader → PackedTableEntry → ObjectRef
packed_ref h e = record {
  fid = h.container_fid;
  stored_size = h.container_size;
  size = e.size;
  offset = e.offset;
  packed = true;
}

-- The objects of one packed table, each pointing into the container.
pub add_packed : PackedTableHeader → ℕ → ℕ → List PackedTableEntry → ReplayState → ReplayState
add_packed h table_fid table_size [] st = st
add_packed h table_fid table_size (e ∷ es) st = add_packed h table_fid table_size es (record st {
  refs = insert e.fid (packed_ref h e) st.refs;
  packed =
      insert e.fid
        (record {
          container_fid = h.container_fid;
          container_size = h.container_size;
          offset = e.offset;
          logic_size = e.size;
          table_fid = table_fid;
          table_size = table_size;
        })
        st.packed;
})

abbrev pub read_blob : Reader → ℕ → ℕ → ℕ → Result Error (List ℕ)
read_blob read table_fid addr size = elim (read addr size) [
  | none ↦ err (read_table table_fid)
  | some blob ↦ ok blob
]

abbrev pub decode_blob : ℕ → List ℕ → Result Error (PackedTableHeader × List PackedTableEntry)
decode_blob table_fid blob = elim (decode_packed_table blob) [
  | ok t ↦ ok t
  | err e ↦ err (decode_table table_fid e)
]

-- One packed table whose object is still indexed.
pub expand_table : Reader → ℕ → ℕ → ObjectRef → ReplayState → Result Error ReplayState
expand_table read disk_bytes table_fid ref st = do
  p ← place disk_bytes ref.fid ref.stored_size
  blob ← read_blob read table_fid p.addr ref.size
  t ← decode_blob table_fid blob
  ok (add_packed t.0 table_fid ref.size t.1 st)

-- The packed tables in the order of their anchors; one that is no longer indexed is passed over.
unfoldable pub expand_tables : Reader → ℕ → List ℕ → ReplayState → Result Error ReplayState
expand_tables read disk_bytes [] st = ok st
expand_tables read disk_bytes (t ∷ ts) st = elim (lookup t st.refs) [
  | none ↦ expand_tables read disk_bytes ts st
  | some ref ↦
      (expand_table read disk_bytes t ref st >>= λ st'. expand_tables read disk_bytes ts st')
]

-- Neighbours in the sorted list.
unfoldable pub any_neighbours_overlap : List Interval → Bool
any_neighbours_overlap [] = false
any_neighbours_overlap (a ∷ []) = false
any_neighbours_overlap (a ∷ b ∷ ivs) =
    if overlaps a b then true else any_neighbours_overlap (b ∷ ivs)

pub record Replayed : Type 0 where
  pub confirmed : Map ObjectRef
  pub packed : Map PackedRecord
  pub intervals : List Interval
  pub index_end : ℕ

unfoldable pub finish : Reader → ℕ → ReplayState → ℕ → Result Error Replayed
finish read disk_bytes st end = do
  fail_if (is_some st.alias) incomplete_alias
  fail_if (is_some st.pending_packed) incomplete_packed
  st' ← expand_tables read disk_bytes st.packed_table_fids st
  let extents = sort_extents (values st'.extents_map)
  fail_if (any_neighbours_overlap extents) overlapping_extents
  ok (record { confirmed = st'.refs; packed = st'.packed; intervals = extents; index_end = end })

abbrev replay_chunk : ℕ
replay_chunk = 4 * 1024 * 1024

-- The outer loop, `rounds` chunks at most. The last chunk is shorter.
unfoldable replay_chunks : ℕ → Reader → ℕ → ℕ → ReplayState → Result Error Replayed
replay_chunks zero read disk_bytes off st = finish read disk_bytes st grid_start
replay_chunks (suc rounds) read disk_bytes off st =
    let size : ℕ = min replay_chunk (grid_start - off) in
    let scan = λ (buf : List ℕ). replay_entries disk_bytes off (pieces (size / 16) buf) st in
    let next = λ (st' : ReplayState). replay_chunks rounds read disk_bytes (off + size) st' in
    if leb grid_start off then finish read disk_bytes st grid_start else elim (read off size) [
      | none ↦ err io_failed
      | some buf ↦
          if not (length buf == size)
          then err unexpected_eof
          else (scan buf >>= λ s. elim s [
            | stopped end st' ↦ finish read disk_bytes st' end
            | more st' ↦ next st'
          ])
    ]

-- The index stream takes 64 chunks.
unfoldable replay_index : Reader → ℕ → Result Error Replayed
unfolding replay_chunks
replay_index read disk_bytes = replay_chunks 64 read disk_bytes index_start empty_state
