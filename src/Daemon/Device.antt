-- ===== src/Daemon/Device.antt =====
-- internal/daemon/state.go: one disk. A method returns the new state beside its result; the disk's
-- lock makes it one step. `DeviceFile` is the interface deviceFile, which os.File implements.
pub mod Guards
pub mod Recovery
pub mod Crash
use bsos.Base.{
  ℕ, ◌+◌, ◌-◌, Bool, true, false, not, ◌&&◌, ◌||◌, List, [], ◌∷◌, ◌++◌, Option, none, some, length,
  replicate, ltb, ◌==◌, if◌then◌else◌, is_some, Result, ok, err, ◌>>=◌, ◌>>◌, fail_if,
}
use bsos.Base.Maps.{Map, lookup, insert}
use bsos.Blk.Layout.{grid_start, index_jump_sentinel}
use bsos.Blk.Entry.{build_index_entry}
use bsos.Daemon.Errors.{
  Error, blk, conflict, not_found, empty_object, invalid_alias, io_failed, index_fault,
  unexpected_eof,
}
use bsos.Daemon.Interval.{Interval, Extents, reserve_extent, confirm_extent, release_extent}
use bsos.Daemon.Replay.{ObjectRef, PackedRecord, place, extent_of, whole_ref}
use bsos.Blk.Errors

-- WriteAt's count and whether it returned an error.
pub record Written : Type 0 where
  pub count : ℕ
  pub failed : Bool

-- Sync answers whether it succeeded.
pub record DeviceFile : Type 1 where
  pub File : Type 0
  pub read_at : File → ℕ → ℕ → Option (List ℕ)
  pub write_at : File → ℕ → List ℕ → File × Written
  pub sync : File → File × Bool

-- `direct_file` is the WriteAt of the handle that bypasses the page cache, where it is open.
pub record DeviceState (F : Type 0) : Type 0 where
  pub file : F
  pub direct_file : Option (F → ℕ → List ℕ → F × Written)
  pub disk_id : ℕ
  pub disk_bytes : ℕ
  pub extents : Extents
  pub open extents use *
  pub confirmed : Map ObjectRef
  pub packed : Map PackedRecord
  pub index_end : ℕ

pub record PreparedWrite : Type 0 where
  pub fid : ℕ
  pub size : ℕ
  pub addr : ℕ
  pub iv : Interval

abbrev pub alias_jump_code : ℕ
alias_jump_code = 1

-- A call of internal/blk inside the daemon.
abbrev pub from_blk {ℓ} : {A : Type ℓ} → Result Errors.Error A → Result Error A
from_blk (ok a) = ok a
from_blk (err e) = err (blk e)

-- The bytes that a commit appends: the entry of the object, behind a jump indicator for an alias.
unfoldable pub commit_bytes : PreparedWrite → ℕ → Result Error (List ℕ)
commit_bytes pw alias_for = do
  entry ← from_blk (build_index_entry pw.fid pw.size 0)
  if alias_for == 0
      then ok entry
      else (from_blk (build_index_entry alias_for index_jump_sentinel alias_jump_code) >>= λ jump.
          ok (jump ++ entry))

abbrev pub bad_alias : PreparedWrite → ℕ → Bool
bad_alias pw alias_for = not (alias_for == 0) && (alias_for == pw.fid || ltb pw.size 2)

-- The references of the object and of its alias, published together.
unfoldable pub publish : Map ObjectRef → PreparedWrite → ℕ → Map ObjectRef
publish refs pw alias_for =
    let own = insert pw.fid (whole_ref pw.fid pw.size pw.size) refs in
    if alias_for == 0 then own else insert alias_for (whole_ref pw.fid pw.size (pw.size - 1)) own

module _ {F : Type 0} where
  unfoldable pub prepare_write :
      DeviceState F → ℕ → ℕ → Result Error (DeviceState F × PreparedWrite)
  prepare_write s fid size = do
    fail_if (size == 0) empty_object
    p ← place s.disk_bytes fid size
    extents ← reserve_extent s.extents (extent_of p)
    ok (
      record s { extents = extents },
      record { fid = fid; size = size; addr = p.addr; iv = extent_of p },
    )

  unfoldable pub abort : DeviceState F → PreparedWrite → DeviceState F
  abort s pw = record s { extents = release_extent s.extents pw.iv }

  unfoldable pub lookup_ref : DeviceState F → ℕ → Result Error ObjectRef
  lookup_ref s fid = elim s.index_err [
    | some fault ↦ err fault
    | none ↦ elim (lookup fid s.confirmed) [ none ↦ err not_found | some ref ↦ ok ref ]
  ]

  unfoldable head : DeviceState F → ℕ → Result Error ℕ
  head s fid = do ref ← lookup_ref s fid; ok ref.size

  unfoldable pub is_confirmed : DeviceState F → ℕ → Result Error Bool
  is_confirmed s fid = elim (lookup_ref s fid) [
    | ok ref ↦ ok true
    | err not_found ↦ ok false
    | err e ↦ err e
  ]

  -- The tests before anything is written.
  unfoldable pub check_commit : DeviceState F → PreparedWrite → ℕ → Result Error (List ℕ)
  check_commit s pw alias_for = do
    fail_if (bad_alias pw alias_for) invalid_alias
    elim s.index_err [
      | some fault ↦ err fault
      | none ↦ do
        fail_if
            (is_some (lookup pw.fid s.confirmed)
              || (not (alias_for == 0) && is_some (lookup alias_for s.confirmed)))
            conflict
        entry ← commit_bytes pw alias_for
        fail_if (ltb grid_start (s.index_end + length entry)) (blk Errors.index_full)
        ok entry
    ]

  unfoldable pub commit_tables : DeviceState F → PreparedWrite → ℕ → ℕ → DeviceState F
  commit_tables s pw alias_for length_entry = record s {
    confirmed = publish s.confirmed pw alias_for;
    index_end = s.index_end + length_entry;
    extents = confirm_extent s.extents pw.iv;
  }

module _ (d : DeviceFile) where
  open d use {File, read_at, write_at, sync}

  -- WriteAt of all the bytes, then Sync; a short write is an error.
  unfoldable pub write_synced : File → ℕ → List ℕ → File × Bool
  write_synced f off bytes =
      let (f', w) = write_at f off bytes in
      if w.failed || not (w.count == length bytes) then (f', false) else sync f'

  -- The tail is restored before the extent may be used again; where that fails the index is faulty.
  pub roll_back : DeviceState File → ℕ → DeviceState File
  roll_back s n =
      let (f, cleared) = write_synced s.file s.index_end (replicate n 0) in
      if cleared
      then record s { file = f }
      else record s { file = f; extents = record (s.extents) { index_err = some index_fault } }

  unfoldable pub write_commit :
      DeviceState File → PreparedWrite → ℕ → List ℕ → DeviceState File × Option Error
  write_commit s pw alias_for entry =
      let (f, flushed) = sync s.file in
      let (f', written) = write_synced f s.index_end entry in
      if not flushed
      then (record s { file = f }, some io_failed)
      else if written
      then (commit_tables (record s { file = f' }) pw alias_for (length entry), none)
      else (roll_back (record s { file = f' }) (length entry), some io_failed)

  unfoldable pub commit : DeviceState File → PreparedWrite → ℕ → DeviceState File × Option Error
  commit s pw alias_for = elim (check_commit s pw alias_for) [
    | err e ↦ (s, some e)
    | ok entry ↦ write_commit s pw alias_for entry
  ]

  unfoldable pub read_range : DeviceState File → ObjectRef → ℕ → ℕ → Result Error (List ℕ)
  read_range s ref start end = do
    p ← place s.disk_bytes ref.fid ref.stored_size
    elim (read_at s.file (p.addr + ref.offset + start) (end - start)) [
      | none ↦ err io_failed
      | some buf ↦ if length buf == end - start then ok buf else err unexpected_eof
    ]

  unfoldable pub get : DeviceState File → ℕ → Result Error (List ℕ × ℕ)
  get s fid = do ref ← lookup_ref s fid; data' ← read_range s ref 0 ref.size; ok (data', ref.size)
