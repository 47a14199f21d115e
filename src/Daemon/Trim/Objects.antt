-- ===== src/Daemon/Trim/Objects.antt =====
-- internal/daemon/trim.go: the container and its packed table become objects of the disk, without an
-- alias. `hash` is xxh3. The container is built in a temporary file of the operating system: `reads`
-- stands for what the Reads of a file with the given content give, one after another.

pub mod Kept
pub mod Nonces
use bsos.Base.{
  ℕ, zero, suc, ◌+◌, ◌-◌, ◌*◌, Bool, true, false, not, ◌||◌, List, [], ◌∷◌, ◌++◌, Option, none,
  some, length, ltb, ◌==◌, if◌then◌else◌, is_some, Result, ok, err, ◌>>=◌, ◌>>◌, fail_if,
}
use bsos.Base.Bytes.{le_bytes}
use bsos.Base.Maps.{lookup, insert}
use bsos.Blk.Errors
use bsos.Blk.Layout.{grid_start, slot_size}
use bsos.Blk.Addr.{Placement}
use bsos.Blk.Entry.{build_index_entry}
use bsos.Daemon.Errors.{Error, blk, conflict, empty_object, io_failed}
use bsos.Daemon.Chd.{any_overlap}
use bsos.Daemon.PackedTable.{PackedTableHeader, PackedTableEntry, encode_packed_table}
use bsos.Daemon.Replay.{place, extent_of, whole_ref}
use bsos.Daemon.Device.{DeviceFile, DeviceState, from_blk}
use bsos.Daemon.Stream.{write_zeros, write_rounds}
use bsos.Daemon.Trim.{write_plain}

-- The tests before anything is written: the object is not there, and its extent is free.
pub check_new : {F : Type 0} → DeviceState F → ℕ → ℕ → Result Error Placement
check_new s fid size = elim s.index_err [
  | some fault ↦ err fault
  | none ↦ do
    fail_if (is_some (lookup fid s.confirmed)) conflict
    p ← place s.disk_bytes fid size
    fail_if (any_overlap s.intervals (extent_of p) || any_overlap s.pending_intervals (extent_of p))
        conflict
    ok p
]

-- The object enters the tables behind its index entry of n bytes.
pub add_new : {F : Type 0} → DeviceState F → ℕ → ℕ → Placement → ℕ → DeviceState F
add_new s fid size p n = record s {
  confirmed = insert fid (whole_ref fid size size) s.confirmed;
  index_end = s.index_end + n;
  extents = record (s.extents) { intervals = s.intervals ++ (extent_of p ∷ []) };
}

abbrev pub attempts : ℕ
attempts = 256

module _ (d : DeviceFile) where
  open d use {File, sync}

  -- The zeros behind the object up to the end of its last slot, and Sync.
  pub write_pad : File → Placement → ℕ → File × Option Error
  write_pad f p size =
      let pad : ℕ = p.slots_needed * slot_size - size in
      let padded : File × Option Error =
        if ltb 0 pad then write_zeros d (write_rounds pad) f (p.addr + size) pad 0 else (f, none) in
      let synced = sync padded.0 in
      elim padded.1 [
        | some e ↦ (padded.0, some e)
        | none ↦ (synced.0, if synced.1 then none else some io_failed)
      ]

  -- The loop over the Reads of a file; one that is empty ends it.
  unfoldable write_reads : File → ℕ → ℕ → List (Option (List ℕ)) → ℕ → File × Option Error
  write_reads f addr size [] written = (f, none)
  write_reads f addr size (none ∷ rs) written =
      (f, if ltb written size then some io_failed else none)
  write_reads f addr size (some buf ∷ rs) written =
      let wrote = write_plain d f (addr + written) buf in
      elim (ltb written size) [
        | false ↦ (f, none)
        | true ↦ elim (length buf == 0) [
          | true ↦ (f, none)
          | false ↦ elim wrote.1 [
            | some e ↦ (wrote.0, some e)
            | none ↦ write_reads wrote.0 addr size rs (written + length buf)
          ]
        ]
      ]

  -- The index entry of an object whose bytes are on the disk.
  pub write_entry : DeviceState File → ℕ → ℕ → Placement → DeviceState File × Option Error
  write_entry s fid size p = elim (from_blk (build_index_entry fid size 0)) [
    | err e ↦ (s, some e)
    | ok entry ↦ elim (ltb grid_start (s.index_end + length entry)) [
      | true ↦ (s, some (blk Errors.index_full))
      | false ↦
          let wrote = write_plain d s.file s.index_end entry in
          let synced = sync wrote.0 in
          elim wrote.1 [
            | some e ↦ (record s { file = wrote.0 }, some e)
            | none ↦ elim synced.1 [
              | false ↦ (record s { file = synced.0 }, some io_failed)
              | true ↦ (add_new (record s { file = synced.0 }) fid size p (length entry), none)
            ]
          ]
    ]
  ]

  -- An object of that fid and size, whose bytes `payload` writes to an address.
  pub write_new :
      (File → ℕ → File × Option Error) → DeviceState File → ℕ → ℕ → DeviceState File × Option Error
  write_new payload s fid size = elim (check_new s fid size) [
    | err e ↦ (s, some e)
    | ok p ↦
        let wrote = payload s.file p.addr in
        let padded = write_pad wrote.0 p size in
        elim wrote.1 [
          | some e ↦ (record s { file = wrote.0 }, some e)
          | none ↦ elim padded.1 [
            | some e ↦ (record s { file = padded.0 }, some e)
            | none ↦ write_entry (record s { file = padded.0 }) fid size p
          ]
        ]
  ]

  module _ (hash : List ℕ → ℕ) where
    pub write_object : DeviceState File → List ℕ → DeviceState File × Option Error
    write_object s data' =
        if length data' == 0
        then (s, some empty_object)
        else write_new (λ f addr. write_plain d f addr data') s (hash data') (length data')

    pub write_file_object :
        (List ℕ → List (Option (List ℕ)))
        → DeviceState File
        → List ℕ
        → DeviceState File × Option Error
    write_file_object reads s content =
        if length content == 0
        then (s, some empty_object)
        else write_new (λ f addr. write_reads f addr (length content) (reads content) 0) s
            (hash content) (length content)

    -- A conflict gives the container 8 bytes more, and so another fid.
    pub container_loop :
        ℕ
        → (List ℕ → List (Option (List ℕ)))
        → ℕ
        → DeviceState File
        → List ℕ
        → DeviceState File × Result Error (ℕ × ℕ)
    container_loop zero reads nonce s content = (s, err conflict)
    container_loop (suc left) reads nonce s content =
        let tried = write_file_object reads s content in
        elim tried.1 [
          | none ↦ (tried.0, ok (hash content, length content))
          | some conflict ↦
              container_loop left reads (nonce + 1) tried.0 (content ++ le_bytes 8 (nonce + 1))
          | some e ↦ (tried.0, err e)
        ]

    pub write_container_object :
        (List ℕ → List (Option (List ℕ)))
        → DeviceState File
        → List ℕ
        → DeviceState File × Result Error (ℕ × ℕ)
    write_container_object reads s content = container_loop attempts reads 0 s content

    -- A conflict gives the table's header another nonce, and so the table another fid.
    pub table_loop :
        ℕ
        → ℕ
        → DeviceState File
        → PackedTableHeader
        → List PackedTableEntry
        → DeviceState File × Result Error (ℕ × ℕ)
    table_loop zero nonce s header entries = (s, err conflict)
    table_loop (suc left) nonce s header entries =
        let blob : List ℕ = encode_packed_table (record header { reserved = nonce }) entries in
        let tried = write_object s blob in
        elim tried.1 [
          | none ↦ (tried.0, ok (hash blob, length blob))
          | some conflict ↦ table_loop left (nonce + 1) tried.0 header entries
          | some e ↦ (tried.0, err e)
        ]

    pub write_packed_table_object :
        DeviceState File
        → PackedTableHeader
        → List PackedTableEntry
        → DeviceState File × Result Error (ℕ × ℕ)
    write_packed_table_object s header entries = table_loop attempts 0 s header entries
