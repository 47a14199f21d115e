-- ===== src/Daemon/Trim/Pack/Confirmed.antt =====
-- internal/daemon/trim.go: the objects of a disk while its small objects are packed.
use bsos.Base.{◌++◌, ℕ, ◌≡◌, ◌⊎◌, Bool, true, List, ◌∷◌, Option, some, ok}
use bsos.Base.Maps.{lookup}
use bsos.Daemon.Errors.{Error}
use bsos.Daemon.PackedTable.{PackedTableHeader, PackedTableEntry, decode_packed_table}
use bsos.Daemon.Replay.{ObjectRef}
use bsos.Daemon.Device.{DeviceFile, DeviceState, get}
use bsos.Daemon.Trim.{TrimCandidate}
use bsos.Daemon.Trim.Pack.{Stage, expand_table_object}

-- Every reference is as it was.
abbrev pub KeepsObjects : {F : Type 0} → DeviceState F → DeviceState F → Type 0
KeepsObjects s t =
    (fid : ℕ) (r : ObjectRef) → lookup fid s.confirmed ≡ some r → lookup fid t.confirmed ≡ some r

-- The reference that an entry of a packed table stands for.
abbrev pub into_container : PackedTableHeader → PackedTableEntry → ObjectRef
into_container header e = record {
  fid = header.container_fid;
  stored_size = header.container_size;
  size = e.size;
  offset = e.offset;
  packed = true;
}

-- The reference that one of the entries has for a fid.
abbrev pub IsListed : PackedTableHeader → List PackedTableEntry → ℕ → Option ObjectRef → Type 0
IsListed header entries fid o =
    (before : List PackedTableEntry) × (e : PackedTableEntry) × (after : List PackedTableEntry)
    × (entries ≡ before ++ (e ∷ after))
    × (e.fid ≡ fid)
    × (o ≡ some (into_container header e))

module _ (d : DeviceFile) where
  open d use {File}

  -- After the table of a fid was loaded: nothing is new, or the table was read back from the disk and
  -- decoded, it is one of this disk, and each reference is as it was or is one of its entries'.
  abbrev pub IsLoaded : DeviceState File → ℕ → ℕ → Option ObjectRef → Option ObjectRef → Type 0
  IsLoaded s table_fid fid old o =
      (o ≡ old)
      ⊎ ((blob : List ℕ) × (size : ℕ) × (header : PackedTableHeader) × (entries : List
            PackedTableEntry)
          × (get d s table_fid ≡ ok (blob, size))
          × (decode_packed_table blob ≡ ok (header, entries))
          × (header.disk_id ≡ s.disk_id)
          × IsListed header entries fid o)

  module _ (hash : List ℕ → ℕ) where
    module _ (reads : List ℕ → List (Option (List ℕ))) (stops : Stage → Bool)
        (candidates : List TrimCandidate) where
      abbrev expanded : DeviceState File → ℕ → DeviceState File × Option Error
      expanded s table_fid = expand_table_object d hash reads stops candidates s table_fid

      -- Up to the loading of the table, every reference is as it was.
      abbrev pub Reaches : DeviceState File → DeviceState File × Option Error → Type 0
      Reaches s out =
          KeepsObjects s out.0
          ⊎ ((s' : DeviceState File) × (table_fid : ℕ) × KeepsObjects s s'
              × (out ≡ expanded s' table_fid))

      -- The reference of a fid behind a packing: the old one, or, where the packing came to the
      -- loading of its table, one of the entries of that table as it was read back.
      abbrev pub IsStill : ℕ → ObjectRef → DeviceState File × Option Error → Type 0
      IsStill fid ref out =
          (lookup fid out.0.confirmed ≡ some ref)
          ⊎ ((s' : DeviceState File) × (table_fid : ℕ) × (out ≡ expanded s' table_fid)
              × IsLoaded s' table_fid fid (some ref) (lookup fid out.0.confirmed))
