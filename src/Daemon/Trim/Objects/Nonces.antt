-- ===== src/Daemon/Trim/Objects/Nonces.antt =====
-- internal/daemon/trim.go: the retries of a packed table under another nonce.
use bsos.Base.Bytes.{le_bytes}
use bsos.Daemon.Trim.Objects.{write_file_object, container_loop, write_container_object}
use bsos.Daemon.Trim.Objects.Kept.{write_file_object_failed, write_file_object_adds}
use bsos.Daemon.Trim.Objects.Kept.{IsStored}
use bsos.Base.{
  ◌++◌, subst, zero, suc, ◌<◌, ℕ, ◌+◌, ◌≡◌, refl, List, Option, none, some, length, Result, ok, err,
}
use bsos.Daemon.Errors.{Error, conflict}
use bsos.Daemon.Device.{DeviceFile, DeviceState}
use bsos.Daemon.PackedTable.{PackedTableHeader, PackedTableEntry, encode_packed_table}
use bsos.Daemon.Trim.Objects.{attempts}
use bsos.Daemon.Trim.Objects.Kept.{IsKept, IsAdded, IsAdded-IsKept}

module _ (d : DeviceFile) (hash : List ℕ → ℕ) where
  open d use {File}

  -- The table with the given nonce.
  abbrev pub blob_of : PackedTableHeader → List PackedTableEntry → ℕ → List ℕ
  blob_of header entries nonce = encode_packed_table (record header { reserved = nonce }) entries

  -- One of the nonces from the given one on, `left` at most, made the table that was written.
  abbrev pub IsTabled :
      PackedTableHeader
      → List PackedTableEntry
      → ℕ
      → ℕ
      → DeviceState File
      → DeviceState File × Result Error (ℕ × ℕ)
      → Type 0
  IsTabled header entries left nonce s (t, err e) = IsKept s t
  IsTabled header entries left nonce s (t, ok (fid, size)) =
      (k : ℕ) × (k < left)
      × (fid ≡ hash (blob_of header entries (nonce + k)))
      × (size ≡ length (blob_of header entries (nonce + k)))
      × IsStored d (blob_of header entries (nonce + k)) fid s t

  -- The answer for a container: the new object, or nothing but other bytes on the device.
  abbrev pub IsContained : DeviceState File → DeviceState File × Result Error (ℕ × ℕ) → Type 0
  IsContained s (t, err e) = IsKept s t
  IsContained s (t, ok (fid, size)) = IsAdded fid size s t

  IsContained-IsKept :
      (s s' : DeviceState File) (r : DeviceState File × Result Error (ℕ × ℕ))
      → IsKept s s'
      → IsContained s' r
      → IsContained s r
  IsContained-IsKept s s' (t, err e) kept same =
      subst (λ x. t ≡ record x { file = t.file }) kept same
  IsContained-IsKept s s' (t, ok (fid, size)) kept added =
      IsAdded-IsKept d fid size s s' t kept added

  module _ (reads : List ℕ → List (Option (List ℕ))) where
    container_loop_round :
        (left nonce : ℕ) (s : DeviceState File) (content : List ℕ) (r : Option Error)
        → (write_file_object d hash reads s content).1 ≡ r
        → ((longer : List ℕ)
            → IsContained (write_file_object d hash reads s content).0 (
                container_loop d hash left reads
                  (nonce + 1)
                  (write_file_object d hash reads s content).0
                  longer))
        → IsContained s (container_loop d hash (suc left) reads nonce s content)
    unfolding container_loop
    container_loop_round left nonce s content none q later =
        rw (q, container_loop) (write_file_object_adds d hash reads s content q)
    container_loop_round left nonce s content (some conflict) q later =
        rw (q, container_loop)
          (IsContained-IsKept s (write_file_object d hash reads s content).0
            (container_loop d hash left reads (nonce + 1)
              (write_file_object d hash reads s content).0 (content ++ le_bytes 8 (nonce + 1)))
            (write_file_object_failed d hash reads s content conflict q)
            (later (content ++ le_bytes 8 (nonce + 1))))
    container_loop_round left nonce s content (some e) q later =
        rw (q, container_loop) (write_file_object_failed d hash reads s content e q)

    container_loop-IsContained :
        (left nonce : ℕ) (s : DeviceState File) (content : List ℕ)
        → IsContained s (container_loop d hash left reads nonce s content)
    unfolding container_loop
    container_loop-IsContained zero nonce s content = refl
    container_loop-IsContained (suc left) nonce s content =
        container_loop_round left nonce s content (write_file_object d hash reads s content).1 refl
          (container_loop-IsContained left (nonce + 1) (write_file_object d hash reads s content).0)

    pub write_container_object-IsContained :
        (s : DeviceState File) (content : List ℕ)
        → IsContained s (write_container_object d hash reads s content)
    unfolding write_container_object
    write_container_object-IsContained s content = container_loop-IsContained attempts 0 s content
