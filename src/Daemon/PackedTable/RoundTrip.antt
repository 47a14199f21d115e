-- ===== src/Daemon/PackedTable/RoundTrip.antt =====
-- internal/daemon/packed_table.go: decodePackedTable on what encodePackedTable writes.
use bsos.Base.{
  ℕ, ◌+◌, ◌*◌, ◌^◌, ◌≤◌, ◌<◌, ◌≡◌, refl, List, [], ◌∷◌, length, All, IsU64, add64, ok, arith,
}
use bsos.Base.Bytes.{le_bytes, le_value, le_value-le_bytes}
use bsos.Daemon.PackedTable.{
  PackedTableHeader, PackedTableEntry, encode_entries, encode_packed_table, decode_entries,
  decode_packed_table, decode_header, decode_body,
}

-- What the decoder wants of an entry: it is not empty, and its end, as a uint64, is in the container.
pub record IsEntry (container_size : ℕ) (e : PackedTableEntry) : Type 0 where
  pub fid_range : IsU64 e.fid
  pub offset_range : IsU64 e.offset
  pub size_range : IsU64 e.size
  pub nonempty : 0 < e.size
  pub inside : add64 e.offset e.size ≤ container_size

length-encode_entries : (es : List PackedTableEntry) → length (encode_entries es) ≡ 24 * length es
unfolding encode_entries le_bytes
length-encode_entries [] = omega arith
length-encode_entries (e ∷ es) = omega (arith, length-encode_entries es)

decode-encode_entries :
    (container_size i : ℕ) (es : List PackedTableEntry)
    → All (IsEntry container_size) es
    → decode_entries (length es) i container_size (encode_entries es) ≡ ok es
unfolding decode_entries encode_entries le_bytes
decode-encode_entries c i [] h = refl
decode-encode_entries c i (e ∷ es) (he, hes) =
    rw
      (
        le_value-le_bytes 8 e.size he.size_range,
        le_value-le_bytes 8 e.offset he.offset_range,
        le_value-le_bytes 8 e.fid he.fid_range,
      )
      (ground (arith, decode-encode_entries c (i + 1) es hes))

-- The largest table that the runtime can hold decodes: 2 ^ 48 bytes of entries.
pub record IsTable (h : PackedTableHeader) (es : List PackedTableEntry) : Type 0 where
  pub disk_range : IsU64 h.disk_id
  pub fid_range : IsU64 h.container_fid
  pub size_range : IsU64 h.container_size
  pub reserved_range : IsU64 h.reserved
  pub counted : h.entry_count ≡ length es
  pub fits : length es * 24 ≤ 2 ^ 48
  pub entries : All (IsEntry h.container_size) es

pub le_value_pair : (a : ℕ) → le_value (a ∷ 0 ∷ []) ≡ a
unfolding le_value
le_value_pair a = omega arith

-- A packed table whose numbers are 64-bit, whose entries are not empty and end inside the
-- container, and whose count is right is read back from the bytes that it is written as.
pub decode-encode :
    (h : PackedTableHeader) (es : List PackedTableEntry)
    → IsTable h es
    → decode_packed_table (encode_packed_table h es) ≡ ok (h, es)
unfolding decode_packed_table decode_body decode_header encode_packed_table le_bytes
decode-encode h es t =
    rw
      (
        le_value_pair 1,
        le_value_pair 48,
        le_value-le_bytes 8 h.disk_id t.disk_range,
        le_value-le_bytes 8 h.container_fid t.fid_range,
        le_value-le_bytes 8 h.container_size t.size_range,
        le_value-le_bytes 8 h.reserved t.reserved_range,
        le_value-le_bytes 8 (length es) (omega (arith, t.fits)),
      )
      (ground (
        arith,
        t.fits,
        t.counted,
        length-encode_entries es,
        decode-encode_entries h.container_size 0 es t.entries,
      ))
