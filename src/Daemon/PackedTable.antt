-- ===== src/Daemon/PackedTable.antt =====
-- internal/daemon/packed_table.go: the table that says where Trim packed each object. Numbers are
-- little-endian uint64s; sums and products of the code wrap at 2 ^ 64.
pub mod RoundTrip
pub mod Checks
use bsos.Base.{
  ℕ, zero, suc, ◌+◌, ◌-◌, ◌*◌, ◌^◌, Bool, true, false, not, List, [], ◌∷◌, ◌++◌, map, length, take,
  drop, ltb, ◌==◌, if◌then◌else◌, Result, ok, err, ◌>>=◌, ◌>>◌, fail_if, add64, mul64,
}
use bsos.Base.Bytes.{le_bytes, le_value}
use bsos.Blk.Entry.{slice}

abbrev pub packed_table_version : ℕ
packed_table_version = 1

abbrev pub packed_table_header_size : ℕ
packed_table_header_size = 48

abbrev pub packed_table_entry_size : ℕ
packed_table_entry_size = 24

-- "NBPT"
abbrev pub packed_table_magic : List ℕ
packed_table_magic = 0x4e ∷ 0x42 ∷ 0x50 ∷ 0x54 ∷ []

pub record PackedTableHeader : Type 0 where
  pub disk_id : ℕ
  pub container_fid : ℕ
  pub container_size : ℕ
  pub entry_count : ℕ
  pub reserved : ℕ

pub record PackedTableEntry : Type 0 where
  pub fid : ℕ
  pub offset : ℕ
  pub size : ℕ

-- One constructor for each message; `cap_out_of_range` is the panic of `make` on a capacity past the
-- runtime's largest allocation, 2 ^ 48 bytes on a 64-bit host.
pub data TableError : Type 0 where
  too_small length_mismatch : ℕ → TableError
  invalid_magic unsupported_version invalid_header_size cap_out_of_range : TableError
  zero_size_entry exceeds_container : ℕ → TableError

unfoldable encode_entry : PackedTableEntry → List ℕ
encode_entry e = le_bytes 8 e.fid ++ (le_bytes 8 e.offset ++ le_bytes 8 e.size)

pub encode_entries : List PackedTableEntry → List ℕ
unfolding encode_entry
encode_entries [] = []
encode_entries (e ∷ es) = encode_entry e ++ encode_entries es

-- The 48 bytes before the entries.
pub encode_header : PackedTableHeader → ℕ → List ℕ
encode_header h count =
    packed_table_magic
    ++ (le_bytes 2 packed_table_version
        ++ (le_bytes 2 packed_table_header_size
            ++ (le_bytes 8 h.disk_id
                ++ (le_bytes 8 h.container_fid
                    ++ (le_bytes 8 h.container_size
                        ++ (le_bytes 8 count ++ le_bytes 8 h.reserved))))))

pub encode_packed_table : PackedTableHeader → List PackedTableEntry → List ℕ
unfolding encode_header encode_entries
encode_packed_table h entries = encode_header h (length entries) ++ encode_entries entries

abbrev pub same_bytes : List ℕ → List ℕ → Bool
same_bytes [] [] = true
same_bytes [] (y ∷ ys) = false
same_bytes (x ∷ xs) [] = false
same_bytes (x ∷ xs) (y ∷ ys) = if x == y then same_bytes xs ys else false

-- The loop over the entries: `n` are left, `i` are read, `rest` is blob[offset:].
unfoldable pub decode_entries : ℕ → ℕ → ℕ → List ℕ → Result TableError (List PackedTableEntry)
decode_entries zero i container_size rest = ok []
decode_entries (suc n) i container_size rest =
    let fid : ℕ = le_value (slice 0 8 rest) in
    let offset : ℕ = le_value (slice 8 16 rest) in
    let size : ℕ = le_value (slice 16 24 rest) in
    let later = decode_entries n (i + 1) container_size (drop packed_table_entry_size rest) in
    if size == 0
    then err (zero_size_entry i)
    else if ltb container_size (add64 offset size)
    then err (exceeds_container i)
    else (later >>= λ entries. ok (record { fid = fid; offset = offset; size = size } ∷ entries))

unfoldable pub decode_header : List ℕ → PackedTableHeader
decode_header blob = record {
  disk_id = le_value (slice 8 16 blob);
  container_fid = le_value (slice 16 24 blob);
  container_size = le_value (slice 24 32 blob);
  entry_count = le_value (slice 32 40 blob);
  reserved = le_value (slice 40 48 blob);
}

-- The length test, the allocation and the loop, once the header is read.
unfoldable pub decode_body :
    PackedTableHeader → List ℕ → Result TableError (PackedTableHeader × List PackedTableEntry)
decode_body h blob = do
  let expected = add64 packed_table_header_size (mul64 h.entry_count packed_table_entry_size)
  fail_if (not (length blob == expected)) (length_mismatch (length blob))
  fail_if (ltb (2 ^ 48) (h.entry_count * packed_table_entry_size)) cap_out_of_range
  entries ← decode_entries h.entry_count 0 h.container_size (drop packed_table_header_size blob)
  ok (h, entries)

unfoldable pub decode_packed_table :
    List ℕ → Result TableError (PackedTableHeader × List PackedTableEntry)
decode_packed_table blob = do
  fail_if (ltb (length blob) packed_table_header_size) (too_small (length blob))
  fail_if (not (same_bytes (slice 0 4 blob) packed_table_magic)) invalid_magic
  fail_if (not (le_value (slice 4 6 blob) == packed_table_version)) unsupported_version
  fail_if (not (le_value (slice 6 8 blob) == packed_table_header_size)) invalid_header_size
  decode_body (decode_header blob) blob
