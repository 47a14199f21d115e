-- ===== src/Daemon/PackedTable/Checks.antt =====
-- internal/daemon/packed_table.go: the tests of decodePackedTable.
use bsos.Base.{
  ℕ, zero, suc, ◌+◌, ◌*◌, ◌≤◌, ◌<◌, ◌≡◌, refl, List, [], ◌∷◌, length, drop, All, IsU64, add64,
  mul64, ok, err, arith, Bool, true, false, not, ltb, ◌==◌, ◌>>◌, fail_if,
}
use bsos.Base.Bytes.{le_bytes, le_value, le_value-le_bytes}
use bsos.Blk.Entry.{slice}
use bsos.Daemon.PackedTable.{
  PackedTableHeader, PackedTableEntry, cap_out_of_range, encode_header, decode_entries,
  decode_packed_table, decode_header, decode_body, same_bytes, packed_table_magic, too_small,
  invalid_magic, unsupported_version, invalid_header_size,
}
use bsos.Daemon.PackedTable.RoundTrip.{le_value_pair}

-- The tests that each accepted entry has passed.
abbrev pub IsChecked : ℕ → PackedTableEntry → Type 0
IsChecked container_size e = (0 < e.size) × (add64 e.offset e.size ≤ container_size)

decode_entries_sound :
    (n i container_size : ℕ) (rest : List ℕ) (es : List PackedTableEntry)
    → decode_entries n i container_size rest ≡ ok es
    → (length es ≡ n) × All (IsChecked container_size) es
unfolding decode_entries
decode_entries_sound zero i c rest [] h = (refl, tt)
decode_entries_sound zero i c rest (e ∷ es) h = cc
decode_entries_sound (suc n) i c rest [] h = absurd (ground arith)
decode_entries_sound (suc n) i c rest (e ∷ es) h =
    ground (arith, decode_entries_sound n (i + 1) c (drop 24 rest) es)

decode_body_sound :
    (g h : PackedTableHeader) (blob : List ℕ) (es : List PackedTableEntry)
    → decode_body g blob ≡ ok (h, es)
    → (length blob ≡ 48 + length es * 24)
      × (length es ≡ h.entry_count)
      × All (IsChecked h.container_size) es
unfolding decode_body
decode_body_sound g h blob es e =
    ground (arith, decode_entries_sound g.entry_count 0 g.container_size (drop 48 blob) es)

-- Past the four tests of the header, the body decides.
decode_packed_table_body :
    (blob : List ℕ) {r : PackedTableHeader × List PackedTableEntry}
    → decode_packed_table blob ≡ ok r
    → decode_body (decode_header blob) blob ≡ ok r
unfolding decode_packed_table
decode_packed_table_body blob {r} e =
    go (ltb (length blob) 48) (not (same_bytes (slice 0 4 blob) packed_table_magic))
      (not (le_value (slice 4 6 blob) == 1)) (not (le_value (slice 6 8 blob) == 48)) e
  where
    go :
        (a b c d : Bool)
        → (fail_if a (too_small (length blob))
            >> (fail_if b invalid_magic
                >> (fail_if c unsupported_version
                    >> (fail_if d invalid_header_size >> decode_body (decode_header blob) blob))))
          ≡ ok r
        → decode_body (decode_header blob) blob ≡ ok r
    go true b c d h = cc
    go false true c d h = cc
    go false false true d h = cc
    go false false false true h = cc
    go false false false false h = h

-- A blob that decodes has exactly the length that its entry count says, and every entry of it is
-- not empty and has an end, as a wrapping 64-bit sum, inside the container.
pub decode_packed_table_sound :
    (blob : List ℕ) (h : PackedTableHeader) (es : List PackedTableEntry)
    → decode_packed_table blob ≡ ok (h, es)
    → (length blob ≡ 48 + length es * 24)
      × (length es ≡ h.entry_count)
      × All (IsChecked h.container_size) es
decode_packed_table_sound blob h es e =
    decode_body_sound (decode_header blob) h blob es (decode_packed_table_body blob e)

-- A header alone, whose entry count is positive and times 24 is a multiple of 2 ^ 64, passes the
-- length test and makes the decoder allocate out of range, which panics: the test compares with the
-- wrapped product.
pub decode_panics :
    (h : PackedTableHeader) (count : ℕ)
    → IsU64 count
    → 0 < count
    → mul64 count 24 ≡ 0
    → decode_packed_table (encode_header h count) ≡ err cap_out_of_range
unfolding decode_packed_table decode_body decode_header encode_header le_bytes
decode_panics h count hc pos wraps =
    rw (le_value_pair 1, le_value_pair 48, le_value-le_bytes 8 count (omega arith)) (ground arith)
