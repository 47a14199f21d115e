-- ===== src/Blk/Entry/Codec.antt =====
-- internal/blk/index_v2.go: BuildIndexEntry against ParseIndexEntry.
use bsos.Base.{
  ℕ, ◌+◌, ◌*◌, ◌/◌, ◌%◌, ◌^◌, ◌≤◌, ◌<◌, ◌≡◌, refl, ap, ◌∙◌, ◌⊎◌, true, false, List, [], ◌∷◌, ◌++◌,
  length, IsU64, ltb, Bool-cases, inl, inr, Result, ok, err, arith,
}
use bsos.Base.Bytes.{le_bytes, le_value-le_bytes, bit_or_disjoint}
use bsos.Blk.Layout.{index_jump_sentinel, index_packed_sentinel, packed_anchor_code}
use bsos.Blk.Errors.{Error, size_limit, reserved_sentinel}
use bsos.Blk.Entry.{
  is_zero_entry, IndexEntry, decode_size7, encode_size7, parse_index_entry, build_index_entry,
}

-- A decoded size is the little-endian number of its seven bytes.
decode_size7_sum :
    (b0 b1 b2 b3 b4 b5 b6 : ℕ)
    → b0 < 256
    → b1 < 256
    → b2 < 256
    → b3 < 256
    → b4 < 256
    → b5 < 256
    → decode_size7 (b0 ∷ b1 ∷ b2 ∷ b3 ∷ b4 ∷ b5 ∷ b6 ∷ [])
      ≡ b0 + b1 * 2 ^ 8 + b2 * 2 ^ 16 + b3 * 2 ^ 24 + b4 * 2 ^ 32 + b5 * 2 ^ 40 + b6 * 2 ^ 48
unfolding decode_size7
decode_size7_sum b0 b1 b2 b3 b4 b5 b6 h0 h1 h2 h3 h4 h5 = rw (
  bit_or_disjoint 8 b0 b1 (omega arith),
  bit_or_disjoint 16 (b0 + b1 * 2 ^ 8) b2 (omega arith),
  bit_or_disjoint 24 (b0 + b1 * 2 ^ 8 + b2 * 2 ^ 16) b3 (omega arith),
  bit_or_disjoint 32 (b0 + b1 * 2 ^ 8 + b2 * 2 ^ 16 + b3 * 2 ^ 24) b4 (omega arith),
  bit_or_disjoint 40 (b0 + b1 * 2 ^ 8 + b2 * 2 ^ 16 + b3 * 2 ^ 24 + b4 * 2 ^ 32) b5 (omega arith),
  bit_or_disjoint 48 (b0 + b1 * 2 ^ 8 + b2 * 2 ^ 16 + b3 * 2 ^ 24 + b4 * 2 ^ 32 + b5 * 2 ^ 40) b6
      (omega arith),
)

-- The seven bytes that a size is written as.
abbrev pub size_bytes : ℕ → List ℕ
size_bytes s =
    (s % 256)
    ∷ (s / 2 ^ 8 % 256)
    ∷ (s / 2 ^ 16 % 256)
    ∷ (s / 2 ^ 24 % 256)
    ∷ (s / 2 ^ 32 % 256)
    ∷ (s / 2 ^ 40 % 256)
    ∷ (s / 2 ^ 48 % 256)
    ∷ []

decode_size7-size_bytes : (s : ℕ) → s < 2 ^ 56 → decode_size7 (size_bytes s) ≡ s
decode_size7-size_bytes s h =
    decode_size7_sum (s % 256) (s / 2 ^ 8 % 256) (s / 2 ^ 16 % 256) (s / 2 ^ 24 % 256)
      (s / 2 ^ 32 % 256) (s / 2 ^ 40 % 256) (s / 2 ^ 48 % 256) (omega arith) (omega arith)
      (omega arith) (omega arith) (omega arith) (omega arith)
    ∙ omega arith

-- The 16 bytes of an entry.
abbrev pub entry_bytes : ℕ → ℕ → ℕ → List ℕ
entry_bytes fid size jump_code = le_bytes 8 fid ++ (size_bytes size ++ (jump_code ∷ []))

parse_layout :
    (fid size jump_code : ℕ)
    → IsU64 fid
    → size < 2 ^ 56
    → parse_index_entry (entry_bytes fid size jump_code)
      ≡ ok (record { fid = fid; size = size; jump_code = jump_code })
unfolding parse_index_entry le_bytes
parse_layout fid size jump_code hf hs = rw (decode_size7-size_bytes size hs) (
    ap {B = Result Error IndexEntry}
      (λ f. ok (record { fid = f; size = size; jump_code = jump_code }))
      (le_value-le_bytes 8 fid (omega arith)))

-- The pairs of size and jump code that the format allows.
abbrev pub IsWritable : ℕ → ℕ → Type 0
IsWritable size jump_code =
    (size ≤ index_jump_sentinel)
    × ((jump_code ≡ 0)
        ⊎ (size ≡ index_jump_sentinel)
        ⊎ ((jump_code ≡ packed_anchor_code) × (size ≡ index_packed_sentinel)))

build_bytes :
    (fid size jump_code : ℕ)
    → IsWritable size jump_code
    → build_index_entry fid size jump_code ≡ ok (entry_bytes fid size jump_code)
unfolding build_index_entry encode_size7
build_bytes fid size jump_code w = ground arith

-- An entry of a 64-bit fid and of an allowed pair of size and jump code is written as 16 bytes, and
-- these are read back as the entry.
pub parse-build :
    (fid size jump_code : ℕ)
    → IsU64 fid
    → IsWritable size jump_code
    → (build_index_entry fid size jump_code ≡ ok (entry_bytes fid size jump_code))
      × (parse_index_entry (entry_bytes fid size jump_code)
          ≡ ok (record { fid = fid; size = size; jump_code = jump_code }))
parse-build fid size jump_code hf w =
    (build_bytes fid size jump_code w, parse_layout fid size jump_code hf (omega arith))

-- A size or a pair of size and jump code that the format does not allow is refused with an error.
build_index_entry_refuses :
    (fid size jump_code : ℕ)
    → ¬ IsWritable size jump_code
    → (e : Error) × (build_index_entry fid size jump_code ≡ err e)
unfolding build_index_entry
build_index_entry_refuses fid size jump_code w = elim (Bool-cases (ltb index_jump_sentinel size)) [
  | inl big ↦ (size_limit size, rw big)
  | inr small ↦ (reserved_sentinel, ground (arith, w))
]

pub length-entry_bytes : (fid size jump_code : ℕ) → length (entry_bytes fid size jump_code) ≡ 16
unfolding le_bytes
length-entry_bytes fid size jump_code = refl

is_zero_suffix : (xs ys : List ℕ) → is_zero_entry (xs ++ ys) ≡ true → is_zero_entry ys ≡ true
is_zero_suffix [] ys h = h
is_zero_suffix (x ∷ xs) ys h = ground (arith, is_zero_suffix xs ys)

-- The entry of an object is no zero entry.
pub is_zero-entry_bytes :
    (fid size jump_code : ℕ)
    → size < 2 ^ 56
    → 0 < size
    → is_zero_entry (entry_bytes fid size jump_code) ≡ false
is_zero-entry_bytes fid size jump_code h pos =
    elim (Bool-cases (is_zero_entry (entry_bytes fid size jump_code))) [
      | inl z ↦
          absurd (
            ground (arith, is_zero_suffix (le_bytes 8 fid) (size_bytes size ++ (jump_code ∷ [])) z))
      | inr nz ↦ nz
    ]
