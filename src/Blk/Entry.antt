-- ===== src/Blk/Entry.antt =====
-- internal/blk/index_v2.go: the 16-byte entries of the index stream.
pub mod Codec
use bsos.Base.{
  ℕ, zero, suc, ◌+◌, ◌*◌, ◌/◌, ◌%◌, ◌^◌, ◌-◌, Bool, true, false, not, ◌&&◌, List, [], ◌∷◌, ◌++◌,
  length, take, drop, replicate, ltb, ◌==◌, if◌then◌else◌, bit_or, Result, ok, err, ◌>>=◌, ◌>>◌,
  fail_if,
}
use bsos.Base.Bytes.{le_bytes, le_value}
use bsos.Blk.Layout.{index_jump_sentinel, index_packed_sentinel, packed_anchor_code}
use bsos.Blk.Errors.{Error, entry_size, size_limit, reserved_sentinel}

pub record IndexEntry : Type 0 where
  pub fid : ℕ
  pub size : ℕ
  pub jump_code : ℕ

-- buf[a:b] of a slice that is long enough.
abbrev pub slice : ℕ → ℕ → List ℕ → List ℕ
slice a b buf = take (b - a) (drop a buf)

-- Seven bytes joined by `|` and `<<`; 0 where the buffer is shorter.
pub decode_size7 : List ℕ → ℕ
decode_size7 (b0 ∷ b1 ∷ b2 ∷ b3 ∷ b4 ∷ b5 ∷ b6 ∷ rest) =
    bit_or
      (bit_or
        (bit_or (bit_or (bit_or (bit_or b0 (b1 * 2 ^ 8)) (b2 * 2 ^ 16)) (b3 * 2 ^ 24))
          (b4 * 2 ^ 32))
        (b5 * 2 ^ 40))
      (b6 * 2 ^ 48)
decode_size7 _ = 0

-- The seven low bytes of `size` written over the front of `dst`, if they fit.
unfoldable pub encode_size7 : List ℕ → ℕ → List ℕ
encode_size7 dst size =
    if ltb (length dst) 7
    then dst
    else (size % 256)
      ∷ (size / 2 ^ 8 % 256)
      ∷ (size / 2 ^ 16 % 256)
      ∷ (size / 2 ^ 24 % 256)
      ∷ (size / 2 ^ 32 % 256)
      ∷ (size / 2 ^ 40 % 256)
      ∷ (size / 2 ^ 48 % 256)
      ∷ drop 7 dst

-- entry[15]
last_byte : List ℕ → ℕ
last_byte (b ∷ rest) = b
last_byte [] = 0

pub parse_index_entry : List ℕ → Result Error IndexEntry
unfolding last_byte
parse_index_entry entry =
    if ltb (length entry) 16
    then err (entry_size (length entry))
    else ok (record {
      fid = le_value (slice 0 8 entry);
      size = decode_size7 (slice 8 15 entry);
      jump_code = last_byte (drop 15 entry);
    })

unfoldable pub is_jump_indicator : IndexEntry → Bool
is_jump_indicator e = not (e.jump_code == 0) && e.size == index_jump_sentinel

unfoldable pub is_packed_anchor : IndexEntry → Bool
is_packed_anchor e = e.jump_code == packed_anchor_code && e.size == index_packed_sentinel

unfoldable pub is_tombstone : IndexEntry → Bool
is_tombstone e = e.jump_code == 0 && e.size == 0

-- The switch over a jump code that is not 0.
allowed_pair : ℕ → ℕ → Bool
allowed_pair size jump_code =
    if size == index_jump_sentinel
    then true
    else jump_code == packed_anchor_code && size == index_packed_sentinel

unfoldable pub build_index_entry : ℕ → ℕ → ℕ → Result Error (List ℕ)
unfolding allowed_pair
build_index_entry fid size jump_code = do
  fail_if (ltb index_jump_sentinel size) (size_limit size)
  fail_if (not (jump_code == 0) && not (allowed_pair size jump_code)) reserved_sentinel
  ok (le_bytes 8 fid ++ (encode_size7 (replicate 7 0) size ++ (jump_code ∷ [])))

-- A stored entry of 16 zero bytes ends the index stream.
abbrev pub is_zero_entry : List ℕ → Bool
is_zero_entry [] = true
is_zero_entry (b ∷ bs) = if b == 0 then is_zero_entry bs else false

-- The first `n` pieces of 16 bytes of a buffer.
unfoldable pub pieces : ℕ → List ℕ → List (List ℕ)
pieces zero buf = []
pieces (suc n) buf = take 16 buf ∷ pieces n (drop 16 buf)
