-- ===== src/Blk/Header.antt =====
-- internal/blk/header.go, and the header of a new device in init.go.
pub mod RoundTrip
use bsos.Base.{
  ℕ, zero, suc, ◌+◌, ◌-◌, ◌*◌, Bool, true, false, not, List, [], ◌∷◌, ◌++◌, length, take, drop,
  replicate, ltb, ◌==◌, if◌then◌else◌, Result, ok, err, ◌>>=◌, ◌>>◌, fail_if,
}
use bsos.Base.Bytes.{le_bytes, le_value}
use bsos.Blk.Layout.{header_bytes, format_version}
use bsos.Blk.Errors.{Error, header_too_small, magic_mismatch}
use bsos.Blk.Entry.{slice, is_zero_entry}

pub record Header : Type 0 where
  pub version : ℕ
  pub capacity_gb : ℕ
  pub disk_id : ℕ
  pub note_len : ℕ

-- "NBSS"
abbrev pub magic : List ℕ
magic = 78 ∷ 66 ∷ 83 ∷ 83 ∷ []

abbrev same : List ℕ → List ℕ → Bool
same [] [] = true
same (x ∷ xs) (y ∷ ys) = if x == y then same xs ys else false
same _ _ = false

-- The bytes before the first zero.
pub note_length : List ℕ → ℕ
note_length [] = 0
note_length (b ∷ bs) = if b == 0 then 0 else suc (note_length bs)

pub has_magic : List ℕ → Bool
has_magic buf = same (slice 0 4 buf) magic

pub header_fields : List ℕ → Header
header_fields buf = record {
  version = le_value (slice 4 6 buf);
  capacity_gb = le_value (slice 6 8 buf);
  disk_id = le_value (slice 8 16 buf);
  note_len = note_length (slice 16 header_bytes buf);
}

pub parse_header : List ℕ → Result Error Header
parse_header buf = do
  fail_if (ltb (length buf) header_bytes) header_too_small
  fail_if (not (has_magic buf)) magic_mismatch
  ok (header_fields buf)

-- `copy` takes what fits of the note; the rest of the header stays zero.
pub build_header : ℕ → ℕ → List ℕ → List ℕ
build_header capacity_gb disk_id note =
    magic
    ++ (le_bytes 2 format_version
        ++ (le_bytes 2 capacity_gb
            ++ (le_bytes 8 disk_id
                ++ take (header_bytes - 16) (note ++ replicate (header_bytes - 16) 0))))

-- A device that has a header of this version already is refused, and so is a used index.
unfoldable check_existing_header : List ℕ → Bool
check_existing_header header =
    if has_magic header then not (le_value (slice 4 6 header) == format_version) else true

unfoldable check_index_not_empty : List ℕ → Bool
check_index_not_empty buf = is_zero_entry buf
