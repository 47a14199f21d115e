-- ===== src/Blk/Index.antt =====
-- internal/blk/index.go: the end of the index stream, and the latest registration of a fid. `ReadAt`
-- is the device: the bytes that a read of that offset and size gives, `none` for a failure.
pub mod LastWins
use bsos.Base.{
  ℕ, zero, suc, ◌+◌, ◌-◌, ◌*◌, ◌/◌, Bool, true, false, not, ◌&&◌, ◌||◌, List, [], ◌∷◌, Option, none,
  some, length, min, ltb, ◌==◌, if◌then◌else◌, Result, ok, err, ◌>>=◌,
}
use bsos.Blk.Layout.{index_start, index_bytes, index_entry_size}
use bsos.Blk.Errors.{Error, index_full, index_not_found, invalid_pair, read_failed}
use bsos.Blk.Entry.{
  IndexEntry, parse_index_entry, is_jump_indicator, is_tombstone, is_zero_entry, pieces,
}

abbrev pub ReadAt : Type 0
ReadAt = ℕ → ℕ → Option (List ℕ)

abbrev pub scan_chunk : ℕ
scan_chunk = 4 * 1024 * 1024

-- Every round but the last reads at least one byte, and the device's reads give 4 MiB each: 64 rounds
-- read all of the stream.
abbrev scan_rounds : ℕ
scan_rounds = index_bytes / scan_chunk + 1

abbrev first_zero : ℕ → List (List ℕ) → Option ℕ
first_zero off [] = none
first_zero off (raw ∷ raws) =
    if is_zero_entry raw then some off else first_zero (off + index_entry_size) raws

unfoldable find_index_end : ℕ → ReadAt → ℕ → Result Error ℕ
find_index_end zero read offset = err index_full
find_index_end (suc rounds) read offset = elim (ltb offset index_bytes) [
  | false ↦ err index_full
  | true ↦ elim (read (index_start + offset) (min scan_chunk (index_bytes - offset))) [
    | none ↦ err read_failed
    | some buf ↦ elim (first_zero (index_start + offset) (pieces (length buf / 16) buf)) [
      | some end ↦ ok end
      | none ↦ elim (length buf == 0) [
        | true ↦ err index_full
        | false ↦ find_index_end rounds read (offset + length buf)
      ]
    ]
  ]
]

-- What FindLatestIndexEntry answers.
pub record Latest : Type 0 where
  pub logic_size : ℕ
  pub actual_fid : ℕ
  pub actual_size : ℕ
  pub found : Bool
  pub jump : Bool

abbrev pub no_latest : Latest
no_latest = record { logic_size = 0; actual_fid = 0; actual_size = 0; found = false; jump = false }

-- The object behind an indicator for `fid`.
pub latest_pair : ℕ → Option IndexEntry → IndexEntry → Latest → Result Error Latest
latest_pair fid none e st = ok st
latest_pair fid (some p) e st =
    if not (e.jump_code == 0) || e.size == 0
    then err (invalid_pair p.fid)
    else if p.fid == fid
    then ok (record {
      logic_size = e.size - 1;
      actual_fid = e.fid;
      actual_size = e.size;
      found = true;
      jump = true;
    })
    else ok st

-- One entry: the second part of a pair counts for its own fid too.
pub latest_step :
    ℕ → Option IndexEntry × Latest → IndexEntry → Result Error (Option IndexEntry × Latest)
latest_step fid (pending, st) e =
    (latest_pair fid pending e st >>= λ st'.
    if is_jump_indicator e
    then ok (some e, st')
    else if e.fid == fid
    then (if is_tombstone e
        then ok (
          none,
          record { logic_size = 0; actual_fid = 0; actual_size = 0; found = true; jump = false },
        )
        else ok (
          none,
          record {
            logic_size = e.size;
            actual_fid = e.fid;
            actual_size = e.size;
            found = true;
            jump = false;
          },
        ))
    else ok (none, st'))

-- A chunk: it ends at a zero entry.
pub latest_chunk :
    ℕ
    → List (List ℕ)
    → Option IndexEntry × Latest
    → Result Error (Bool × (Option IndexEntry × Latest))
latest_chunk fid [] st = ok (false, st)
latest_chunk fid (raw ∷ raws) st = elim (is_zero_entry raw) [
  | true ↦ ok (true, st)
  | false ↦ parse_index_entry raw >>= λ e. latest_step fid st e >>= λ st'. latest_chunk fid raws st'
]

-- The answer at the end of the stream; at a zero entry a fid that was never seen is no error.
unfoldable latest_answer : Bool → Latest → Result Error Latest
latest_answer at_zero st =
    if st.found && st.logic_size == 0
    then err index_not_found
    else if not at_zero && not st.found
    then err index_not_found
    else ok st

unfoldable find_latest_index_entry :
    ℕ → ReadAt → ℕ → ℕ → Option IndexEntry × Latest → Result Error Latest
find_latest_index_entry zero read offset fid st = latest_answer false st.1
find_latest_index_entry (suc rounds) read offset fid st = elim (ltb offset index_bytes) [
  | false ↦ latest_answer false st.1
  | true ↦ elim (read (index_start + offset) (min scan_chunk (index_bytes - offset))) [
    | none ↦ err read_failed
    | some buf ↦
        (latest_chunk fid (pieces (length buf / 16) buf) st >>= λ done. elim done.0 [
          | true ↦ latest_answer true done.1.1
          | false ↦ elim (length buf == 0) [
            | true ↦ latest_answer false done.1.1
            | false ↦ find_latest_index_entry rounds read (offset + length buf) fid done.1
          ]
        ])
  ]
]
