-- ===== src/Blk/Compact.antt =====
-- internal/blk/index_compact.go: the live records of an index stream, their compacted stream, and its
-- validation.
pub mod Rewrite
pub mod Filled
pub mod ZeroRun
use bsos.Base.{
  ℕ, zero, suc, ◌+◌, ◌-◌, ◌*◌, ◌/◌, Bool, true, false, not, ◌&&◌, ◌||◌, List, [], ◌∷◌, ◌++◌, map,
  Option, none, some, some_of, length, min, ltb, leb, ◌==◌, if◌then◌else◌, Result, ok, err, ◌>>=◌,
  ◌>>◌, fail_if,
}
use bsos.Base.Maps.{Map, insert, delete, values}
use bsos.Blk.Layout.{
  index_start, index_bytes, index_entry_size, index_packed_sentinel, index_jump_sentinel,
  packed_anchor_code,
}
use bsos.Blk.Errors.{
  Error, invalid_pair, unexpected_jumpcode, zero_size, duplicate_fid, index_too_large, read_failed,
}
use bsos.Blk.Entry.{
  IndexEntry, parse_index_entry, build_index_entry, is_jump_indicator, is_packed_anchor,
  is_tombstone, is_zero_entry, pieces,
}
use bsos.Blk.Index.{ReadAt, scan_chunk}

pub record CompactRecord : Type 0 where
  pub fid : ℕ
  pub size : ℕ
  pub jump_fid : ℕ
  pub jump_code : ℕ
  pub seq : ℕ
  pub jump : Bool
  pub packed : Bool

pub record LatestIndexRecord : Type 0 where
  pub fid : ℕ
  pub size : ℕ
  pub actual_fid : ℕ
  pub actual_size : ℕ
  pub jump_code : ℕ
  pub seq : ℕ
  pub jump : Bool
  pub packed : Bool

-- The zero bytes in a row, over the whole buffer; 16 of them stop the scan.
pub zero_run : ℕ → List ℕ → Bool × ℕ
zero_run run [] = (false, run)
zero_run run (b ∷ bs) =
    let next = zero_run (run + 1) bs in
    let reset = zero_run 0 bs in
    if b == 0 then (if leb index_entry_size (run + 1) then (true, run + 1) else next) else reset

module _ {S : Type 0} (on_entry : S → IndexEntry → Result Error S) where
  pub scan_raws : List (List ℕ) → S → Result Error (Bool × S)
  scan_raws [] s = ok (false, s)
  scan_raws (raw ∷ raws) s = elim (is_zero_entry raw) [
    | true ↦ ok (true, s)
    | false ↦ parse_index_entry raw >>= λ e. on_entry s e >>= λ s'. scan_raws raws s'
  ]

  pub scan_index_stream : ℕ → ReadAt → ℕ → ℕ → S → Result Error S
  scan_index_stream zero read offset run s = ok s
  scan_index_stream (suc rounds) read offset run s = elim (ltb offset index_bytes) [
    | false ↦ ok s
    | true ↦ elim (read (index_start + offset) (min scan_chunk (index_bytes - offset))) [
      | none ↦ err read_failed
      | some buf ↦ elim (length buf == 0) [
        | true ↦ ok s
        | false ↦
            (scan_raws (pieces (length buf / 16) buf) s >>= λ done. elim done.0 [
              | true ↦ ok done.1
              | false ↦ elim (zero_run run buf).0 [
                | true ↦ ok done.1
                | false ↦
                    scan_index_stream rounds read (offset + length buf) (zero_run run buf).1 done.1
              ]
            ])
      ]
    ]
  ]

pub record Collected : Type 0 where
  pub record_map : Map CompactRecord
  pub seq : ℕ
  pub pending : Option (IndexEntry × ℕ)

abbrev pub nothing_collected : Collected
nothing_collected = record { record_map = []; seq = 0; pending = none }

abbrev pub pair_record : IndexEntry → ℕ → IndexEntry → CompactRecord
pair_record p seq e = record {
  fid = p.fid;
  size = e.size;
  jump_fid = e.fid;
  jump_code = p.jump_code;
  seq = seq;
  jump = not (is_packed_anchor p);
  packed = is_packed_anchor p;
}

abbrev pub plain_record : IndexEntry → ℕ → CompactRecord
plain_record e seq = record {
  fid = e.fid;
  size = e.size;
  jump_fid = 0;
  jump_code = 0;
  seq = seq;
  jump = false;
  packed = false;
}

-- One entry; a pair whose second part is no object is dropped.
pub collect_step : Collected → IndexEntry → Result Error Collected
collect_step c e =
    let seq' : ℕ = c.seq + 1 in
    elim c.pending [
      | some (p, pending_seq) ↦
          if not (e.jump_code == 0) || e.size == 0
          then ok (record { record_map = c.record_map; seq = seq'; pending = none })
          else ok (record {
            record_map = insert p.fid (pair_record p pending_seq e) c.record_map;
            seq = seq';
            pending = none;
          })
      | none ↦
          if is_jump_indicator e || is_packed_anchor e
          then ok (record { record_map = c.record_map; seq = seq'; pending = some (e, seq') })
          else if is_tombstone e
          then ok (record { record_map = delete e.fid c.record_map; seq = seq'; pending = none })
          else if not (e.jump_code == 0)
          then err (unexpected_jumpcode e.fid)
          else ok (record {
            record_map = insert e.fid (plain_record e seq') c.record_map;
            seq = seq';
            pending = none;
          })
    ]

pub latest_record : CompactRecord → LatestIndexRecord
latest_record r = record {
  fid = r.fid;
  size = if r.jump then r.size - 1 else r.size;
  actual_fid = if r.jump || r.packed then r.jump_fid else r.fid;
  actual_size = r.size;
  jump_code = r.jump_code;
  seq = r.seq;
  jump = r.jump;
  packed = r.packed;
}

-- sort.Slice by Seq, which no two records share.
unfoldable insert_by_seq : LatestIndexRecord → List LatestIndexRecord → List LatestIndexRecord
insert_by_seq r [] = r ∷ []
insert_by_seq r (x ∷ xs) = if ltb r.seq x.seq then r ∷ x ∷ xs else x ∷ insert_by_seq r xs

unfoldable sort_by_seq : List LatestIndexRecord → List LatestIndexRecord
sort_by_seq [] = []
sort_by_seq (r ∷ rs) = insert_by_seq r (sort_by_seq rs)

unfoldable count_entries : List LatestIndexRecord → ℕ
count_entries [] = 0
count_entries (r ∷ rs) = (if r.jump || r.packed then 2 else 1) + count_entries rs

unfoldable collect_latest_index_records : ℕ → ReadAt → Result Error (List LatestIndexRecord)
collect_latest_index_records rounds read = do
  c ← scan_index_stream collect_step rounds read 0 0 nothing_collected
  let records = sort_by_seq (map latest_record (values c.record_map))
  fail_if (ltb index_bytes (count_entries records * index_entry_size))
      (index_too_large (count_entries records))
  ok records

-- What is written of two entries, and the error that ends it.
abbrev pub raw_pair : Result Error (List ℕ) → Result Error (List ℕ) → List (List ℕ) × Option Error
raw_pair first second = elim first [
  | err e ↦ ([], some e)
  | ok raw ↦ elim second [ err e ↦ (raw ∷ [], some e) | ok raw' ↦ (raw ∷ raw' ∷ [], none) ]
]

-- The 16-byte pieces that are written of one record.
pub record_raws : LatestIndexRecord → List (List ℕ) × Option Error
record_raws r =
    if r.packed
    then raw_pair (build_index_entry r.fid index_packed_sentinel packed_anchor_code)
        (build_index_entry r.actual_fid r.actual_size 0)
    else if r.jump
    then raw_pair (build_index_entry r.fid index_jump_sentinel r.jump_code)
        (build_index_entry r.actual_fid r.actual_size 0)
    else (elim (build_index_entry r.fid r.size 0) [
      | err e ↦ ([], some e)
      | ok raw ↦ (raw ∷ [], none)
    ])

-- The compacted stream, piece by piece, up to the first error; that a write of the file fails is not
-- modelled.
pub write_latest_index_records : List LatestIndexRecord → List (List ℕ) × Option Error
write_latest_index_records [] = ([], none)
write_latest_index_records (r ∷ rs) =
    let raws = record_raws r in
    let later = write_latest_index_records rs in
    elim raws.1 [ some e ↦ raws | none ↦ (raws.0 ++ later.0, later.1) ]

pub record Validated : Type 0 where
  pub seen : List ℕ
  pub pending : Option IndexEntry

unfoldable validate_step : Validated → IndexEntry → Result Error Validated
validate_step v e = elim v.pending [
  | some p ↦
      if not (e.jump_code == 0) || e.size == 0
      then err (invalid_pair p.fid)
      else if some_of (λ k. k == p.fid) v.seen
      then err (duplicate_fid p.fid)
      else ok (record { seen = p.fid ∷ v.seen; pending = none })
  | none ↦
      if is_jump_indicator e || is_packed_anchor e
      then ok (record { seen = v.seen; pending = some e })
      else if is_tombstone e
      then err (zero_size e.fid)
      else if not (e.jump_code == 0)
      then err (unexpected_jumpcode e.fid)
      else if some_of (λ k. k == e.fid) v.seen
      then err (duplicate_fid e.fid)
      else ok (record { seen = e.fid ∷ v.seen; pending = none })
]

unfoldable validate_compacted : ℕ → ReadAt → Result Error Validated
validate_compacted rounds read =
    scan_index_stream validate_step rounds read 0 0 (record { seen = []; pending = none })
