-- ===== src/Blk/Index/LastWins.antt =====
-- internal/blk/index.go: FindLatestIndexEntry on the entries of a commit.
use bsos.Base.{
  ℕ, ◌-◌, ◌<◌, ◌≡◌, ◌≢◌, ◌∙◌, true, false, List, [], ◌∷◌, Option, none, some, ◌==◌, IsU64,
  if◌then◌else◌, ok, arith,
}
use bsos.Blk.Layout.{index_packed_sentinel, index_jump_sentinel}
use bsos.Blk.Entry.{IndexEntry, is_jump_indicator, is_tombstone}
use bsos.Blk.Entry.Codec.{entry_bytes, parse-build, is_zero-entry_bytes, IsWritable}
use bsos.Blk.Index.{Latest, latest_pair, latest_step, latest_chunk}

chunk_written :
    (fid efid size jump_code : ℕ) (raws : List (List ℕ)) (st st' : Option IndexEntry × Latest)
    → IsU64 efid
    → 0 < size
    → IsWritable size jump_code
    → latest_step fid st (record { fid = efid; size = size; jump_code = jump_code }) ≡ ok st'
    → latest_chunk fid (entry_bytes efid size jump_code ∷ raws) st ≡ latest_chunk fid raws st'
unfolding latest_chunk
chunk_written fid efid size jump_code raws st st' hf pos w step = rw (
  is_zero-entry_bytes efid size jump_code (omega arith) pos,
  (parse-build efid size jump_code hf w).1,
  step,
  latest_chunk,
)

-- For an object behind a jump indicator of another fid, as a commit writes the two, looking for the
-- alias finds the object with one byte less, looking for the object finds all of it, and the answer
-- for another fid does not change.
pub latest_chunk-alias :
    (fid alias_for object size code : ℕ) (st : Latest)
    → IsU64 alias_for
    → IsU64 object
    → alias_for ≢ object
    → 1 < size
    → size < index_packed_sentinel
    → 0 < code
    → (st' : Latest) × (latest_chunk fid
          (entry_bytes alias_for index_jump_sentinel code ∷ entry_bytes object size 0 ∷ [])
          (none, st)
        ≡ ok (false, (none, st')))
      × (fid ≡ alias_for
          → st' ≡ record {
            logic_size = size - 1;
            actual_fid = object;
            actual_size = size;
            found = true;
            jump = true;
          })
      × (fid ≡ object
          → st' ≡ record {
            logic_size = size;
            actual_fid = object;
            actual_size = size;
            found = true;
            jump = false;
          })
      × (fid ≢ alias_for → fid ≢ object → st' ≡ st)
unfolding latest_step latest_pair is_jump_indicator is_tombstone latest_chunk
latest_chunk-alias fid alias_for object size code st ha ho ne pos lt cpos =
    let found : Latest =
      if alias_for == fid
      then (record {
        logic_size = size - 1;
        actual_fid = object;
        actual_size = size;
        found = true;
        jump = true;
      })
      else st in
    let after : Latest =
      if object == fid
      then (record {
        logic_size = size;
        actual_fid = object;
        actual_size = size;
        found = true;
        jump = false;
      })
      else found in
    (
      after,
      chunk_written fid alias_for index_jump_sentinel code (entry_bytes object size 0 ∷ [])
            (none, st)
            (some (record { fid = alias_for; size = index_jump_sentinel; jump_code = code }), st) ha
            (omega arith) (omega arith) (ground arith)
          ∙ chunk_written fid object size 0 []
              (some (record { fid = alias_for; size = index_jump_sentinel; jump_code = code }), st)
              (none, after) ho (omega arith) (omega arith) (ground arith),
      λ e. ground arith,
      λ e. ground arith,
      λ a b. ground arith,
    )
