-- ===== src/Blk/Compact/Filled.antt =====
-- internal/blk/index_compact.go: the collection on a compacted index that zeros fill up.
use bsos.Base.{
  ℕ, zero, suc, ◌+◌, ◌*◌, ◌/◌, ◌≡◌, refl, ap, ◌∙◌, true, false, List, [], ◌∷◌, ◌++◌, none, some,
  All, length, take, drop, replicate, take_append, drop_append, length-append, length-replicate,
  append_assoc, ok, ◌==◌, arith,
}
use bsos.Base.Maps.{lookup}
use bsos.Blk.Layout.{index_start}
use bsos.Blk.Entry.{pieces, is_zero_entry}
use bsos.Blk.Index.{ReadAt, scan_chunk}
use bsos.Blk.Compact.{
  LatestIndexRecord, Collected, nothing_collected, scan_raws, scan_index_stream, collect_step,
  write_latest_index_records,
}
use bsos.Blk.Compact.Rewrite.{IsLatest, AreEntries, view, overlay, collect-write, scan_raws-append}

-- The bytes of a stream of entries.
abbrev pub bytes_of : List (List ℕ) → List ℕ
bytes_of [] = []
bytes_of (raw ∷ raws) = raw ++ bytes_of raws

length-bytes_of :
    (raws : List (List ℕ)) → AreEntries raws → length (bytes_of raws) ≡ 16 * length raws
length-bytes_of [] h = refl
length-bytes_of (raw ∷ raws) (h, hs) =
    omega (arith, h, length-append raw (bytes_of raws), length-bytes_of raws hs)

pieces-bytes_of :
    (raws : List (List ℕ)) (rest : List ℕ) (m : ℕ)
    → AreEntries raws
    → pieces (length raws + m) (bytes_of raws ++ rest) ≡ raws ++ pieces m rest
unfolding pieces
pieces-bytes_of [] rest m h =
    let none_before : 0 + m ≡ m = omega arith in ap (λ (n : ℕ). pieces n rest) none_before
pieces-bytes_of (raw ∷ raws) rest m (h, hs) =
    let one_more : length (raw ∷ raws) + m ≡ suc (length raws + m) = omega arith in
    ap (λ (n : ℕ). pieces n ((raw ++ bytes_of raws) ++ rest)) one_more
    ∙ ap (pieces (suc (length raws + m))) (append_assoc raw (bytes_of raws) rest)
    ∙ split
    ∙ ap (◌∷◌ raw) (pieces-bytes_of raws rest m hs)
  where
    split :
        pieces (suc (length raws + m)) (raw ++ (bytes_of raws ++ rest))
        ≡ raw ∷ pieces (length raws + m) (bytes_of raws ++ rest)
    split =
        rw
          (
            take_append raw (bytes_of raws ++ rest) 16 h,
            drop_append raw (bytes_of raws ++ rest) 16 h,
          )
          refl

is_zero_entry-take : (k n : ℕ) → is_zero_entry (take k (replicate n 0)) ≡ true
is_zero_entry-take zero n = refl
is_zero_entry-take (suc k) zero = refl
is_zero_entry-take (suc k) (suc n) = is_zero_entry-take k n

scan_end :
    (raw : List ℕ) (raws : List (List ℕ)) (c : Collected)
    → is_zero_entry raw ≡ true
    → scan_raws collect_step (raw ∷ raws) c ≡ ok (true, c)
unfolding scan_raws
scan_end raw raws c z = rw (z, scan_raws) refl

-- A stream of entries that the steps accept, with zeros behind it.
scan_filled :
    (raws : List (List ℕ)) (rounds m : ℕ) (read : ReadAt) (c : Collected)
    → AreEntries raws
    → scan_raws collect_step raws nothing_collected ≡ ok (false, c)
    → read index_start scan_chunk ≡ some (bytes_of raws ++ replicate (16 * suc m) 0)
    → scan_index_stream collect_step (suc rounds) read 0 0 nothing_collected ≡ ok c
unfolding scan_index_stream scan_raws pieces
scan_filled raws rounds m read c are scanned got =
    let zeros : List ℕ = replicate (16 * suc m) 0 in
    let buf : List ℕ = bytes_of raws ++ zeros in
    let len : length buf ≡ 16 * (length raws + suc m) = omega (
      arith,
      length-append (bytes_of raws) zeros,
      length-bytes_of raws are,
      length-replicate {A = ℕ} (16 * suc m) 0,
    ) in
    let count : length buf / 16 ≡ length raws + suc m = omega (arith, len) in
    let cut : pieces (length buf / 16) buf ≡ raws ++ pieces (suc m) zeros =
      ap (λ (n : ℕ). pieces n buf) count ∙ pieces-bytes_of raws zeros (suc m) are in
    let ends : scan_raws collect_step (pieces (suc m) zeros) c ≡ ok (true, c) =
      scan_end (take 16 zeros) (pieces m (drop 16 zeros)) c (is_zero_entry-take 16 (16 * suc m)) in
    let scan : scan_raws collect_step (pieces (length buf / 16) buf) nothing_collected
        ≡ ok (true, c) =
      ap (λ ps. scan_raws collect_step ps nothing_collected) cut
      ∙ scan_raws-append collect_step raws (pieces (suc m) zeros) nothing_collected c scanned
      ∙ ends in
    let some_bytes : (length buf == 0) ≡ false = ground (arith, len) in
    rw (got, some_bytes, scan) refl

-- A compacted index of records of the three kinds that the collection makes, of objects that the
-- format can hold, with zeros behind it inside the first chunk of the scan, is written without an
-- error, and the whole scan of the collection reads it back: for each fid it has the last record of
-- the list again, its place apart, and nothing else.
pub scan_index_stream-write :
    (rs : List LatestIndexRecord) (rounds m : ℕ) (read : ReadAt)
    → All IsLatest rs
    → read index_start scan_chunk
      ≡ some (bytes_of (write_latest_index_records rs).0 ++ replicate (16 * suc m) 0)
    → (c : Collected) × ((write_latest_index_records rs).1 ≡ none)
      × (scan_index_stream collect_step (suc rounds) read 0 0 nothing_collected ≡ ok c)
      × ((k : ℕ) → view k c ≡ overlay k rs none)
unfolding lookup
scan_index_stream-write rs rounds m read h first =
    let (raws, c, wrote, scanned, pend, are, views) = collect-write rs nothing_collected h refl in
    let got : read index_start scan_chunk ≡ some (bytes_of raws ++ replicate (16 * suc m) 0) =
      first ∙ ap (λ w. some (bytes_of w.0 ++ replicate (16 * suc m) 0)) wrote in
    (c, ap (λ w. w.1) wrote, scan_filled raws rounds m read c are scanned got, views)
