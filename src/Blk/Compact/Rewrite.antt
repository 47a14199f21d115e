-- ===== src/Blk/Compact/Rewrite.antt =====
-- internal/blk/index_compact.go: CollectLatestIndexRecords on what WriteLatestIndexRecords writes.
use bsos.Base.{
  length, All-append, ℕ, ◌+◌, ◌<◌, ◌≡◌, refl, ap, ◌∙◌, ◌⊎◌, true, false, ◌||◌, List, [], ◌∷◌, ◌++◌,
  Option, none, some, All, IsU64, ◌==◌, if◌then◌else◌, Result, ok, Result-cases, Bool-cases, inl,
  inr, arith,
}
use bsos.Base.Maps.{lookup, insert, lookup-insert}
use bsos.Blk.Layout.{index_packed_sentinel, index_jump_sentinel, packed_anchor_code}
use bsos.Blk.Errors.{Error}
use bsos.Blk.Entry.{
  IndexEntry, parse_index_entry, is_zero_entry, is_jump_indicator, is_packed_anchor, is_tombstone,
}
use bsos.Blk.Entry.Codec.{
  length-entry_bytes, entry_bytes, IsWritable, parse-build, is_zero-entry_bytes,
}
use bsos.Blk.Compact.{
  CompactRecord, LatestIndexRecord, Collected, scan_raws, collect_step, latest_record, record_raws,
  write_latest_index_records, pair_record, plain_record,
}

module _ {S : Type 0} (on_entry : S → IndexEntry → Result Error S) where
  -- A scan over one written entry.
  scan_written :
      (fid size jump_code : ℕ) (raws : List (List ℕ)) (s s' : S)
      → IsU64 fid
      → 0 < size
      → IsWritable size jump_code
      → on_entry s (record { fid = fid; size = size; jump_code = jump_code }) ≡ ok s'
      → scan_raws on_entry (entry_bytes fid size jump_code ∷ raws) s ≡ scan_raws on_entry raws s'
  unfolding scan_raws
  scan_written fid size jump_code raws s s' hf pos w step = rw (
    is_zero-entry_bytes fid size jump_code (omega arith) pos,
    (parse-build fid size jump_code hf w).1,
    step,
    scan_raws,
  )

  pub scan_raws-append :
      (xs ys : List (List ℕ)) (s s' : S)
      → scan_raws on_entry xs s ≡ ok (false, s')
      → scan_raws on_entry (xs ++ ys) s ≡ scan_raws on_entry ys s'
  unfolding scan_raws
  scan_raws-append [] ys s s' h = ground arith
  scan_raws-append (x ∷ xs) ys s s' h = elim (Bool-cases (is_zero_entry x)) [
    | inl z ↦ absurd (ground (arith, rw (z, scan_raws) at h))
    | inr z ↦ elim (Result-cases (parse_index_entry x)) [
      | inr (e, p) ↦ absurd (ground (arith, rw (z, p, scan_raws) at h))
      | inl (e, p) ↦ elim (Result-cases (on_entry s e)) [
        | inr (f, q) ↦ absurd (ground (arith, rw (z, p, q, scan_raws) at h))
        | inl (s1, q) ↦
            rw (z, p, q, scan_raws) (scan_raws-append xs ys s1 s' (rw (z, p, q, scan_raws) at h))
      ]
    ]
  ]

-- A record of one of the three kinds that the collection makes, of an object that the format can hold.
pub record IsLatest (r : LatestIndexRecord) : Type 0 where
  pub fid_range : IsU64 r.fid
  pub actual_range : IsU64 r.actual_fid
  pub size_pos : 0 < r.actual_size
  pub size_lt : r.actual_size < index_packed_sentinel
  pub kind :
      ((r.packed ≡ true)
        × (r.jump ≡ false)
        × (r.size ≡ r.actual_size)
        × (r.jump_code ≡ packed_anchor_code))
      ⊎ ((r.packed ≡ false) × (r.jump ≡ true) × (r.size + 1 ≡ r.actual_size) × (0 < r.jump_code))
      ⊎ ((r.packed ≡ false)
          × (r.jump ≡ false)
          × (r.size ≡ r.actual_size)
          × (r.actual_fid ≡ r.fid)
          × (r.jump_code ≡ 0))

-- The record with its place in the stream forgotten.
abbrev unplaced : LatestIndexRecord → LatestIndexRecord
unplaced r = record r { seq = 0 }

abbrev pub AreEntries : List (List ℕ) → Type 0
AreEntries raws = All (λ raw. length raw ≡ 16) raws

-- What collecting the pieces of one record does.
abbrev Collects : LatestIndexRecord → Collected → List (List ℕ) → Collected → Type 0
Collects r c raws c' =
    (record_raws r ≡ (raws, none))
    × (scan_raws collect_step raws c ≡ ok (false, c'))
    × (c'.pending ≡ none)
    × AreEntries raws
    × ((q : CompactRecord) × (c'.record_map ≡ insert r.fid q c.record_map)
        × (unplaced (latest_record q) ≡ unplaced r))

-- A pair is collected under the fid of its first part.
scan_pair :
    (c : Collected) (fid sentinel code actual size : ℕ)
    → c.pending ≡ none
    → IsU64 fid
    → IsU64 actual
    → 0 < size
    → size < index_packed_sentinel
    → 0 < sentinel
    → IsWritable sentinel code
    → (is_jump_indicator (record { fid = fid; size = sentinel; jump_code = code })
        || is_packed_anchor (record { fid = fid; size = sentinel; jump_code = code }))
      ≡ true
    → scan_raws collect_step (entry_bytes fid sentinel code ∷ entry_bytes actual size 0 ∷ []) c
      ≡ ok (
        false,
        record {
          record_map =
              insert fid
                (pair_record
                  (record { fid = fid; size = sentinel; jump_code = code })
                  (c.seq + 1)
                  (record { fid = actual; size = size; jump_code = 0 }))
                c.record_map;
          seq = c.seq + 1 + 1;
          pending = none;
        },
      )
unfolding collect_step scan_raws
scan_pair c fid sentinel code actual size pend hf ha pos lt spos w ind =
    scan_written collect_step fid sentinel code (entry_bytes actual size 0 ∷ []) c waiting hf spos w
      (rw (pend, ind) refl)
    ∙ scan_written collect_step actual size 0 [] waiting _ ha pos (omega (arith, lt))
        (ground (arith, pos))
  where
    waiting : Collected
    waiting = record {
      record_map = c.record_map;
      seq = c.seq + 1;
      pending = some (record { fid = fid; size = sentinel; jump_code = code }, c.seq + 1);
    }

collect-record_raws :
    (r : LatestIndexRecord) (c : Collected)
    → IsLatest r
    → c.pending ≡ none
    → (raws : List (List ℕ)) × (c' : Collected) × Collects r c raws c'
unfolding record_raws latest_record is_jump_indicator is_packed_anchor is_tombstone collect_step
    scan_raws
collect-record_raws r c v pend = elim v.kind [
  | inl (p, j, s, jc) ↦ (
    entry_bytes r.fid index_packed_sentinel packed_anchor_code
        ∷ entry_bytes r.actual_fid r.actual_size 0
        ∷ [],
    _,
    (
      rw
          (
            p,
            (parse-build r.fid index_packed_sentinel packed_anchor_code v.fid_range
                (omega arith)).0,
            (parse-build r.actual_fid r.actual_size 0 v.actual_range (omega (arith, v.size_lt))).0,
            record_raws,
          )
          refl,
      scan_pair c r.fid index_packed_sentinel packed_anchor_code r.actual_fid r.actual_size pend
          v.fid_range v.actual_range v.size_pos v.size_lt (omega arith) (omega arith)
          (ground arith),
      refl,
      (
        length-entry_bytes r.fid index_packed_sentinel packed_anchor_code,
        (length-entry_bytes r.actual_fid r.actual_size 0, tt),
      ),
      (_, refl, ground (arith, p, j, s, jc)),
    ),
  )
  | inr (inl (p, j, s, jc)) ↦ (
    entry_bytes r.fid index_jump_sentinel r.jump_code
        ∷ entry_bytes r.actual_fid r.actual_size 0
        ∷ [],
    _,
    (
      rw
          (
            p,
            j,
            (parse-build r.fid index_jump_sentinel r.jump_code v.fid_range (omega arith)).0,
            (parse-build r.actual_fid r.actual_size 0 v.actual_range (omega (arith, v.size_lt))).0,
            record_raws,
          )
          refl,
      scan_pair c r.fid index_jump_sentinel r.jump_code r.actual_fid r.actual_size pend v.fid_range
          v.actual_range v.size_pos v.size_lt (omega arith) (omega arith) (ground (arith, jc)),
      refl,
      (
        length-entry_bytes r.fid index_jump_sentinel r.jump_code,
        (length-entry_bytes r.actual_fid r.actual_size 0, tt),
      ),
      (_, refl, ground (arith, p, j, s, jc)),
    ),
  )
  | inr (inr (p, j, s, a, jc)) ↦
      let e : IndexEntry = record { fid = r.fid; size = r.size; jump_code = 0 } in
      let done : Collected = record {
        record_map = insert r.fid (plain_record e (c.seq + 1)) c.record_map;
        seq = c.seq + 1;
        pending = none;
      } in
      (
        entry_bytes r.fid r.size 0 ∷ [],
        done,
        (
          rw
              (
                p,
                j,
                (parse-build r.fid r.size 0 v.fid_range (omega (arith, v.size_lt, s))).0,
                record_raws,
              )
              refl,
          scan_written collect_step r.fid r.size 0 [] c done v.fid_range
              (omega (arith, s, v.size_pos)) (omega (arith, v.size_lt, s))
              (rw pend (ground (arith, s, v.size_pos, v.size_lt))),
          refl,
          (length-entry_bytes r.fid r.size 0, tt),
          (plain_record e (c.seq + 1), refl, ground (arith, p, j, s, a, jc)),
        ),
      )
]

-- The record of a fid in the collection, and in a list of records over an older one.
abbrev placeless : Option CompactRecord → Option LatestIndexRecord
placeless none = none
placeless (some q) = some (unplaced (latest_record q))

abbrev pub view : ℕ → Collected → Option LatestIndexRecord
view k c = placeless (lookup k c.record_map)

abbrev pub overlay :
    ℕ → List LatestIndexRecord → Option LatestIndexRecord → Option LatestIndexRecord
overlay k [] old = old
overlay k (r ∷ rs) old = overlay k rs (if r.fid == k then some (unplaced r) else old)

-- Records of the three kinds that the collection makes, of objects that the format can hold, are
-- written without an error, and the collection's steps over the pieces written, with no pair
-- waiting, give for each fid its last record again, its place apart.
pub collect-write :
    (rs : List LatestIndexRecord) (c : Collected)
    → All IsLatest rs
    → c.pending ≡ none
    → (raws : List (List ℕ)) × (c' : Collected) × (write_latest_index_records rs ≡ (raws, none))
      × (scan_raws collect_step raws c ≡ ok (false, c'))
      × (c'.pending ≡ none)
      × AreEntries raws
      × ((k : ℕ) → view k c' ≡ overlay k rs (view k c))
unfolding write_latest_index_records scan_raws
collect-write [] c v pend = ([], c, refl, refl, pend, tt, λ k. refl)
collect-write (r ∷ rs) c (h, v) pend =
    let (raws, c1, (wrote, scanned, pend1, are, (q, eq, same))) = collect-record_raws r c h pend in
    let (later, c2, rest, scanned2, pend2, are2, views) = collect-write rs c1 v pend1 in
    (
      raws ++ later,
      c2,
      ground (arith, wrote, rest),
      scan_raws-append collect_step raws later c c1 scanned ∙ scanned2,
      pend2,
      All-append (λ raw. length raw ≡ 16) raws later are are2,
      λ k.
          views k
          ∙ ap (overlay k rs) (
              ap (λ m. placeless (lookup k m)) eq
              ∙ ap placeless (lookup-insert r.fid k q c.record_map)
              ∙ renamed k c r q same),
    )
  where
    renamed :
        (k : ℕ) (c : Collected) (r : LatestIndexRecord) (q : CompactRecord)
        → unplaced (latest_record q) ≡ unplaced r
        → placeless (if r.fid == k then some q else lookup k c.record_map)
          ≡ (if r.fid == k then some (unplaced r) else view k c)
    renamed k c r q same = elim (Bool-cases (r.fid == k)) [
      | inl this ↦ rw this (ap some same)
      | inr other ↦ rw other
    ]
