-- ===== src/Blk/Scrub/Fixed.antt =====
-- internal/blk/index_packed_scrub.go: a second look at the records that a fix keeps.
use bsos.Base.{
  ℕ, ◌≡◌, refl, true, List, [], ◌∷◌, map, Option, All, some_of, ◌==◌, Bool-cases, Option-cases,
  ==_refl, inl, inr, arith,
}
use bsos.Blk.Compact.{LatestIndexRecord}
use bsos.Blk.Scrub.{
  PackedAnchorIssue, table_error, find_packed_anchor_issues, is_bad, filter_records,
}

abbrev table_fids : List PackedAnchorIssue → List ℕ
table_fids issues = map (λ i. i.table_fid) issues

abbrev IsListed : List ℕ → PackedAnchorIssue → Type 0
IsListed bad i = some_of (λ fid. fid == i.table_fid) bad ≡ true

IsListed-later :
    (fid : ℕ) (bad : List ℕ) (issues : List PackedAnchorIssue)
    → All (IsListed bad) issues
    → All (IsListed (fid ∷ bad)) issues
IsListed-later fid bad [] h = tt
IsListed-later fid bad (i ∷ issues) h = (ground (arith, h.0), IsListed-later fid bad issues h.1)

All-IsListed : (issues : List PackedAnchorIssue) → All (IsListed (table_fids issues)) issues
All-IsListed [] = tt
All-IsListed (i ∷ issues) = (
  ground (arith, ==_refl i.table_fid),
  IsListed-later i.table_fid (table_fids issues) issues (All-IsListed issues),
)

module _ (read : ℕ → ℕ → Option (List ℕ)) (disk_bytes : ℕ) where
  find-filter :
      (bad : List ℕ) (records : List LatestIndexRecord)
      → All (IsListed bad) (find_packed_anchor_issues read disk_bytes records)
      → find_packed_anchor_issues read disk_bytes (filter_records bad records) ≡ []
  unfolding find_packed_anchor_issues filter_records is_bad
  find-filter bad [] h = refl
  find-filter bad (r ∷ rs) h = elim (Bool-cases r.packed) [
    | inr other ↦
        ground (arith, other, find-filter bad rs (rw (other, find_packed_anchor_issues) at h))
    | inl packed ↦ elim (Option-cases (table_error read disk_bytes r)) [
      | inl good ↦
          let ih = find-filter bad rs (rw (packed, good, find_packed_anchor_issues) at h) in
          ground (arith, packed, good, ih)
      | inr (e, wrong) ↦
          let h' = rw (packed, wrong, find_packed_anchor_issues) at h in
          ground (arith, packed, h'.0, find-filter bad rs h'.1)
    ]
  ]

  -- After a fix that removes the records named by the issues that were found, the same search of
  -- the records that are left finds no issue.
  find-filter_found :
      (records : List LatestIndexRecord)
      → find_packed_anchor_issues read disk_bytes (
          filter_records
            (map (λ i. i.table_fid) (find_packed_anchor_issues read disk_bytes records))
            records)
        ≡ []
  find-filter_found records =
      find-filter (table_fids (find_packed_anchor_issues read disk_bytes records)) records
        (All-IsListed (find_packed_anchor_issues read disk_bytes records))
