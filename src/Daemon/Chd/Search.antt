-- ===== src/Daemon/Chd/Search.antt =====
-- internal/daemon/chd.go: the binary search of computeCHD.
use bsos.Base.{
  ℕ, zero, suc, ◌+◌, ◌-◌, ◌*◌, ◌/◌, ◌≤◌, ◌<◌, ◌≡◌, refl, ap, ◌∙◌, ◌⊎◌, Bool, true, false, List, ltb,
  leb, ◌==◌, ◌||◌, Bool-cases, inl, inr, arith,
}
use bsos.Blk.Layout.{grid_start, slot_size}
use bsos.Daemon.Interval.{Interval}
use bsos.Daemon.Chd.{
  chd_search, compute_chd, chd_success_rate, sample_fids, chd_samples, required_samples,
}

-- A size at the edge: it fits, or is 0, and the next one does not fit, or is beyond the disk.
abbrev pub IsEdge : (ℕ → Bool) → ℕ → ℕ → Type 0
IsEdge fits total n =
    (n ≤ total) × ((n ≡ 0) ⊎ (fits n ≡ true)) × ((n ≡ total) ⊎ (fits (n + 1) ≡ false))

chd_search-IsEdge :
    (rounds : ℕ) (fits : ℕ → Bool) (total lo hi best : ℕ)
    → best + 1 ≡ lo
    → hi ≤ total
    → best ≤ hi
    → hi - best ≤ rounds
    → (best ≡ 0) ⊎ (fits best ≡ true)
    → (hi ≡ total) ⊎ (fits (hi + 1) ≡ false)
    → IsEdge fits total (chd_search rounds fits lo hi best)
unfolding chd_search
chd_search-IsEdge zero fits total lo hi best eq le bh enough low high = ground (arith, low, high)
chd_search-IsEdge (suc rounds) fits total lo hi best eq le bh enough low high =
    let mid : ℕ = lo + (hi - lo) / 2 in
    elim (Bool-cases (ltb hi lo)) [
      | inl done ↦ rw (done, chd_search) (ground (arith, low, high))
      | inr on ↦ elim (Bool-cases (fits mid)) [
        | inl up ↦
            rw (on, up, chd_search)
              (chd_search-IsEdge rounds fits total (mid + 1) hi mid refl le (ground arith)
                (ground arith) (inr up) high)
        | inr down ↦
            rw (on, down, positive mid (ground arith), chd_search)
              (chd_search-IsEdge rounds fits total lo (mid - 1) best eq (ground arith)
                (ground arith) (ground arith) low
                (inr (ap fits (pred_suc mid (ground arith)) ∙ down)))
      ]
    ]
  where
    positive : (m : ℕ) → 0 < m → (m == 0) ≡ false
    positive m h = ground arith

    pred_suc : (m : ℕ) → 0 < m → m - 1 + 1 ≡ m
    pred_suc m h = omega arith

-- CH_d is a whole number of slots, at most the disk's, that is 0 or that the samples still place,
-- and one slot more is beyond the disk or is a size that the samples do not place.
pub compute_chd-IsEdge :
    (hash : ℕ → ℕ → ℕ) (wanted disk_bytes disk_id : ℕ) (intervals : List Interval)
    → (n : ℕ) × (compute_chd hash wanted disk_bytes disk_id intervals ≡ n * slot_size)
      × IsEdge
          (λ slots.
            chd_success_rate disk_bytes intervals
              (sample_fids hash disk_id 0 chd_samples)
              slots
              (required_samples wanted))
          ((disk_bytes - grid_start) / slot_size)
          n
unfolding compute_chd
compute_chd-IsEdge hash wanted disk_bytes disk_id intervals =
    let total : ℕ = (disk_bytes - grid_start) / slot_size in
    let fits : ℕ → Bool = λ slots.
      chd_success_rate disk_bytes intervals (sample_fids hash disk_id 0 chd_samples) slots
        (required_samples wanted) in
    elim (Bool-cases (leb disk_bytes grid_start || total == 0)) [
      | inl none' ↦ (0, ground (arith, none'), ground (arith, none'))
      | inr some' ↦ (
        chd_search total fits 1 total 0,
        ground (arith, some'),
        chd_search-IsEdge total fits total 1 total 0 refl (omega arith) (omega arith) (omega arith)
            (inl refl) (inl refl),
      )
    ]
