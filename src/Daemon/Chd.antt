-- ===== src/Daemon/Chd.antt =====
-- internal/daemon/chd.go: the largest extent that enough sampled fids could still place. The sampled
-- fids are those of a hash (xxh3) of the disk's id, and `wanted` is targetP's share of the samples,
-- rounded up in floating point: both are parameters. Every number here is at most the disk's size, so
-- nothing wraps.
pub mod Search
use bsos.Base.{
  ℕ, zero, suc, ◌+◌, ◌-◌, ◌*◌, ◌/◌, Bool, true, false, List, [], ◌∷◌, ltb, leb, ◌==◌, if◌then◌else◌,
  some_of, max, Result, ok, err,
}
use bsos.Blk.Layout.{grid_start, slot_size}
use bsos.Blk.Addr.{addr_for_fid}
use bsos.Daemon.Interval.{Interval, overlaps}

abbrev pub chd_samples : ℕ
chd_samples = 64

unfoldable pub sample_fids : (ℕ → ℕ → ℕ) → ℕ → ℕ → ℕ → List ℕ
sample_fids hash disk_id i zero = []
sample_fids hash disk_id i (suc count) = hash disk_id i ∷ sample_fids hash disk_id (i + 1) count

unfoldable pub any_overlap : List Interval → Interval → Bool
any_overlap list test = some_of (λ e. overlaps e test) list

-- Whether a sample places without an overlap.
unfoldable pub sample_fits : ℕ → List Interval → ℕ → ℕ → Bool
sample_fits disk_bytes intervals size_bytes fid = elim (addr_for_fid disk_bytes fid size_bytes) [
  | err e ↦ false
  | ok p ↦
      if p.slots_needed == 0
      then false
      else if any_overlap intervals
          (record { start = p.slot_index; end = p.slot_index + p.slots_needed - 1 })
      then false
      else true
]

-- The loop over the samples stops at the success that makes the number required.
unfoldable pub count_success : ℕ → List Interval → ℕ → ℕ → List ℕ → ℕ → Bool
count_success disk_bytes intervals size_bytes required [] success = false
count_success disk_bytes intervals size_bytes required (fid ∷ fids) success =
    let rest = count_success disk_bytes intervals size_bytes required fids in
    if sample_fits disk_bytes intervals size_bytes fid
    then (if leb required (success + 1) then true else rest (success + 1))
    else rest success

unfoldable pub chd_success_rate : ℕ → List Interval → List ℕ → ℕ → ℕ → Bool
chd_success_rate disk_bytes intervals fids slots_needed required =
    if slots_needed == 0
    then false
    else count_success disk_bytes intervals (slots_needed * slot_size) required fids 0

-- The binary search, `rounds` rounds at most.
unfoldable pub chd_search : ℕ → (ℕ → Bool) → ℕ → ℕ → ℕ → ℕ
chd_search zero fits lo hi best_slots = best_slots
chd_search (suc rounds) fits lo hi best_slots =
    let mid = lo + (hi - lo) / 2 in
    elim (ltb hi lo) [
      | true ↦ best_slots
      | false ↦ elim (fits mid) [
        | true ↦ chd_search rounds fits (mid + 1) hi mid
        | false ↦ elim (mid == 0) [
          | true ↦ best_slots
          | false ↦ chd_search rounds fits lo (mid - 1) best_slots
        ]
      ]
    ]

abbrev pub required_samples : ℕ → ℕ
required_samples wanted = max wanted 1

module _ (hash : ℕ → ℕ → ℕ) (wanted : ℕ) where
  unfoldable pub compute_chd : ℕ → ℕ → List Interval → ℕ
  compute_chd disk_bytes disk_id intervals =
      let total_slots = (disk_bytes - grid_start) / slot_size in
      let fids = sample_fids hash disk_id 0 chd_samples in
      let fits =
        λ (slots : ℕ). chd_success_rate disk_bytes intervals fids slots (required_samples wanted) in
      if leb disk_bytes grid_start
      then 0
      else if total_slots == 0
      then 0
      else chd_search total_slots fits 1 total_slots 0 * slot_size
