-- ===== src/Daemon/Fragmentation.antt =====
-- internal/daemon/fragmentation.go: the size below which an object counts as small, from a histogram
-- of the sizes by powers of two.
pub mod Cliff
use bsos.Base.{
  ℕ, zero, suc, ◌+◌, ◌-◌, ◌^◌, Bool, true, false, not, ◌&&◌, ◌||◌, List, [], ◌∷◌, max, ltb, leb,
  ◌==◌, map, keep, if◌then◌else◌, some_of,
}
use bsos.Base.Maps.{Map}
use bsos.Daemon.Replay.{ObjectRef}
use bsos.Daemon.Pool.{floor_log2}

pub record FragmentationBin : Type 0 where
  pub lower_bound_bytes : ℕ
  pub upper_bound_bytes : ℕ
  pub cumulative_count : ℕ
  pub bucket_count : ℕ

pub record FragmentationMetrics : Type 0 where
  pub threshold_bytes : ℕ
  pub cliff_lower_bytes : ℕ
  pub cliff_upper_bytes : ℕ
  pub max_delta_count : ℕ
  pub bins : List FragmentationBin

abbrev no_metrics : FragmentationMetrics
no_metrics = record {
  threshold_bytes = 0;
  cliff_lower_bytes = 0;
  cliff_upper_bytes = 0;
  max_delta_count = 0;
  bins = [];
}

unfoldable pub pow2_bytes : ℕ → ℕ
pow2_bytes pow = if pow == 0 then 1 else if leb 63 pow then 2 ^ 63 else 2 ^ pow

-- counts[pow]: the sizes of that power, those of 0 left out.
unfoldable pub count_pow : List ℕ → ℕ → ℕ
count_pow [] pow = 0
count_pow (size ∷ sizes) pow =
    let rest = count_pow sizes pow in
    if not (size == 0) && floor_log2 64 size == pow then rest + 1 else rest

unfoldable pub max_pow : List ℕ → ℕ
max_pow [] = 0
max_pow (size ∷ sizes) =
    let rest = max_pow sizes in if size == 0 then rest else max (floor_log2 64 size) rest

abbrev pub bin_at : (ℕ → ℕ) → ℕ → ℕ → FragmentationBin
bin_at counts pow cumulative = record {
  lower_bound_bytes = pow2_bytes pow;
  upper_bound_bytes = pow2_bytes (pow + 1);
  cumulative_count = cumulative + counts pow;
  bucket_count = counts pow;
}

-- The loop from the highest power down, and the reversal: the bins stand in rising order.
pub build_bins : (ℕ → ℕ) → ℕ → ℕ → List FragmentationBin → List FragmentationBin
build_bins counts zero cumulative bins = bin_at counts 0 cumulative ∷ bins
build_bins counts (suc pow) cumulative bins =
    build_bins counts pow (cumulative + counts (suc pow))
      (bin_at counts (suc pow) cumulative ∷ bins)

-- The loop over the bins: bins[bestPow] and bestDelta.
pub best_bin : List FragmentationBin → FragmentationBin → ℕ → FragmentationBin × ℕ
best_bin [] best best_delta = (best, best_delta)
best_bin (bin ∷ bins) best best_delta =
    if ltb best_delta bin.bucket_count
    then best_bin bins bin bin.bucket_count
    else best_bin bins best best_delta

abbrev pub metrics_of : List FragmentationBin → FragmentationMetrics
metrics_of [] = no_metrics
metrics_of (b ∷ bs) =
    let (best, best_delta) = best_bin (b ∷ bs) b 0 in
    record {
      threshold_bytes = best.upper_bound_bytes;
      cliff_lower_bytes = best.lower_bound_bytes;
      cliff_upper_bytes = best.upper_bound_bytes;
      max_delta_count = best_delta;
      bins = b ∷ bs;
    }

pub compute_fragmentation_threshold : List ℕ → FragmentationMetrics
compute_fragmentation_threshold sizes =
    if some_of (λ size. not (size == 0)) sizes
    then metrics_of (build_bins (count_pow sizes) (max_pow sizes) 0 [])
    else no_metrics

-- The targets of aliases: references of another fid that are not packed.
unfoldable alias_targets : Map ObjectRef → List ℕ
alias_targets [] = []
alias_targets ((key, ref) ∷ refs) =
    let rest = alias_targets refs in
    if not (key == ref.fid) && not ref.packed then ref.fid ∷ rest else rest

unfoldable insert_size : ℕ → List ℕ → List ℕ
insert_size x [] = x ∷ []
insert_size x (y ∷ ys) = if leb x y then x ∷ y ∷ ys else y ∷ insert_size x ys

unfoldable sizes_of : List ℕ → Map ObjectRef → List ℕ
sizes_of targets [] = []
sizes_of targets ((key, ref) ∷ refs) =
    let rest = sizes_of targets refs in
    if not (key == ref.fid) || some_of (λ t. t == key) targets || ref.packed || ref.size == 0
    then rest
    else insert_size ref.size rest

-- The sizes of the objects that stand alone, in rising order.
unfoldable logical_file_sizes : Map ObjectRef → List ℕ
logical_file_sizes confirmed = sizes_of (alias_targets confirmed) confirmed
