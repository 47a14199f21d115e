-- ===== src/Daemon/Fragmentation/Cliff.antt =====
-- internal/daemon/fragmentation.go: the bin that the threshold comes from.
use bsos.Base.{ℕ, ◌+◌, ◌≤◌, ◌≡◌}
use bsos.Daemon.Fragmentation.{FragmentationBin, pow2_bytes, FragmentationMetrics}

-- The bin of some power of two up to the largest.
abbrev IsBinOf : (ℕ → ℕ) → ℕ → FragmentationBin → Type 0
IsBinOf counts top b =
    (k : ℕ) × (k ≤ top)
    × (b.bucket_count ≡ counts k)
    × (b.lower_bound_bytes ≡ pow2_bytes k)
    × (b.upper_bound_bytes ≡ pow2_bytes (k + 1))

-- The threshold is the upper bound of the power of two whose bin the metrics name.
abbrev pub IsCliff : (ℕ → ℕ) → ℕ → FragmentationMetrics → Type 0
IsCliff counts top m =
    (k : ℕ) × (k ≤ top)
    × (m.max_delta_count ≡ counts k)
    × (m.cliff_lower_bytes ≡ pow2_bytes k)
    × (m.cliff_upper_bytes ≡ pow2_bytes (k + 1))
    × (m.threshold_bytes ≡ pow2_bytes (k + 1))
