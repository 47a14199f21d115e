-- ===== src/Daemon/Trim/Batch.antt =====
-- internal/daemon/trim.go: the batch that a trim packs.
use bsos.Base.{
  ℕ, ◌+◌, ◌≤◌, ◌<◌, ◌≡◌, refl, ◌⊎◌, Bool, true, false, List, [], ◌∷◌, All, ltb, leb, Bool-cases,
  inl, inr, arith,
}
use bsos.Daemon.Trim.{TrimCandidate, choose_batch}

abbrev total_size : List TrimCandidate → ℕ
total_size [] = 0
total_size (c ∷ cs) = c.size + total_size cs

later_fits :
    (threshold limit total : ℕ) (cs : List TrimCandidate)
    → total ≤ limit
    → total + total_size (choose_batch threshold limit total true cs) ≤ limit
unfolding choose_batch
later_fits threshold limit total [] h = omega (arith, h)
later_fits threshold limit total (c ∷ cs) h =
    ground (
      arith,
      h,
      later_fits threshold limit total cs,
      later_fits threshold limit (total + c.size) cs,
    )

nothing_later :
    (threshold limit total : ℕ) (cs : List TrimCandidate)
    → limit < total
    → choose_batch threshold limit total true cs ≡ []
unfolding choose_batch
nothing_later threshold limit total [] h = refl
nothing_later threshold limit total (c ∷ cs) h =
    ground (arith, h, nothing_later threshold limit total cs h)

batch_small :
    (threshold limit total : ℕ) (any : Bool) (cs : List TrimCandidate)
    → All (λ c. c.size < threshold) (choose_batch threshold limit total any cs)
unfolding choose_batch
batch_small threshold limit total any [] = tt
batch_small threshold limit total any (c ∷ cs) = ground (
  arith,
  batch_small threshold limit total any cs,
  batch_small threshold limit (total + c.size) true cs,
)

-- A batch of a trim stays within the limit or is one object, and every object in it is below the
-- threshold.
choose_batch-fits :
    (threshold limit : ℕ) (cs : List TrimCandidate)
    → ((total_size (choose_batch threshold limit 0 false cs) ≤ limit)
        ⊎ ((c : TrimCandidate) × (choose_batch threshold limit 0 false cs ≡ c ∷ [])))
      × All (λ c. c.size < threshold) (choose_batch threshold limit 0 false cs)
unfolding choose_batch
choose_batch-fits threshold limit cs = (first cs, batch_small threshold limit 0 false cs)
  where
    first :
        (cs : List TrimCandidate)
        → (total_size (choose_batch threshold limit 0 false cs) ≤ limit)
          ⊎ ((c : TrimCandidate) × (choose_batch threshold limit 0 false cs ≡ c ∷ []))
    first [] = inl (omega arith)
    first (c ∷ cs) = elim (Bool-cases (ltb c.size threshold)) [
      | inr large ↦ rw (large, choose_batch) (first cs)
      | inl small ↦ elim (Bool-cases (leb c.size limit)) [
        | inl fits ↦ inl (ground (arith, small, fits, later_fits threshold limit c.size cs))
        | inr wide ↦ inr (c, ground (arith, small, wide, nothing_later threshold limit c.size cs))
      ]
    ]
