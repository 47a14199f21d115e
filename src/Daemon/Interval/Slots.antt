-- ===== src/Daemon/Interval/Slots.antt =====
-- The reservations seen slot by slot: which extents hold a slot.
use bsos.Base.{
  ℕ, suc, ◌+◌, ◌≤◌, ◌<◌, ◌≡◌, refl, ◌⊎◌, Bool, true, false, ◌&&◌, List, [], ◌∷◌, ◌++◌, some, leb,
  if◌then◌else◌, some_of, All, max, Bool-cases, Option-cases, inl, inr, ok, err, arith,
}
use bsos.Daemon.Errors.{Error, conflict}
use bsos.Daemon.Interval.{
  Interval, overlaps, same_interval, Extents, remove_interval, reserve_extent, confirm_extent,
  release_extent,
}

abbrev pub covers : ℕ → Interval → Bool
covers slot iv = leb iv.start slot && leb slot iv.end

-- How many extents of a list hold the slot.
unfoldable pub occupants : ℕ → List Interval → ℕ
occupants slot [] = 0
occupants slot (iv ∷ ivs) = if covers slot iv then suc (occupants slot ivs) else occupants slot ivs

pub occupants-append :
    (slot : ℕ) (xs ys : List Interval)
    → occupants slot (xs ++ ys) ≡ occupants slot xs + occupants slot ys
unfolding occupants
occupants-append slot [] ys = omega arith
occupants-append slot (x ∷ xs) ys = ground (arith, occupants-append slot xs ys)

-- No slot is held twice, over the confirmed and the pending extents together.
pub record IsExclusive (s : Extents) : Type 0 where
  pub at_most_one : (slot : ℕ) → occupants slot s.intervals + occupants slot s.pending_intervals ≤ 1

-- Where no extent overlaps `iv`, none holds a slot of it.
occupants_free :
    (slot : ℕ) (iv : Interval) (xs : List Interval)
    → some_of (λ e. overlaps e iv) xs ≡ false
    → covers slot iv ≡ true
    → occupants slot xs ≡ 0
unfolding occupants overlaps
occupants_free slot iv [] h c = refl
occupants_free slot iv (x ∷ xs) h c = ground (arith, occupants_free slot iv xs)

-- Taking `iv` out frees its slots by as much as it occurs, and no other slot.
occupants-remove :
    (slot : ℕ) (iv : Interval) (xs : List Interval)
    → occupants slot (remove_interval xs iv) ≤ occupants slot xs
unfolding occupants remove_interval
occupants-remove slot iv [] = omega arith
occupants-remove slot iv (x ∷ xs) = ground (arith, occupants-remove slot iv xs)

pub occupants-remove_held :
    (slot : ℕ) (iv : Interval) (xs : List Interval)
    → some_of (λ e. same_interval e iv) xs ≡ true
    → covers slot iv ≡ true
    → occupants slot (remove_interval xs iv) < occupants slot xs
unfolding occupants remove_interval
occupants-remove_held slot iv [] h c = cc
occupants-remove_held slot iv (x ∷ xs) h c =
    ground (arith, occupants-remove_held slot iv xs, occupants-remove slot iv xs)

occupants-remove_other :
    (slot : ℕ) (iv : Interval) (xs : List Interval)
    → covers slot iv ≡ false
    → occupants slot (remove_interval xs iv) ≡ occupants slot xs
unfolding occupants remove_interval
occupants-remove_other slot iv [] c = refl
occupants-remove_other slot iv (x ∷ xs) c = ground (arith, occupants-remove_other slot iv xs c)

-- Where every slot has one holder at most, a reservation that succeeds was of free slots only, adds
-- the extent to the pending ones and leaves every slot with one holder at most.
pub reserve_extent-IsExclusive :
    (s s' : Extents) (iv : Interval)
    → IsExclusive s
    → reserve_extent s iv ≡ ok s'
    → IsExclusive s'
      × ((slot : ℕ)
          → covers slot iv ≡ true
          → occupants slot s.intervals + occupants slot s.pending_intervals ≡ 0)
      × (s'.intervals ≡ s.intervals)
      × (s'.pending_intervals ≡ s.pending_intervals ++ (iv ∷ []))
unfolding reserve_extent occupants
reserve_extent-IsExclusive s s' iv x e = (
  record {
    at_most_one = λ slot. ground (
      arith,
      x.at_most_one slot,
      occupants_free slot iv s.intervals,
      occupants_free slot iv s.pending_intervals,
      occupants-append slot s.pending_intervals (iv ∷ []),
    );
  },
  λ slot c.
      ground
        (arith, occupants_free slot iv s.intervals, occupants_free slot iv s.pending_intervals),
  ground arith,
  ground arith,
)

-- An extent that overlaps `iv` shares a slot with it.
shared_slot :
    (iv : Interval) (xs : List Interval)
    → iv.start ≤ iv.end
    → All (λ e. e.start ≤ e.end) xs
    → some_of (λ e. overlaps e iv) xs ≡ true
    → (slot : ℕ) × (covers slot iv ≡ true) × (0 < occupants slot xs)
unfolding occupants overlaps
shared_slot iv [] h hs e = cc
shared_slot iv (x ∷ xs) h hs e = elim (Bool-cases (overlaps x iv)) [
  | inl hit ↦ (max x.start iv.start, ground arith, ground arith)
  | inr miss ↦ let (slot, c, o) = shared_slot iv xs h hs.1 (ground arith) in (slot, c, ground arith)
]

-- For proper extents, a reservation is refused only for a fault of the index, or with a conflict
-- because a slot of the extent is held.
reserve_extent_refuses :
    (s : Extents) (iv : Interval) (e : Error)
    → iv.start ≤ iv.end
    → All (λ x. x.start ≤ x.end) s.intervals
    → All (λ x. x.start ≤ x.end) s.pending_intervals
    → reserve_extent s iv ≡ err e
    → (s.index_err ≡ some e)
      ⊎ ((e ≡ conflict)
          × ((slot : ℕ) × (covers slot iv ≡ true)
              × (0 < occupants slot s.intervals + occupants slot s.pending_intervals)))
unfolding reserve_extent
reserve_extent_refuses s iv e h hi hp r = elim (Option-cases s.index_err) [
  | inr (fault, f) ↦ inl (ground arith)
  | inl f ↦ inr (
    ground arith,
    elim (Bool-cases (some_of (λ e. overlaps e iv) s.intervals)) [
      | inl hit ↦ let (slot, c, o) = shared_slot iv s.intervals h hi hit in (slot, c, omega arith)
      | inr miss ↦
          let (slot, c, o) = shared_slot iv s.pending_intervals h hp (ground arith) in
          (slot, c, omega arith)
    ],
  )
]

-- Where every slot has one holder at most, confirming a pending extent changes the number of
-- holders of no slot.
occupants-confirm :
    (s : Extents) (iv : Interval) (slot : ℕ)
    → IsExclusive s
    → some_of (λ e. same_interval e iv) s.pending_intervals ≡ true
    → occupants slot (confirm_extent s iv).intervals
        + occupants slot (confirm_extent s iv).pending_intervals
      ≡ occupants slot s.intervals + occupants slot s.pending_intervals
unfolding confirm_extent occupants
occupants-confirm s iv slot x held = ground (
  arith,
  x.at_most_one slot,
  occupants-append slot s.intervals (iv ∷ []),
  occupants-remove_held slot iv s.pending_intervals held,
  occupants-remove_other slot iv s.pending_intervals,
)

-- Where every slot has one holder at most, releasing a pending extent frees the slots of that
-- extent and changes no other slot.
occupants-release :
    (s : Extents) (iv : Interval) (slot : ℕ)
    → IsExclusive s
    → some_of (λ e. same_interval e iv) s.pending_intervals ≡ true
    → occupants slot (release_extent s iv).intervals
        + occupants slot (release_extent s iv).pending_intervals
      ≡ (if covers slot iv
          then 0
          else occupants slot s.intervals + occupants slot s.pending_intervals)
unfolding release_extent
occupants-release s iv slot x held = ground (
  arith,
  x.at_most_one slot,
  occupants-remove_held slot iv s.pending_intervals held,
  occupants-remove_other slot iv s.pending_intervals,
)
