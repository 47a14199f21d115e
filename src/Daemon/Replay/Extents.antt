-- ===== src/Daemon/Replay/Extents.antt =====
-- internal/daemon/index_state.go: the sorted extents and the test of neighbours.
use bsos.Base.{
  ℕ, ◌≤◌, ◌<◌, ◌≡◌, refl, true, false, List, [], ◌∷◌, All, Bool-cases, inl, inr, max, arith,
}
use bsos.Daemon.Interval.{Interval, overlaps}
use bsos.Daemon.Interval.Slots.{occupants}
use bsos.Daemon.Replay.{any_neighbours_overlap}
use bsos.Daemon.Replay.Sort.{insert_extent, sort_extents}

occupants-insert_extent :
    (slot : ℕ) (a : Interval) (bs : List Interval)
    → occupants slot (insert_extent a bs) ≡ occupants slot (a ∷ bs)
unfolding occupants insert_extent
occupants-insert_extent slot a [] = refl
occupants-insert_extent slot a (b ∷ bs) = ground (arith, occupants-insert_extent slot a bs)

pub occupants-sort :
    (slot : ℕ) (xs : List Interval) → occupants slot (sort_extents xs) ≡ occupants slot xs
unfolding occupants sort_extents
occupants-sort slot [] = refl
occupants-sort slot (a ∷ xs) =
    ground (arith, occupants-insert_extent slot a (sort_extents xs), occupants-sort slot xs)

-- Every start is at least `n`, and the starts rise.
abbrev Rising : ℕ → List Interval → Type 0
Rising n [] = Unit {0}
Rising n (a ∷ bs) = (n ≤ a.start) × Rising a.start bs

insert_extent-Rising :
    (n : ℕ) (a : Interval) (bs : List Interval)
    → n ≤ a.start
    → Rising n bs
    → Rising n (insert_extent a bs)
unfolding insert_extent
insert_extent-Rising n a [] h r = (h, tt)
insert_extent-Rising n a (b ∷ bs) h (hb, r) =
    ground (arith, λ (k : b.start ≤ a.start). insert_extent-Rising b.start a bs k r)

sort_extents-Rising : (xs : List Interval) → Rising 0 (sort_extents xs)
unfolding sort_extents
sort_extents-Rising [] = tt
sort_extents-Rising (a ∷ xs) =
    insert_extent-Rising 0 a (sort_extents xs) (omega arith) (sort_extents-Rising xs)

abbrev pub IsProper : Interval → Type 0
IsProper iv = iv.start ≤ iv.end

-- Behind extents that rise without overlapping neighbours, slots below the first start are free.
occupants_below : (slot n : ℕ) (xs : List Interval) → Rising n xs → slot < n → occupants slot xs ≡ 0
unfolding occupants
occupants_below slot n [] r h = refl
occupants_below slot n (a ∷ xs) r h = ground (arith, occupants_below slot a.start xs r.1)

occupants-Rising :
    (slot n : ℕ) (xs : List Interval)
    → Rising n xs
    → All IsProper xs
    → any_neighbours_overlap xs ≡ false
    → occupants slot xs ≤ 1
unfolding occupants any_neighbours_overlap overlaps
occupants-Rising slot n [] r p h = omega arith
occupants-Rising slot n (a ∷ []) r p h = ground arith
occupants-Rising slot n (a ∷ b ∷ xs) r p h = ground (
  arith,
  occupants-Rising slot a.start (b ∷ xs) r.1 p.1,
  occupants_below slot b.start xs r.1.1,
  occupants_below slot b.start (b ∷ xs) (omega arith, r.1.1),
)

insert_extent-IsProper :
    (a : Interval) (bs : List Interval)
    → IsProper a
    → All IsProper bs
    → All IsProper (insert_extent a bs)
unfolding insert_extent
insert_extent-IsProper a [] h p = (h, tt)
insert_extent-IsProper a (b ∷ bs) h (hb, p) = ground (arith, insert_extent-IsProper a bs h p)

sort_extents-IsProper : (xs : List Interval) → All IsProper xs → All IsProper (sort_extents xs)
unfolding sort_extents
sort_extents-IsProper [] p = tt
sort_extents-IsProper (a ∷ xs) (h, p) =
    insert_extent-IsProper a (sort_extents xs) h (sort_extents-IsProper xs p)

-- The test of neighbours in the sorted list finds every shared slot of the unsorted one.
pub occupants-le_one :
    (slot : ℕ) (xs : List Interval)
    → All IsProper xs
    → any_neighbours_overlap (sort_extents xs) ≡ false
    → occupants slot xs ≤ 1
occupants-le_one slot xs p h = omega (
  arith,
  occupants-sort slot xs,
  occupants-Rising slot 0 (sort_extents xs) (sort_extents-Rising xs) (sort_extents-IsProper xs p) h,
)

-- And it finds nothing else: overlapping neighbours share a slot.
shared_neighbours :
    (xs : List Interval)
    → All IsProper xs
    → any_neighbours_overlap xs ≡ true
    → (slot : ℕ) × (1 < occupants slot xs)
unfolding occupants any_neighbours_overlap overlaps
shared_neighbours [] p h = cc
shared_neighbours (a ∷ []) p h = cc
shared_neighbours (a ∷ b ∷ xs) p h = elim (Bool-cases (overlaps a b)) [
  | inl hit ↦ (max a.start b.start, ground (arith, p.0, p.1.0))
  | inr miss ↦ let (slot, o) = shared_neighbours (b ∷ xs) p.1 (ground arith) in (slot, ground arith)
]

pub shared_slot_found :
    (xs : List Interval)
    → All IsProper xs
    → any_neighbours_overlap (sort_extents xs) ≡ true
    → (slot : ℕ) × (1 < occupants slot xs)
shared_slot_found xs p h =
    let (slot, o) = shared_neighbours (sort_extents xs) (sort_extents-IsProper xs p) h in
    (slot, omega (arith, occupants-sort slot xs))
