-- ===== src/Daemon/Gate/Reservation.antt =====
-- internal/daemon/gate.go: the reservations fid by fid.
use bsos.Base.{
  ℕ, ◌≡◌, Bool, true, false, not, ◌&&◌, ◌||◌, List, [], ◌∷◌, ◌==◌, keep, some_of, ok, err, All,
  Result-cases, Bool-cases, inl, inr, arith,
}
use bsos.Daemon.Errors.{conflict}
use bsos.Daemon.Gate.{
  PoolGate, ConfirmedFunc, is_pending, add_pending, drop_pending, fids_of, check_confirmed, add_all,
  reserve, release,
}

abbrev mine : ℕ → ℕ → ℕ → Bool
mine fid alias_for k = k == fid || (not (alias_for == 0) && k == alias_for)

is_pending-drop :
    (g : PoolGate) (f k : ℕ) → is_pending (drop_pending g f) k ≡ (not (k == f) && is_pending g k)
unfolding is_pending drop_pending
is_pending-drop g f k = dropped g.pending
  where
    dropped :
        (xs : List ℕ)
        → some_of (λ e. e == k) (keep (λ e. not (e == f)) xs)
          ≡ (not (k == f) && some_of (λ e. e == k) xs)
    dropped [] = ground arith
    dropped (x ∷ xs) = ground (arith, dropped xs)

is_pending-add :
    (g : PoolGate) (f k : ℕ) → is_pending (add_pending g f) k ≡ (k == f || is_pending g k)
unfolding is_pending add_pending
is_pending-add g f k = elim (Bool-cases (some_of (λ e. e == f) g.pending)) [
  | inr new ↦ rw new (ground arith)
  | inl old ↦
      rw old
        (elim (Bool-cases (k == f)) [ inl same ↦ ground (arith, old) | inr other ↦ ground arith ])
]

check_confirmed-free :
    (confirmed : ConfirmedFunc) (fs fs' : List ℕ)
    → check_confirmed confirmed fs ≡ ok fs'
    → (fs' ≡ fs) × All (λ f. confirmed f ≡ ok false) fs
unfolding check_confirmed
check_confirmed-free confirmed [] fs' h = ground (arith, h)
check_confirmed-free confirmed (f ∷ fs) fs' h = elim (Result-cases (confirmed f)) [
  | inr (e, c) ↦ absurd (ground (arith, h, c))
  | inl (found, c) ↦ elim (Result-cases (check_confirmed confirmed fs)) [
    | inr (e, r) ↦ absurd (ground (arith, h, c, r))
    | inl (rest, r) ↦ ground (arith, h, c, r, check_confirmed-free confirmed fs rest r)
  ]
]

-- A reservation that is granted has passed both checks.
reserve_inv :
    (g g' : PoolGate) (fid alias_for : ℕ) (confirmed : ConfirmedFunc)
    → reserve g fid alias_for confirmed ≡ ok g'
    → (some_of (is_pending g) (fids_of fid alias_for) ≡ false)
      × (g' ≡ add_all g (fids_of fid alias_for))
      × All (λ f. confirmed f ≡ ok false) (fids_of fid alias_for)
unfolding reserve
reserve_inv g g' fid alias_for confirmed h =
    elim (Result-cases (check_confirmed confirmed (fids_of fid alias_for))) [
      | inr (e, c) ↦ absurd (ground (arith, h, c))
      | inl (fids, c) ↦
          ground (arith, h, c, check_confirmed-free confirmed (fids_of fid alias_for) fids c)
    ]

-- A reservation that is granted was of a fid and an alias neither of which was pending or
-- confirmed, and then those two are pending and the other fids as before.
reserve-granted :
    (g g' : PoolGate) (fid alias_for : ℕ) (confirmed : ConfirmedFunc)
    → reserve g fid alias_for confirmed ≡ ok g'
    → (k : ℕ)
    → (is_pending g' k ≡ (mine fid alias_for k || is_pending g k))
      × (mine fid alias_for k ≡ true → is_pending g k ≡ false)
      × (mine fid alias_for k ≡ true → confirmed k ≡ ok false)
unfolding add_all
reserve-granted g g' fid alias_for confirmed h k =
    let (free, eq, confirmed_free) = reserve_inv g g' fid alias_for confirmed h in
    ground (
      arith,
      free,
      eq,
      confirmed_free,
      is_pending-add g fid k,
      is_pending-add (add_pending g fid) alias_for k,
    )

-- While a granted reservation is held, another one whose fid or alias is one of the two is refused
-- with a conflict.
pub reserve-reserve :
    (g g' : PoolGate) (fid alias_for other other_alias : ℕ) (confirmed : ConfirmedFunc)
    → reserve g fid alias_for confirmed ≡ ok g'
    → (mine fid alias_for other || mine fid alias_for other_alias && not (other_alias == 0)) ≡ true
    → reserve g' other other_alias confirmed ≡ err conflict
unfolding reserve
reserve-reserve g g' fid alias_for other other_alias confirmed h clash = ground (
  arith,
  clash,
  reserve-granted g g' fid alias_for confirmed h other,
  reserve-granted g g' fid alias_for confirmed h other_alias,
)

-- Releasing a granted reservation leaves every fid pending or not as it was before the reservation.
pub release-reserve :
    (g g' : PoolGate) (fid alias_for : ℕ) (confirmed : ConfirmedFunc)
    → reserve g fid alias_for confirmed ≡ ok g'
    → (k : ℕ) → is_pending (release g' fid alias_for) k ≡ is_pending g k
unfolding release
release-reserve g g' fid alias_for confirmed h k = ground (
  arith,
  reserve-granted g g' fid alias_for confirmed h k,
  is_pending-drop g' fid k,
  is_pending-drop (drop_pending g' fid) alias_for k,
)
