-- ===== src/Daemon/Gate.antt =====
-- internal/daemon/gate.go: the reservation of fids that the whole pool shares. The lock makes each
-- operation one step; `confirmed` is the callback that asks every disk.
pub mod Reservation
use bsos.Base.{
  ℕ, Bool, true, false, not, ◌&&◌, List, [], ◌∷◌, ◌==◌, if◌then◌else◌, keep, some_of, Result, ok,
  err, ◌>>=◌, ◌>>◌, fail_if,
}
use bsos.Daemon.Errors.{Error, conflict}

-- The keys of `pending`.
pub record PoolGate : Type 0 where
  pub pending : List ℕ

abbrev pub new_pool_gate : PoolGate
new_pool_gate = record { pending = [] }

abbrev pub ConfirmedFunc : Type 0
ConfirmedFunc = ℕ → Result Error Bool

unfoldable pub is_pending : PoolGate → ℕ → Bool
is_pending g f = some_of (λ e. e == f) g.pending

-- A key that is there already stays.
unfoldable pub add_pending : PoolGate → ℕ → PoolGate
unfolding is_pending
add_pending g f = if is_pending g f then g else record { pending = f ∷ g.pending }

pub drop_pending : PoolGate → ℕ → PoolGate
drop_pending g f = record { pending = keep (λ e. not (e == f)) g.pending }

abbrev pub fids_of : ℕ → ℕ → List ℕ
fids_of fid alias_for = if alias_for == 0 then fid ∷ [] else fid ∷ alias_for ∷ []

unfoldable pub check_confirmed : ConfirmedFunc → List ℕ → Result Error (List ℕ)
check_confirmed confirmed [] = ok []
check_confirmed confirmed (f ∷ fs) = do
  found ← confirmed f
  fail_if found conflict
  rest ← check_confirmed confirmed fs
  ok (f ∷ rest)

unfoldable pub add_all : PoolGate → List ℕ → PoolGate
unfolding add_pending
add_all g [] = g
add_all g (f ∷ fs) = add_all (add_pending g f) fs

unfoldable pub reserve : PoolGate → ℕ → ℕ → ConfirmedFunc → Result Error PoolGate
reserve g fid alias_for confirmed = do
  fail_if (some_of (is_pending g) (fids_of fid alias_for)) conflict
  fids ← check_confirmed confirmed (fids_of fid alias_for)
  ok (add_all g fids)

pub release : PoolGate → ℕ → ℕ → PoolGate
release g fid alias_for =
    let own = drop_pending g fid in if alias_for == 0 then own else drop_pending own alias_for
