-- ===== src/Daemon/Interval.antt =====
-- internal/daemon/interval.go: the slot ranges of one disk, confirmed and pending. The lock makes
-- each operation one step, so an operation is a function on the two lists.
pub mod Slots
use bsos.Base.{
  ℕ, Bool, true, false, not, ◌&&◌, List, [], ◌∷◌, ◌++◌, Option, none, some, leb, ◌==◌,
  if◌then◌else◌, keep, some_of, Result, ok, err,
}
use bsos.Daemon.Errors.{Error, conflict}

-- An inclusive range of slots.
pub record Interval : Type 0 where
  pub start : ℕ
  pub end : ℕ

unfoldable pub overlaps : Interval → Interval → Bool
overlaps a b = leb a.start b.end && leb b.start a.end

abbrev pub same_interval : Interval → Interval → Bool
same_interval a b = a.start == b.start && a.end == b.end

-- The part of DeviceState that the reservations use.
pub record Extents : Type 0 where
  pub intervals : List Interval
  pub pending_intervals : List Interval
  pub index_err : Option Error

unfoldable pub remove_interval : List Interval → Interval → List Interval
remove_interval list target = keep (λ e. not (same_interval e target)) list

unfoldable pub reserve_extent : Extents → Interval → Result Error Extents
unfolding overlaps
reserve_extent s iv = elim s.index_err [
  | some fault ↦ err fault
  | none ↦
      if some_of (λ e. overlaps e iv) s.intervals
      then err conflict
      else if some_of (λ e. overlaps e iv) s.pending_intervals
      then err conflict
      else ok (record s { pending_intervals = s.pending_intervals ++ (iv ∷ []) })
]

unfoldable pub confirm_extent : Extents → Interval → Extents
unfolding remove_interval
confirm_extent s iv = record s {
  pending_intervals = remove_interval s.pending_intervals iv;
  intervals = s.intervals ++ (iv ∷ []);
}

unfoldable pub release_extent : Extents → Interval → Extents
unfolding remove_interval
release_extent s iv = record s { pending_intervals = remove_interval s.pending_intervals iv }
