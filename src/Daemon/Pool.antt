-- ===== src/Daemon/Pool.antt =====
-- internal/daemon/multidisk.go and the pool's parts of server.go: the choice of a disk for a write,
-- and the questions that go to every disk. The answers of the disks' goroutines come as a list in the
-- order of their arrival.
pub mod BestFit
pub mod Answers
use bsos.Base.{
  ℕ, zero, suc, ◌+◌, ◌-◌, ◌*◌, ◌/◌, ◌^◌, Bool, true, false, not, ◌&&◌, ◌||◌, List, [], ◌∷◌, ◌++◌,
  Option, none, some, length, take, drop, ltb, leb, ◌==◌, if◌then◌else◌, is_some, Result, ok, err,
  max,
}
use bsos.Blk.Layout.{grid_start, slot_size}
use bsos.Daemon.Errors.{Error, not_found, no_available_disk}
use bsos.Daemon.Chd.{compute_chd}
use bsos.Daemon.Device.{DeviceState}

-- bits.Len64(v) - 1, by halving.
unfoldable pub floor_log2 : ℕ → ℕ → ℕ
floor_log2 zero v = 0
floor_log2 (suc rounds) v = let half = floor_log2 rounds (v / 2) in if ltb v 2 then 0 else half + 1

pub pow2_log : ℕ → ℕ
pow2_log value = if value == 0 then 0 else floor_log2 64 value

abbrev digit : ℕ → Bool
digit c = leb 48 c && leb c 57

abbrev all_digits : List ℕ → Bool
all_digits [] = true
all_digits (c ∷ cs) = digit c && all_digits cs

-- The last element of a path is `zram` and a number.
unfoldable pub is_zram_path : List ℕ → Bool
is_zram_path (a ∷ b ∷ c ∷ d ∷ e ∷ es) =
    a == 122 && b == 114 && c == 97 && d == 109 && all_digits (e ∷ es)
is_zram_path _ = false

-- A disk with the last element of its device path.
pub record Disk (F : Type 0) : Type 0 where
  pub base : List ℕ
  pub state : DeviceState F

abbrev pub Chosen : Type 0
Chosen = Option (ℕ × ℕ)

-- The disk with the smaller CH_d, the earlier one where they are equal; with the larger one.
unfoldable pub smaller : Chosen → ℕ → ℕ → Chosen
smaller none i chd = some (i, chd)
smaller (some (j, best)) i chd = if ltb chd best then some (i, chd) else some (j, best)

unfoldable pub larger : Chosen → ℕ → ℕ → Chosen
larger none i chd = some (i, chd)
larger (some (j, best)) i chd = if ltb best chd then some (i, chd) else some (j, best)

module _ {F : Type 0} where
  unfoldable pub can_write : DeviceState F → ℕ → Bool
  can_write s size =
      if size == 0 || leb s.disk_bytes grid_start
      then false
      else if is_some s.index_err
      then false
      else leb size ((s.disk_bytes - grid_start) / slot_size * slot_size)

  module _ (hash : ℕ → ℕ → ℕ) (wanted : ℕ) where
    unfoldable pub current_chd : DeviceState F → ℕ
    current_chd s =
        compute_chd hash wanted s.disk_bytes s.disk_id (s.intervals ++ s.pending_intervals)

    unfoldable pub pick_zram : ℕ → ℕ → List (Disk F) → Chosen → Chosen
    pick_zram size i [] best = best
    pick_zram size i (d ∷ ds) best =
        let chd = current_chd d.state in
        let next = pick_zram size (i + 1) ds in
        if not (is_zram_path d.base)
        then next best
        else if not (can_write d.state size)
        then next best
        else if ltb chd size
        then next best
        else next (smaller best i chd)

    -- The best disk that has the room, and the fallback: the largest of those that have not.
    unfoldable pub pick_loop : ℕ → ℕ → List (Disk F) → Chosen → Chosen → Chosen × Chosen
    pick_loop size i [] best fallback = (best, fallback)
    pick_loop size i (d ∷ ds) best fallback =
        let chd = current_chd d.state in
        let next = pick_loop size (i + 1) ds in
        if is_zram_path d.base
        then next best fallback
        else if not (can_write d.state size)
        then next best fallback
        else if leb size chd
        then next (smaller best i chd) fallback
        else next best (larger fallback i chd)

    unfoldable pub pick_non_zram : ℕ → List (Disk F) → Result Error ℕ
    pick_non_zram size ds =
        let picked = pick_loop size 0 ds none none in
        elim picked.0 [
          | some (i, chd) ↦ ok i
          | none ↦ elim picked.1 [ some (i, chd) ↦ ok i | none ↦ err (no_available_disk size) ]
        ]

    unfoldable pub select_disk_for_write : ℕ → ℕ → List (Disk F) → Result Error ℕ
    select_disk_for_write small size ds =
        if ltb size small
        then (elim (pick_zram size 0 ds none) [
          | some (i, chd) ↦ ok i
          | none ↦ pick_non_zram size ds
        ])
        else pick_non_zram size ds

    unfoldable max_chd : List (Disk F) → ℕ → ℕ
    max_chd [] best = best
    max_chd (d ∷ ds) best =
        let chd = current_chd d.state in
        if is_zram_path d.base
        then max_chd ds best
        else if not (can_write d.state 1)
        then max_chd ds best
        else max_chd ds (if ltb best chd then chd else best)

    -- The capacity hint, and 0 where no disk can take anything.
    unfoldable bonnie : ℕ → List (Disk F) → ℕ
    bonnie max_put ds =
        let chd = max_chd ds 0 in
        if chd == 0 then 0 else pow2_log (if ltb 0 max_put && ltb max_put chd then max_put else chd)

  unfoldable healthy_disks : List (Disk F) → Bool
  healthy_disks [] = true
  healthy_disks (d ∷ ds) =
      if is_some (d.state.index_err) || not (can_write d.state 1) then false else healthy_disks ds

  unfoldable health : List (Disk F) → Bool → Bool
  health ds degraded = ltb 0 (length ds) && not degraded && healthy_disks ds

-- The first error is kept; an answer that the fid is there ends the loop.
pub confirmed_loop : List (Result Error Bool) → Option Error → Result Error Bool
confirmed_loop [] none = ok false
confirmed_loop [] (some e) = err e
confirmed_loop (err e ∷ rs) none = confirmed_loop rs (some e)
confirmed_loop (err e ∷ rs) (some e') = confirmed_loop rs (some e')
confirmed_loop (ok true ∷ rs) first_err = ok true
confirmed_loop (ok false ∷ rs) first_err = confirmed_loop rs first_err

pub confirmed_anywhere : List (Result Error Bool) → Result Error Bool
confirmed_anywhere rs = confirmed_loop rs none

-- errors.Is(err, ErrNotFound)
pub is_not_found : Error → Bool
is_not_found not_found = true
is_not_found _ = false

abbrev pub first_of : Option Error → Error → Error
first_of none e = e
first_of (some e') e = e'

-- getAny, headAny and the selection in Get: the first disk that has the object; else the first error
-- that is not ErrNotFound; else ErrNotFound.
pub any_loop : {A : Type 0} → List (Result Error A) → Option Error → Result Error A
any_loop [] none = err not_found
any_loop [] (some e) = err e
any_loop (ok a ∷ rs) first_err = ok a
any_loop (err e ∷ rs) first_err =
    any_loop rs (if is_not_found e then first_err else some (first_of first_err e))

pub get_any : List (Result Error (List ℕ × ℕ)) → Result Error (List ℕ × ℕ)
get_any rs = any_loop rs none

unfoldable head_any : List (Result Error ℕ) → Result Error ℕ
head_any rs = any_loop rs none
