-- ===== src/Blk/Addr.antt =====
-- internal/blk/addr.go: where the object of a fid lies in the data grid. A uint64 wraps at 2 ^ 64.
pub mod Bounds
use bsos.Base.{
  ℕ, ◌+◌, ◌-◌, ◌/◌, ◌%◌, ltb, ◌==◌, ◌||◌, if◌then◌else◌, Result, ok, err, add64, sub64, mul64,
}
use bsos.Blk.Layout.{grid_start, slot_size}
use bsos.Blk.Errors.{Error, out_of_range}

pub record Placement : Type 0 where
  pub addr : ℕ
  pub slot_index : ℕ
  pub slots_needed : ℕ

unfoldable pub addr_for_fid : ℕ → ℕ → ℕ → Result Error Placement
addr_for_fid disk_bytes fid size_bytes =
    let slots : ℕ = sub64 disk_bytes grid_start / slot_size in
    let slots_needed : ℕ = sub64 (add64 size_bytes slot_size) 1 / slot_size in
    let slot_index : ℕ = fid % (slots - slots_needed + 1) in
    if slots == 0
    then err out_of_range
    else if slots_needed == 0 || ltb slots slots_needed
    then err out_of_range
    else if ltb slots (slot_index + slots_needed)
    then err out_of_range
    else ok (record {
      addr = add64 grid_start (mul64 slot_index slot_size);
      slot_index = slot_index;
      slots_needed = slots_needed;
    })
