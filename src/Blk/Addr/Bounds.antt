-- ===== src/Blk/Addr/Bounds.antt =====
-- internal/blk/addr.go: the placements of AddrForFID in plain arithmetic.
use bsos.Base.{ℕ, ◌+◌, ◌-◌, ◌*◌, ◌/◌, ◌%◌, ◌≤◌, ◌<◌, ◌≡◌, ◌⊎◌, ok, err, IsU64, arith}
use bsos.Blk.Layout.{grid_start, slot_size}
use bsos.Blk.Errors.{out_of_range}
use bsos.Blk.Addr.{Placement, addr_for_fid}

-- The slots of the data grid of a disk.
abbrev grid_slots : ℕ → ℕ
grid_slots disk_bytes = (disk_bytes - grid_start) / slot_size

-- An extent on the grid that holds `size` bytes and not a slot more.
pub record IsPlaced (disk_bytes size : ℕ) (p : Placement) : Type 0 where
  pub on_slot : p.addr ≡ grid_start + p.slot_index * slot_size
  pub in_grid : p.slot_index + p.slots_needed ≤ grid_slots disk_bytes
  pub on_disk : p.addr + p.slots_needed * slot_size ≤ disk_bytes
  pub holds : size ≤ p.slots_needed * slot_size
  pub tight : p.slots_needed * slot_size < size + slot_size
  pub nonempty : 0 < p.slots_needed

-- On a disk that is not smaller than the start of the grid, a placement lies on a slot, inside the
-- grid and on the disk, and it holds the object with less than one slot to spare, although the
-- source computes in wrapping 64-bit numbers.
pub addr_for_fid-IsPlaced :
    (disk_bytes fid size : ℕ) (p : Placement)
    → IsU64 disk_bytes
    → IsU64 size
    → grid_start ≤ disk_bytes
    → addr_for_fid disk_bytes fid size ≡ ok p
    → IsPlaced disk_bytes size p
unfolding addr_for_fid
addr_for_fid-IsPlaced disk_bytes fid size p hd hs hg e = ground arith

-- The placement in plain arithmetic, with no wrap-around.
abbrev placement : ℕ → ℕ → ℕ → Placement
placement disk_bytes fid size =
    let needed : ℕ = (size + 4095) / slot_size in
    let index : ℕ = fid % (grid_slots disk_bytes - needed + 1) in
    record { addr = grid_start + index * slot_size; slot_index = index; slots_needed = needed }

-- Every size from one byte to the whole grid is placed, where the arithmetic without wrap-around
-- says.
addr_for_fid-placement :
    (disk_bytes fid size : ℕ)
    → IsU64 disk_bytes
    → IsU64 size
    → grid_start ≤ disk_bytes
    → 0 < size
    → size ≤ grid_slots disk_bytes * slot_size
    → addr_for_fid disk_bytes fid size ≡ ok (placement disk_bytes fid size)
unfolding addr_for_fid
addr_for_fid-placement disk_bytes fid size hd hs hg h0 hc = ground arith

-- A size of 0 or above the grid's capacity is refused as out of range, those whose round-up wraps
-- included.
addr_for_fid_refuses :
    (disk_bytes fid size : ℕ)
    → IsU64 disk_bytes
    → IsU64 size
    → grid_start ≤ disk_bytes
    → (size ≡ 0) ⊎ (grid_slots disk_bytes * slot_size < size)
    → addr_for_fid disk_bytes fid size ≡ err out_of_range
unfolding addr_for_fid
addr_for_fid_refuses disk_bytes fid size hd hs hg h = ground arith
