-- ===== src/Blk/Layout.antt =====
-- internal/blk/layout.go, and the constants of index.go and index_v2.go.
use bsos.Base.{ℕ, ◌-◌, ◌^◌}

abbrev pub header_bytes : ℕ
header_bytes = 4096

abbrev pub grid_start : ℕ
grid_start = 0x10000000

abbrev pub index_start : ℕ
index_start = header_bytes

abbrev pub index_bytes : ℕ
index_bytes = grid_start - header_bytes

abbrev pub slot_size : ℕ
slot_size = 4096

abbrev pub format_version : ℕ
format_version = 2

abbrev pub index_entry_size : ℕ
index_entry_size = 16

abbrev pub index_jump_sentinel : ℕ
index_jump_sentinel = 2 ^ 56 - 1

abbrev pub index_packed_sentinel : ℕ
index_packed_sentinel = 2 ^ 56 - 2

abbrev pub packed_anchor_code : ℕ
packed_anchor_code = 0xff
