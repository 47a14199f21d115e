-- ===== src/Blk/Errors.antt =====
-- The errors of internal/blk: the named ones, and one constructor for each errors.New and fmt.Errorf.
use bsos.Base.{ℕ}

pub data Error : Type 0 where
  out_of_range index_full index_not_found : Error
  header_too_small magic_mismatch : Error
  entry_size : ℕ → Error
  size_limit : ℕ → Error
  reserved_sentinel : Error
  invalid_pair : ℕ → Error
  unexpected_jumpcode : ℕ → Error
  zero_size : ℕ → Error
  duplicate_fid : ℕ → Error
  index_too_large : ℕ → Error
  read_failed : Error
