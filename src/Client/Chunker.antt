-- ===== src/Client/Chunker.antt =====
-- pkg/cdc/chunker.go. The FastCDC library is outside: what its Next gives, call by call, is a list.
use bsos.Base.{
  ℕ, ◌*◌, Bool, true, false, ◌||◌, List, [], ◌∷◌, length, ltb, ◌==◌, add64, if◌then◌else◌,
}

pub record Options : Type 0 where
  pub min_size : ℕ
  pub target_size : ℕ
  pub max_size : ℕ

abbrev default_min_size : ℕ
default_min_size = 4 * 1024 * 1024

abbrev default_target_size : ℕ
default_target_size = 16 * 1024 * 1024

abbrev default_max_size : ℕ
default_max_size = 32 * 1024 * 1024

abbrev default_options : Options
default_options = record {
  min_size = default_min_size;
  target_size = default_target_size;
  max_size = default_max_size;
}

abbrev positive_or : ℕ → ℕ → ℕ
positive_or given default = if ltb 0 given then given else default

-- NewChunker's options: a size that is not positive is the default.
unfoldable chunker_options : Options → Options
chunker_options given = record {
  min_size = positive_or given.min_size default_min_size;
  target_size = positive_or given.target_size default_target_size;
  max_size = positive_or given.max_size default_max_size;
}

unfoldable bad_options : Options → Bool
bad_options o = o.min_size == 0 || ltb o.target_size o.min_size || ltb o.max_size o.target_size

pub record Chunk : Type 0 where
  pub fid : ℕ
  pub offset : ℕ
  pub size : ℕ
  pub data_bytes : List ℕ

-- A call of the inner Next: its buffer, and whether it failed with anything but the end.
pub record Piece : Type 0 where
  pub buf : List ℕ
  pub broken : Bool

pub record Sliced : Type 0 where
  pub chunks : List Chunk
  pub failed : Bool

module _ (hash : List ℕ → ℕ) where
  unfoldable pub chunk_of : ℕ → List ℕ → Chunk
  chunk_of offset buf = record {
    fid = hash buf;
    offset = offset;
    size = length buf;
    data_bytes = buf;
  }

  -- Next, called until it gives the end or an error.
  unfoldable pub slices : List Piece → ℕ → Sliced
  slices [] offset = record { chunks = []; failed = false }
  slices (p ∷ ps) offset =
      let rest = slices ps (add64 offset (length p.buf)) in
      if p.broken
      then record { chunks = []; failed = true }
      else if length p.buf == 0
      then record { chunks = []; failed = false }
      else record { chunks = chunk_of offset p.buf ∷ rest.chunks; failed = rest.failed }
