-- ===== src/Blk/Compact/ZeroRun.antt =====
-- internal/blk/index_compact.go: the count of zero bytes in scanIndexStream.
use bsos.Base.{
  ℕ, zero, suc, ◌+◌, ◌≡◌, ◌<◌, ◌≤◌, ◌%◌, ◌/◌, refl, true, List, [], ◌∷◌, ◌++◌, replicate, leb,
  Bool-cases, inl, inr, arith,
}
use bsos.Base.Bytes.{le_bytes}
use bsos.Blk.Entry.Codec.{entry_bytes, size_bytes}
use bsos.Blk.Compact.{zero_run}

-- What was counted before never makes the scan go on for longer.
zero_run-stopped :
    (run : ℕ) (xs ys : List ℕ) → (zero_run run xs).0 ≡ true → (zero_run run (xs ++ ys)).0 ≡ true
unfolding zero_run
zero_run-stopped run [] ys h = absurd (ground (arith, h))
zero_run-stopped run (x ∷ xs) ys h =
    ground (arith, h, zero_run-stopped (run + 1) xs ys, zero_run-stopped 0 xs ys)

zero_run-zeros :
    (n run : ℕ) (xs : List ℕ) → 16 ≤ run + n → 0 < n → (zero_run run (replicate n 0 ++ xs)).0 ≡ true
unfolding zero_run
zero_run-zeros zero run xs h pos = absurd (omega arith)
zero_run-zeros (suc n) run xs h pos = elim (Bool-cases (leb 16 (run + 1))) [
  | inl full ↦ rw (full, zero_run) refl
  | inr more ↦
      rw (more, zero_run)
        (zero_run-zeros n (run + 1) xs (omega (arith, h)) (ground (arith, h, more)))
]

-- The bytes of the two entries around their border.
border :
    (fid next size jump_code : ℕ) (behind : List ℕ)
    → fid < 256
    → next % 256 ≡ 0
    → (rest : List ℕ) × (entry_bytes fid 0 0 ++ (entry_bytes next size jump_code ++ behind)
        ≡ fid % 256 ∷ (replicate 16 0 ++ rest))
unfolding le_bytes
border fid next size jump_code behind hf hn = (
  le_bytes 7 (next / 256) ++ ((size_bytes size ++ (jump_code ∷ [])) ++ behind),
  rw (high, hn, le_bytes) refl,
)
  where
    high : fid / 256 ≡ 0
    high = omega arith

-- A tombstone of a fid below 256, before an entry whose fid is a multiple of 256, makes the zero
-- count stop the scan of the chunks that follow, whatever stands before and behind the two entries.
pub zero_run-tombstone :
    (run fid next size jump_code : ℕ) (before behind : List ℕ)
    → fid < 256
    → next % 256 ≡ 0
    → (zero_run run
        (before ++ (entry_bytes fid 0 0 ++ (entry_bytes next size jump_code ++ behind)))).0
      ≡ true
unfolding zero_run
zero_run-tombstone run fid next size jump_code [] behind hf hn =
    let (rest, eq) = border fid next size jump_code behind hf hn in
    rw eq (
      ground (
        arith,
        zero_run-zeros 16 (run + 1) rest (omega arith) (omega arith),
        zero_run-zeros 16 0 rest (omega arith) (omega arith),
      ))
zero_run-tombstone run fid next size jump_code (b ∷ before) behind hf hn = ground (
  arith,
  zero_run-tombstone (run + 1) fid next size jump_code before behind hf hn,
  zero_run-tombstone 0 fid next size jump_code before behind hf hn,
)
