-- ===== src/Daemon/Device/Guards.antt =====
-- internal/daemon/state.go: the branches of Commit.
use bsos.Base.{
  subst, Option, err, true, replicate, ◌∙◌, if◌then◌else◌, Bool-cases, List, ℕ, ◌+◌, ◌≤◌, ◌≡◌, ◌≢◌,
  refl, ◌⊎◌, false, none, some, length, ok, Result-cases, inl, inr, arith,
}
use bsos.Blk.Layout.{grid_start}
use bsos.Base.Maps.{lookup}
use bsos.Daemon.Errors.{Error, index_fault}
use bsos.Daemon.Interval.{confirm_extent}
use bsos.Daemon.Device.{
  DeviceFile, DeviceState, PreparedWrite, commit, check_commit, write_commit, commit_tables,
  roll_back, write_synced, bad_alias, commit_bytes,
}

-- All of a state but its file, its fault and its identity.
abbrev pub SameTables : {F : Type 0} → DeviceState F → DeviceState F → Type 0
SameTables s t =
    (s.confirmed ≡ t.confirmed)
    × (s.packed ≡ t.packed)
    × (s.index_end ≡ t.index_end)
    × (s.intervals ≡ t.intervals)
    × (s.pending_intervals ≡ t.pending_intervals)
    × (s.disk_bytes ≡ t.disk_bytes)

module _ (d : DeviceFile) where
  -- The step at which a commit ended, and the fault that it leaves: a test, the first sync, or the
  -- write of the entry, behind which the tail is cleared.
  abbrev pub IsEnded : DeviceState d.File → PreparedWrite → ℕ → DeviceState d.File → Error → Type 0
  IsEnded s pw alias_for t e =
      ((check_commit s pw alias_for ≡ err e) × (t ≡ s))
      ⊎ ((entry : List ℕ) × (check_commit s pw alias_for ≡ ok entry)
          × ((d.sync s.file).1 ≡ false)
          × (t.index_err ≡ s.index_err))
      ⊎ ((entry : List ℕ) × (check_commit s pw alias_for ≡ ok entry)
          × ((d.sync s.file).1 ≡ true)
          × ((write_synced d (d.sync s.file).0 s.index_end entry).1 ≡ false)
          × (t.index_err ≡ (
              if (write_synced d (write_synced d (d.sync s.file).0 s.index_end entry).0 s.index_end
                (replicate (length entry) 0)).1
              then s.index_err
              else some index_fault)))

  roll_back_keeps :
      (s : DeviceState d.File) (n : ℕ)
      → SameTables (roll_back d s n) s
        × ((roll_back d s n).index_err ≡ (
            if (write_synced d s.file s.index_end (replicate n 0)).1
            then s.index_err
            else some index_fault))
  unfolding roll_back
  roll_back_keeps s n = ground arith

  write_commit_failed :
      (s : DeviceState d.File) (pw : PreparedWrite) (alias_for : ℕ) (entry : List ℕ) (e : Error)
      → check_commit s pw alias_for ≡ ok entry
      → (write_commit d s pw alias_for entry).1 ≡ some e
      → SameTables (write_commit d s pw alias_for entry).0 s
        × IsEnded s pw alias_for (write_commit d s pw alias_for entry).0 e
  unfolding write_commit
  write_commit_failed s pw alias_for entry e c h =
      let tail =
        roll_back_keeps (record s { file = (write_synced d (d.sync s.file).0 s.index_end entry).0 })
          (length entry) in
      elim (Bool-cases (d.sync s.file).1) [
        | inr unsynced ↦
            rw (unsynced, write_commit)
              ((refl, refl, refl, refl, refl, refl), inr (inl (entry, c, refl, refl)))
        | inl synced ↦ elim (Bool-cases (write_synced d (d.sync s.file).0 s.index_end entry).1) [
          | inl wrote ↦ absurd (ground (arith, rw (synced, wrote, write_commit) at h))
          | inr not_wrote ↦
              rw (synced, not_wrote, write_commit)
                (tail.0, inr (inr (entry, c, refl, not_wrote, tail.1)))
        ]
      ]

  -- A commit that fails publishes nothing: the references, the packed records, the end of the index
  -- and both lists of extents are as before. It ended at a test, with the state unchanged, or at
  -- the first sync, with the fault of the index unchanged, or at the write of its entry: then the
  -- index is marked faulty exactly if the zeros that clear the tail could not be written and
  -- synced.
  pub commit_failed :
      (s : DeviceState d.File) (pw : PreparedWrite) (alias_for : ℕ) (e : Error)
      → (commit d s pw alias_for).1 ≡ some e
      → SameTables (commit d s pw alias_for).0 s
        × IsEnded s pw alias_for (commit d s pw alias_for).0 e
  unfolding commit
  commit_failed s pw alias_for e h = elim (Result-cases (check_commit s pw alias_for)) [
    | inl (entry, c) ↦
        subst (λ r. SameTables r.0 s × IsEnded s pw alias_for r.0 e) (written entry c)
          (write_commit_failed s pw alias_for entry e c (rw (c, commit) at h))
    | inr (x, c) ↦
        subst (λ r. SameTables r.0 s × IsEnded s pw alias_for r.0 e) (refused x c)
          (
            (refl, refl, refl, refl, refl, refl),
            inl (c ∙ ground (arith, rw (c, commit) at h), refl),
          )
  ]
    where
      written :
          (entry : List ℕ)
          → check_commit s pw alias_for ≡ ok entry
          → write_commit d s pw alias_for entry ≡ commit d s pw alias_for
      written entry c = rw (c, commit) refl

      refused :
          (x : Error)
          → check_commit s pw alias_for ≡ err x
          → ◌≡◌ {A = DeviceState d.File × Option Error} (s, some x) (commit d s pw alias_for)
      refused x c = rw (c, commit) refl

  -- What a commit that succeeds has done to the device: its entry stands at the end of the index.
  abbrev pub IsWritten : DeviceState d.File → List ℕ → d.File → Type 0
  IsWritten s entry f =
      (f ≡ (d.sync (d.write_at (d.sync s.file).0 s.index_end entry).0).0)
      × ((d.sync s.file).1 ≡ true)
      × ((d.write_at (d.sync s.file).0 s.index_end entry).1
          ≡ record { count = length entry; failed = false })
      × ((d.sync (d.write_at (d.sync s.file).0 s.index_end entry).0).1 ≡ true)

  pub commit-IsWritten :
      (s : DeviceState d.File) (pw : PreparedWrite) (alias_for : ℕ) (entry : List ℕ)
      → check_commit s pw alias_for ≡ ok entry
      → (commit d s pw alias_for).1 ≡ none
      → IsWritten s entry (commit d s pw alias_for).0.file
  unfolding commit write_commit write_synced commit_tables
  commit-IsWritten s pw alias_for entry c h = ground (arith, h, c)

  -- A commit that succeeds has passed every test, its tables are those that commit_tables gives for
  -- the entry's length, and the fault of the index is unchanged.
  pub commit_succeeded :
      (s : DeviceState d.File) (pw : PreparedWrite) (alias_for : ℕ)
      → (commit d s pw alias_for).1 ≡ none
      → (entry : List ℕ) × (check_commit s pw alias_for ≡ ok entry)
        × (SameTables (commit d s pw alias_for).0 (commit_tables s pw alias_for (length entry)))
        × ((commit d s pw alias_for).0.index_err ≡ s.index_err)
  unfolding commit write_commit commit_tables confirm_extent
  commit_succeeded s pw alias_for h = elim (Result-cases (check_commit s pw alias_for)) [
    | inl (entry, c) ↦ (entry, c, rw (c, commit) (ground (arith, h, c)), ground (arith, h, c))
    | inr (x, c) ↦ absurd (ground (arith, c))
  ]

-- The tests that an accepted commit has passed.
pub record IsAccepted {F : Type 0} (s : DeviceState F) (pw : PreparedWrite) (alias_for : ℕ)
    (entry : List ℕ) : Type 0 where
  pub good_alias : bad_alias pw alias_for ≡ false
  pub no_fault : s.index_err ≡ none
  pub fid_free : lookup pw.fid s.confirmed ≡ none
  pub alias_free : alias_for ≢ 0 → lookup alias_for s.confirmed ≡ none
  pub bytes : commit_bytes pw alias_for ≡ ok entry
  pub fits : s.index_end + length entry ≤ grid_start

pub check_commit-IsAccepted :
    {F : Type 0} (s : DeviceState F) (pw : PreparedWrite) (alias_for : ℕ) (entry : List ℕ)
    → check_commit s pw alias_for ≡ ok entry
    → IsAccepted s pw alias_for entry
unfolding check_commit
check_commit-IsAccepted s pw alias_for entry h = record {
  good_alias = ground (arith, h);
  no_fault = ground (arith, h);
  fid_free = ground (arith, h);
  alias_free = λ ne. ground (arith, h, ne);
  bytes = ground (arith, h);
  fits = ground (arith, h);
}
