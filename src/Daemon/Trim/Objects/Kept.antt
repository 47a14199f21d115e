-- ===== src/Daemon/Trim/Objects/Kept.antt =====
-- internal/daemon/trim.go: what the writing of an object without an alias changes, and what it keeps.
use bsos.Base.{
  sym, ◌∙◌, ◌-◌, ◌*◌, min, replicate, ◌+◌, ◌++◌, [], ◌∷◌, true, false, zero, suc, ◌≢◌, ap, subst, ℕ,
  ◌≡◌, refl, List, Option, none, some, length, ok, Result-cases, Bool-cases, inl, inr, ◌==◌, arith,
}
use bsos.Base.Maps.{lookup, insert}
use bsos.Daemon.Replay.{whole_ref, extent_of}
use bsos.Blk.Addr.{Placement}
use bsos.Daemon.Errors.{Error, conflict}
use bsos.Daemon.Device.{DeviceFile, DeviceState, from_blk}
use bsos.Blk.Entry.{build_index_entry}
use bsos.Daemon.Trim.{write_plain}
use bsos.Blk.Layout.{slot_size}
use bsos.Daemon.Stream.{write_zeros, write_rounds, write_buffer, write_chunk}
use bsos.Daemon.Trim.Objects.{
  check_new, add_new, write_entry, write_pad, write_reads, write_file_object, write_new,
  write_object,
}

-- At most the file is another one.
abbrev pub IsKept : {F : Type 0} → DeviceState F → DeviceState F → Type 0
IsKept s t = t ≡ record s { file = t.file }

-- The object has passed the tests, and it alone entered the tables.
abbrev pub IsAdded : {F : Type 0} → ℕ → ℕ → DeviceState F → DeviceState F → Type 0
IsAdded fid size s t =
    (p : Placement) × (n : ℕ) × (check_new s fid size ≡ ok p)
    × (t ≡ add_new (record s { file = t.file }) fid size p n)

module _ (d : DeviceFile) where
  open d use {File}

  abbrev pub IsStored : List ℕ → ℕ → DeviceState File → DeviceState File → Type 0
  IsStored data' fid s t =
      (p : Placement) × (entry : List ℕ) × (check_new s fid (length data') ≡ ok p)
      × (build_index_entry fid (length data') 0 ≡ ok entry)
      × ((d.write_at s.file p.addr data').1.failed ≡ false)
      × ((write_pad d (d.write_at s.file p.addr data').0 p (length data')).1 ≡ none)
      × ((d.write_at (write_pad d (d.write_at s.file p.addr data').0 p (length data')).0 s.index_end
            entry).1.failed
          ≡ false)
      × ((d.sync
            (d.write_at (write_pad d (d.write_at s.file p.addr data').0 p (length data')).0
              s.index_end entry).0).1
          ≡ true)
      × (t ≡ record s {
        file =
            (d.sync
              (d.write_at (write_pad d (d.write_at s.file p.addr data').0 p (length data')).0
                s.index_end entry).0).0;
        confirmed = insert fid (whole_ref fid (length data') (length data')) s.confirmed;
        index_end = s.index_end + length entry;
        extents = record (s.extents) { intervals = s.intervals ++ (extent_of p ∷ []) };
      })

  pub IsStored-IsAdded :
      (data' : List ℕ) (fid : ℕ) (s t : DeviceState File)
      → IsStored data' fid s t
      → IsAdded fid (length data') s t
  unfolding add_new
  IsStored-IsAdded data' fid s t (p, entry, c, b, _, _, _, _, e) = (
    p,
    length entry,
    c,
    e ∙ sym (ap (λ f. add_new (record s { file = f.file }) fid (length data') p (length entry)) e),
  )

  write_zeros_no_conflict :
      (rounds : ℕ) (f : File) (addr total written : ℕ)
      → (write_zeros d rounds f addr total written).1 ≢ some conflict
  unfolding write_zeros write_buffer
  write_zeros_no_conflict zero f addr total written h = ground (arith, h)
  write_zeros_no_conflict (suc rounds) f addr total written h = ground (
    arith,
    h,
    write_zeros_no_conflict rounds
        (write_buffer d f (addr + written) (replicate (min write_chunk (total - written)) 0)).0 addr
        total (written + min write_chunk (total - written)),
  )

  write_entry_failed :
      (s : DeviceState File) (fid size : ℕ) (p : Placement) (e : Error)
      → (write_entry d s fid size p).1 ≡ some e
      → IsKept s (write_entry d s fid size p).0
  unfolding write_entry
  write_entry_failed s fid size p e h = ground (arith, h)

  write_entry_adds :
      (s : DeviceState File) (fid size : ℕ) (p : Placement)
      → (write_entry d s fid size p).1 ≡ none
      → (n : ℕ) × ((write_entry d s fid size p).0
          ≡ add_new (record s { file = (write_entry d s fid size p).0.file }) fid size p n)
  unfolding write_entry add_new
  write_entry_adds s fid size p h = elim (Result-cases (from_blk (build_index_entry fid size 0))) [
    | inl (entry, b) ↦ (length entry, ground (arith, h, b))
    | inr (x, b) ↦ absurd (ground (arith, h, b))
  ]

  module _ (payload : File → ℕ → File × Option Error) (s : DeviceState File) (fid size : ℕ) where
    -- Writing an object without an alias, where it fails, changes at most the bytes on the device.
    pub write_new_failed :
        (e : Error)
        → (write_new d payload s fid size).1 ≡ some e
        → IsKept s (write_new d payload s fid size).0
    unfolding write_new
    write_new_failed e h = elim (Result-cases (check_new s fid size)) [
      | inr (x, c) ↦ rw (c, write_new) refl
      | inl (p, c) ↦ ground (
        arith,
        h,
        c,
        write_entry_failed (record s { file = (write_pad d (payload s.file p.addr).0 p size).0 })
            fid size p e,
      )
    ]

    -- One that succeeds ends with its index entry.
    write_new-write_entry :
        (p : Placement)
        → check_new s fid size ≡ ok p
        → (write_new d payload s fid size).1 ≡ none
        → write_new d payload s fid size
          ≡ write_entry d
              (record s { file = (write_pad d (payload s.file p.addr).0 p size).0 })
              fid
              size
              p
    unfolding write_new
    write_new-write_entry p c h = ground (arith, h, c)

    pub write_new_adds :
        (write_new d payload s fid size).1 ≡ none
        → IsAdded fid size s (write_new d payload s fid size).0
    unfolding write_new
    write_new_adds h = elim (Result-cases (check_new s fid size)) [
      | inr (x, c) ↦ absurd (ground (arith, h, c))
      | inl (p, c) ↦
          let same = write_new-write_entry p c h in
          let done =
            write_entry_adds (record s { file = (write_pad d (payload s.file p.addr).0 p size).0 })
              fid size p (rw (same) at h) in
          (p, done.0, c, rw (same) done.1)
    ]

  -- An object whose write was kept from the tables before does not count.
  pub IsAdded-IsKept :
      (fid size : ℕ) (s s' t : DeviceState File)
      → IsKept s s'
      → IsAdded fid size s' t
      → IsAdded fid size s t
  unfolding check_new add_new
  IsAdded-IsKept fid size s s' t kept (p, n, c, e) = (
    p,
    n,
    subst (λ x. check_new x fid size ≡ ok p) kept c,
    subst (λ x. t ≡ add_new (record x { file = t.file }) fid size p n) kept e,
  )

  module _ (hash : List ℕ → ℕ) where
    pub write_object_failed :
        (s : DeviceState File) (data' : List ℕ) (e : Error)
        → (write_object d hash s data').1 ≡ some e
        → IsKept s (write_object d hash s data').0
    unfolding write_object
    write_object_failed s data' e h = elim (Bool-cases (length data' == 0)) [
      | inl z ↦ rw (z, write_object) refl
      | inr nz ↦
          rw (nz, write_object)
            (write_new_failed (λ f addr. write_plain d f addr data') s (hash data') (length data') e
              (rw (nz, write_object) at h))
    ]

    pub write_object_adds :
        (s : DeviceState File) (data' : List ℕ)
        → (write_object d hash s data').1 ≡ none
        → IsAdded (hash data') (length data') s (write_object d hash s data').0
    unfolding write_object
    write_object_adds s data' h = elim (Bool-cases (length data' == 0)) [
      | inl z ↦ absurd (ground (arith, h, z))
      | inr nz ↦
          rw (nz, write_object)
            (write_new_adds (λ f addr. write_plain d f addr data') s (hash data') (length data')
              (rw (nz, write_object) at h))
    ]

    -- A conflict is found before anything is written.
    pub write_object_conflict :
        (s : DeviceState File) (data' : List ℕ)
        → (write_object d hash s data').1 ≡ some conflict
        → (write_object d hash s data').0 ≡ s
    unfolding write_object write_new write_entry write_plain write_pad
    write_object_conflict s data' h = elim (Bool-cases (length data' == 0)) [
      | inl z ↦ absurd (ground (arith, h, z))
      | inr nz ↦ elim (Result-cases (check_new s (hash data') (length data'))) [
        | inr (x, c) ↦ rw (nz, write_object, c, write_new) refl
        | inl (p, c) ↦ absurd (
            ground (
              arith,
              h,
              nz,
              c,
              write_zeros_no_conflict (write_rounds (p.slots_needed * slot_size - length data'))
                  (d.write_at s.file p.addr data').0 (p.addr + length data')
                  (p.slots_needed * slot_size - length data') 0,
            ))
      ]
    ]

    -- What it has then written: the bytes at the object's place, the zeros behind them, and the entry at
    -- the end of the index. Nothing failed, and the object alone entered the tables.
    pub write_object-IsStored :
        (s : DeviceState File) (data' : List ℕ)
        → (write_object d hash s data').1 ≡ none
        → IsStored data' (hash data') s (write_object d hash s data').0
    unfolding write_object write_new write_entry add_new write_plain
    write_object-IsStored s data' h = elim (Bool-cases (length data' == 0)) [
      | inl z ↦ absurd (ground (arith, h, z))
      | inr nz ↦ elim (Result-cases (check_new s (hash data') (length data'))) [
        | inr (x, c) ↦ absurd (ground (arith, h, nz, c))
        | inl (p, c) ↦ elim (Result-cases (build_index_entry (hash data') (length data') 0)) [
          | inr (x, b) ↦ absurd (ground (arith, h, nz, c, b))
          | inl (entry, b) ↦ (
            p,
            entry,
            c,
            b,
            ground (arith, h, nz, c, b),
            ground (arith, h, nz, c, b),
            ground (arith, h, nz, c, b),
            ground (arith, h, nz, c, b),
            ground (arith, h, nz, c, b),
          )
        ]
      ]
    ]

    pub write_file_object_failed :
        (reads : List ℕ → List (Option (List ℕ))) (s : DeviceState File) (content : List ℕ)
        (e : Error)
        → (write_file_object d hash reads s content).1 ≡ some e
        → IsKept s (write_file_object d hash reads s content).0
    unfolding write_file_object
    write_file_object_failed reads s content e h = elim (Bool-cases (length content == 0)) [
      | inl z ↦ rw (z, write_file_object) refl
      | inr nz ↦
          rw (nz, write_file_object)
            (write_new_failed (λ f addr. write_reads d f addr (length content) (reads content) 0) s
              (hash content) (length content) e (rw (nz, write_file_object) at h))
    ]

    pub write_file_object_adds :
        (reads : List ℕ → List (Option (List ℕ))) (s : DeviceState File) (content : List ℕ)
        → (write_file_object d hash reads s content).1 ≡ none
        → IsAdded (hash content) (length content) s (write_file_object d hash reads s content).0
    unfolding write_file_object
    write_file_object_adds reads s content h = elim (Bool-cases (length content == 0)) [
      | inl z ↦ absurd (ground (arith, h, z))
      | inr nz ↦
          rw (nz, write_file_object)
            (write_new_adds (λ f addr. write_reads d f addr (length content) (reads content) 0) s
              (hash content) (length content) (rw (nz, write_file_object) at h))
    ]

-- An object that was added had not been there.
pub IsAdded-inserts :
    {F : Type 0} (fid size : ℕ) (s t : DeviceState F)
    → IsAdded fid size s t
    → (lookup fid s.confirmed ≡ none)
      × (t.confirmed ≡ insert fid (whole_ref fid size size) s.confirmed)
unfolding check_new add_new
IsAdded-inserts fid size s t (p, n, c, e) = (ground (arith, c), ap (λ x. x.confirmed) e)
