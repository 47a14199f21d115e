-- ===== src/Daemon/Server/Put.antt =====
-- internal/daemon/server.go: the paths of Put.
use bsos.Base.{
  ◌+◌, ◌*◌, ◌<◌, ◌≤◌, true, IsU64, ℕ, ◌-◌, ◌≡◌, refl, ◌≢◌, Bool, false, List, [], ◌∷◌, ◌++◌, none,
  some, some_of, length, ok, Result-cases, Option-cases, Bool-cases, inl, inr, arith,
}
use bsos.Base.Maps.{lookup, insert, lookup-insert}
use bsos.Daemon.Gate.{is_pending, reserve}
use bsos.Daemon.Gate.Reservation.{release-reserve}
use bsos.Daemon.Interval.{Interval, overlaps, remove_interval, reserve_extent, release_extent}
use bsos.Daemon.Replay.{place, whole_ref}
use bsos.Daemon.Replay.Extents.{IsProper}
use bsos.Daemon.Replay.Invariant.{extent_of-IsProper}
use bsos.Daemon.Stream.{Stream}
use bsos.Daemon.Stream.Context.{write_from_context}
use bsos.Daemon.Stream.Direct.Whole.{write_stream_direct-length}
use bsos.Blk.Layout.{grid_start, slot_size}
use bsos.Blk.Addr.{addr_for_fid}
use bsos.Blk.Addr.Bounds.{addr_for_fid-IsPlaced}
use bsos.Daemon.Stream.Exact.{write_from-length}
use bsos.Daemon.Device.{
  DeviceFile, DeviceState, PreparedWrite, prepare_write, commit, abort, publish, commit_tables,
  bad_alias,
}
use bsos.Daemon.Device.Guards.{SameTables, check_commit-IsAccepted, commit_failed, commit_succeeded}
use bsos.Daemon.Pool.{select_disk_for_write}
use bsos.Daemon.Server.{
  Server, PutHeader, PutContext, Status, bad_header, put_prepared, put_on_disk, put, confirmed_by,
}

remove-reserved :
    (xs : List Interval) (iv : Interval)
    → IsProper iv
    → some_of (λ e. overlaps e iv) xs ≡ false
    → remove_interval (xs ++ (iv ∷ [])) iv ≡ xs
unfolding remove_interval overlaps
remove-reserved [] iv proper h = ground arith
remove-reserved (x ∷ xs) iv proper h = ground (arith, remove-reserved xs iv)

-- What PrepareWrite has done where it succeeds.
prepare_write_inv :
    {F : Type 0} (s s' : DeviceState F) (fid size : ℕ) (pw : PreparedWrite)
    → prepare_write s fid size ≡ ok (s', pw)
    → (s' ≡ record s {
      extents = record (s.extents) { pending_intervals = s.pending_intervals ++ (pw.iv ∷ []) };
    })
      × (some_of (λ e. overlaps e pw.iv) s.pending_intervals ≡ false)
      × IsProper pw.iv
      × (pw.fid ≡ fid)
      × (pw.size ≡ size)
unfolding prepare_write reserve_extent
prepare_write_inv s s' fid size pw h = elim (Result-cases (place s.disk_bytes fid size)) [
  | inr (e, p) ↦ absurd (ground (arith, h, p))
  | inl (p, e) ↦ ground (arith, h, e, extent_of-IsProper s.disk_bytes fid size p e)
]

-- The object is not empty, and fits into its extent.
prepare_write_fits :
    {F : Type 0} (s s' : DeviceState F) (fid size : ℕ) (pw : PreparedWrite)
    → IsU64 s.disk_bytes
    → IsU64 size
    → grid_start ≤ s.disk_bytes
    → prepare_write s fid size ≡ ok (s', pw)
    → (0 < pw.size) × (pw.size ≤ (pw.iv.end - pw.iv.start + 1) * slot_size)
unfolding prepare_write
prepare_write_fits s s' fid size pw hd hs hg h =
    elim (Result-cases (addr_for_fid s.disk_bytes fid size)) [
      | inr (e, p) ↦ absurd (ground (arith, h, p))
      | inl (p, e) ↦
          let placed = addr_for_fid-IsPlaced s.disk_bytes fid size p hd hs hg e in
          ground (arith, h, e, placed.holds, placed.nonempty)
    ]

module _ (d : DeviceFile) where
  put_prepared-failed :
      (s : DeviceState d.File) (pw : PreparedWrite) (alias_for : ℕ) (r : Stream) (ctx : PutContext)
      (st : Status)
      → (put_prepared d s pw alias_for r ctx).1 ≡ some st
      → SameTables (put_prepared d s pw alias_for r ctx).0 (abort s pw)
  unfolding put_prepared abort release_extent
  put_prepared-failed s pw alias_for r ctx st h =
      let wrote = write_from_context d s pw r ctx.acquired in
      let s' : DeviceState d.File = record s { file = wrote.0 } in
      elim (Option-cases wrote.1) [
        | inr (e, w) ↦ rw (w, put_prepared) (refl, refl, refl, refl, refl, refl)
        | inl w ↦ elim (Bool-cases ctx.canceled_late) [
          | inl l ↦ rw (w, l, put_prepared) (refl, refl, refl, refl, refl, refl)
          | inr l ↦ elim (Option-cases (commit d s' pw alias_for).1) [
            | inl c ↦ absurd (ground (arith, rw (w, l, c, put_prepared) at h))
            | inr (e, c) ↦
                rw (w, l, c, put_prepared) (ground (arith, commit_failed d s' pw alias_for e c))
          ]
        ]
      ]

  -- A Put that a disk refuses, wherever it fails (reservation, the disk's turn, stream, context or
  -- commit), leaves that disk's tables and its reservations as they were.
  pub put_on_disk-failed :
      (s : DeviceState d.File) (h : PutHeader) (r : Stream) (ctx : PutContext) (st : Status)
      → (put_on_disk d s h r ctx).1 ≡ some st
      → SameTables (put_on_disk d s h r ctx).0 s
  unfolding put_on_disk abort release_extent
  put_on_disk-failed s h r ctx st e = elim (Result-cases (prepare_write s h.fid h.total_size)) [
    | inr (x, p) ↦ rw (p, put_on_disk) (refl, refl, refl, refl, refl, refl)
    | inl ((s', pw), p) ↦
        let (eq, free, proper, _, _) = prepare_write_inv s s' h.fid h.total_size pw p in
        let same = put_prepared-failed s' pw h.alias_for r ctx st (rw (p, put_on_disk) at e) in
        rw (p, put_on_disk)
          (ground (arith, same, eq, remove-reserved s.pending_intervals pw.iv proper free))
  ]

  -- A stream that is on the disk had the declared size.
  write_from_context-length :
      (s : DeviceState d.File) (pw : PreparedWrite) (r : Stream) (acquired : Bool)
      → 0 < pw.size
      → pw.size ≤ (pw.iv.end - pw.iv.start + 1) * slot_size
      → (write_from_context d s pw r acquired).1 ≡ none
      → (length r.bytes ≡ pw.size) × (r.fault ≡ false)
  unfolding write_from_context
  write_from_context-length s pw r false pos le h = absurd (ground (arith, h))
  write_from_context-length s pw r true pos le h = elim (Option-cases s.direct_file) [
    | inl off ↦ write_from-length d s.file pw r (rw (off, write_from_context) at h)
    | inr (w, on) ↦
        write_stream_direct-length (record d { write_at = w }) s.file pw.addr pw.size
          ((pw.iv.end - pw.iv.start + 1) * slot_size) r pos le (rw (on, write_from_context) at h)
  ]

  put_prepared-stored :
      (s : DeviceState d.File) (pw : PreparedWrite) (alias_for : ℕ) (r : Stream) (ctx : PutContext)
      → 0 < pw.size
      → pw.size ≤ (pw.iv.end - pw.iv.start + 1) * slot_size
      → (put_prepared d s pw alias_for r ctx).1 ≡ none
      → (length r.bytes ≡ pw.size)
        × (r.fault ≡ false)
        × (ctx.canceled_late ≡ false)
        × (lookup pw.fid s.confirmed ≡ none)
        × (bad_alias pw alias_for ≡ false)
        × ((put_prepared d s pw alias_for r ctx).0.confirmed ≡ publish s.confirmed pw alias_for)
  unfolding put_prepared commit_tables
  put_prepared-stored s pw alias_for r ctx pos le h =
      let wrote = write_from_context d s pw r ctx.acquired in
      let s' : DeviceState d.File = record s { file = wrote.0 } in
      elim (Option-cases wrote.1) [
        | inr (e, w) ↦ absurd (ground (arith, rw (w, put_prepared) at h))
        | inl w ↦ elim (Bool-cases ctx.canceled_late) [
          | inl l ↦ absurd (ground (arith, rw (w, l, put_prepared) at h))
          | inr l ↦ elim (Option-cases (commit d s' pw alias_for).1) [
            | inr (e, c) ↦ absurd (ground (arith, rw (w, l, c, put_prepared) at h))
            | inl c ↦
                let (entry, checked, same, _) = commit_succeeded d s' pw alias_for c in
                let a = check_commit-IsAccepted s' pw alias_for entry checked in
                let (len, clean) = write_from_context-length s pw r ctx.acquired pos le w in
                (len, clean, l, a.fid_free, a.good_alias, rw (w, l, c, put_prepared) same.0)
          ]
        ]
      ]

  -- On a disk that holds the start of the grid, a Put that succeeds, with or without direct I/O,
  -- has taken a stream of exactly the declared size that ended cleanly, the fid was free, and now
  -- the fid refers to the whole object and the alias, if there is one, to the object less its last
  -- byte.
  pub put_on_disk-stored :
      (s : DeviceState d.File) (h : PutHeader) (r : Stream) (ctx : PutContext)
      → IsU64 s.disk_bytes
      → IsU64 h.total_size
      → grid_start ≤ s.disk_bytes
      → (put_on_disk d s h r ctx).1 ≡ none
      → (length r.bytes ≡ h.total_size)
        × (r.fault ≡ false)
        × (lookup h.fid s.confirmed ≡ none)
        × (lookup h.fid (put_on_disk d s h r ctx).0.confirmed
            ≡ some (whole_ref h.fid h.total_size h.total_size))
        × (h.alias_for ≢ 0
            → lookup h.alias_for (put_on_disk d s h r ctx).0.confirmed
              ≡ some (whole_ref h.fid h.total_size (h.total_size - 1)))
  unfolding put_on_disk publish
  put_on_disk-stored s h r ctx hd ht hg e =
      elim (Result-cases (prepare_write s h.fid h.total_size)) [
        | inr (x, p) ↦ absurd (ground (arith, rw (p, put_on_disk) at e))
        | inl ((s', pw), p) ↦
            let (eq, _, _, hf, hs) = prepare_write_inv s s' h.fid h.total_size pw p in
            let (pos, fits) = prepare_write_fits s s' h.fid h.total_size pw hd ht hg p in
            let (len, clean, _, free, good, tables) =
              put_prepared-stored s' pw h.alias_for r ctx pos fits (rw (p, put_on_disk) at e) in
            let own = whole_ref pw.fid pw.size pw.size in
            rw (p, put_on_disk)
              (ground (
                arith,
                len,
                clean,
                free,
                good,
                tables,
                eq,
                hf,
                hs,
                lookup-insert pw.fid h.fid own s'.confirmed,
                lookup-insert h.alias_for h.fid (whole_ref pw.fid pw.size (pw.size - 1))
                    (insert pw.fid own s'.confirmed),
                lookup-insert h.alias_for h.alias_for (whole_ref pw.fid pw.size (pw.size - 1))
                    (insert pw.fid own s'.confirmed),
              ))
      ]

  -- Whatever the outcome of a Put, the pool's gate has the same fids pending afterwards as before.
  pub put-gate :
      (hash : ℕ → ℕ → ℕ) (wanted : ℕ) (s : Server d.File) (h : PutHeader) (r : Stream)
      (ctx : PutContext) (k : ℕ)
      → is_pending (put d hash wanted s h r ctx).0.gate k ≡ is_pending s.gate k
  unfolding put
  put-gate hash wanted s h r ctx k = elim (Bool-cases (bad_header s.max_put h)) [
    | inl bad ↦ rw (bad, put) refl
    | inr good ↦ elim (Result-cases (reserve s.gate h.fid h.alias_for (confirmed_by d s.disks))) [
      | inr (e, g) ↦ rw (good, g, put) refl
      | inl (g', g) ↦
          let back = release-reserve s.gate g' h.fid h.alias_for (confirmed_by d s.disks) g k in
          elim (Result-cases
            (select_disk_for_write hash wanted s.small_file_bytes h.total_size s.disks)) [
              | inr (e, sel) ↦ rw (good, g, sel, put) back
              | inl (i, sel) ↦ rw (good, g, sel, put) back
            ]
    ]
  ]
