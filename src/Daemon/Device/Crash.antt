-- ===== src/Daemon/Device/Crash.antt =====
-- internal/daemon/state.go: Commit against the replay that a restart runs.
use bsos.Base.{
  subst, ok_injective, ℕ, ◌+◌, ◌*◌, ◌<◌, ◌≡◌, sym, ap, ◌∙◌, true, false, List, [], ◌∷◌, ◌++◌, none,
  All, length, length-append, append_nil, some_of, IsU64, ok, holds_ok, arith,
}
use bsos.Base.Maps.{lookup}
use bsos.Blk.Layout.{index_start, index_packed_sentinel}
use bsos.Blk.Addr.{Placement}
use bsos.Daemon.Interval.{Interval, same_interval, confirm_extent}
use bsos.Daemon.Interval.Slots.{
  occupants, covers, occupants-append, occupants-remove_held, IsExclusive,
}
use bsos.Daemon.Replay.{Reader, place, extent_of, more, empty_state, replay_entries}
use bsos.Daemon.Replay.Append.{
  IsCommittable, commit_raws, commit_bytes-commit_raws, entries_of, committed,
  replay_entries-append, replay_entries-commit_raws,
}
use bsos.Daemon.Replay.Invariant.{empty-IsReplayed, replay_entries-IsReplayed, extent_of-IsProper}
use bsos.Daemon.Device.{DeviceFile, DeviceState, PreparedWrite, commit, commit_bytes, commit_tables}
use bsos.Daemon.Device.Guards.{
  IsAccepted, check_commit-IsAccepted, commit_succeeded, IsWritten, commit-IsWritten,
}
use bsos.Daemon.Replay.Overlay.{Absent, expand_tables-Absent}
use bsos.Daemon.Device.Recovery.{Mirrors, own, new, finish-committed, finish_inv, lookup-publish}

-- A reservation that PrepareWrite has made and that is still pending.
pub record IsPrepared {F : Type 0} (s : DeviceState F) (pw : PreparedWrite) : Type 0 where
  pub placement : Placement
  pub placed : place s.disk_bytes pw.fid pw.size ≡ ok placement
  pub extent : pw.iv ≡ extent_of placement
  pub pending : some_of (λ e. same_interval e pw.iv) s.pending_intervals ≡ true
  pub fid_range : IsU64 pw.fid
  pub size_pos : 0 < pw.size
  pub size_lt : pw.size < index_packed_sentinel

-- The slots of a pending extent are free among the confirmed ones.
pending_free :
    {F : Type 0} (s : DeviceState F) (iv : Interval) (slot : ℕ)
    → IsExclusive s.extents
    → some_of (λ e. same_interval e iv) s.pending_intervals ≡ true
    → covers slot iv ≡ true
    → occupants slot s.intervals ≡ 0
pending_free s iv slot x held c =
    omega (arith, x.at_most_one slot, occupants-remove_held slot iv s.pending_intervals held c)

module _ (d : DeviceFile) (read : Reader) (s : DeviceState d.File) (pw : PreparedWrite)
    (alias_for : ℕ) (raws : List (List ℕ)) (m : Mirrors read s raws) (q : IsPrepared s pw) where
  own_free :
      (entry : List ℕ)
      → IsAccepted s pw alias_for entry
      → (k : ℕ) → own pw alias_for k ≡ true
      → lookup k s.confirmed ≡ none
  own_free entry a k o = ground (arith, o, a.fid_free, a.alias_free)

  committable :
      (entry : List ℕ)
      → IsU64 alias_for
      → IsAccepted s pw alias_for entry
      → IsCommittable s.disk_bytes m.st pw alias_for q.placement
  committable entry ha a =
      let (st1, ex, al, pend, neigh, eq) =
        finish_inv read s.disk_bytes s.index_end m.st m.rep m.finished in
      let gone : (k : ℕ) → lookup k s.confirmed ≡ none → lookup k st1.refs ≡ none =
        λ k h. ap (λ r. lookup k r.confirmed) (sym eq) ∙ sym (m.confirmed_same k) ∙ h in
      let absent : Absent (own pw alias_for) (new pw alias_for) m.st =
        expand_tables-Absent (own pw alias_for) (new pw alias_for) read s.disk_bytes
          m.st.packed_table_fids m.st st1 ex λ k o. gone k (own_free entry a k o) in
      record {
        no_pair = pend;
        no_alias = al;
        fid_range = q.fid_range;
        alias_range = ha;
        size_pos = q.size_pos;
        size_lt = q.size_lt;
        fresh = absent pw.fid (ground arith);
        alias_fresh = λ ne. absent alias_for (ground arith);
        good_alias = a.good_alias;
        placed = q.placed;
      }

  entry_length :
      (entry : List ℕ)
      → IsU64 alias_for
      → IsAccepted s pw alias_for entry
      → length entry ≡ 16 * length (commit_raws pw alias_for)
  entry_length entry ha a =
      let (bytes, built, _, len) = commit_bytes-commit_raws pw alias_for q.fid_range ha q.size_lt in
      subst (λ b. length b ≡ 16 * length (commit_raws pw alias_for))
        (ok_injective (sym built ∙ a.bytes)) len

  -- What a restart finds in the longer stream.
  rescanned :
      (c : IsCommittable s.disk_bytes m.st pw alias_for q.placement)
      → replay_entries s.disk_bytes index_start (raws ++ commit_raws pw alias_for) empty_state
        ≡ ok (more (committed m.st pw alias_for q.placement))
  unfolding replay_entries
  rescanned c =
      replay_entries-append s.disk_bytes index_start raws (commit_raws pw alias_for) empty_state
        m.st m.scanned
      ∙ ap (λ rs. replay_entries s.disk_bytes (index_start + 16 * length raws) rs m.st)
          (sym (append_nil (commit_raws pw alias_for)))
      ∙ replay_entries-commit_raws s.disk_bytes (index_start + 16 * length raws) m.st pw alias_for
          [] q.placement c

  commit_raws-Mirrors :
      IsExclusive s.extents
      → IsU64 alias_for
      → All (λ k. own pw alias_for k ≡ false) m.st.packed_table_fids
      → (commit d s pw alias_for).1 ≡ none
      → Mirrors read (commit d s pw alias_for).0 (raws ++ commit_raws pw alias_for)
  unfolding commit_tables confirm_extent
  commit_raws-Mirrors x ha nt h =
      let (entry, checked, (conf, pack, end, ivs, pending, bytes), fault) =
        commit_succeeded d s pw alias_for h in
      let a = check_commit-IsAccepted s pw alias_for entry checked in
      let c = committable entry ha a in
      let replayed =
        holds_ok m.scanned
          (replay_entries-IsReplayed s.disk_bytes index_start raws empty_state empty-IsReplayed) in
      let free : (slot : ℕ)
          → covers slot (extent_of q.placement) ≡ true
          → occupants slot m.rep.intervals ≡ 0 =
        λ slot cov.
          sym (m.intervals_same slot)
          ∙ pending_free s pw.iv slot x q.pending (ap (covers slot) q.extent ∙ cov) in
      let (rep', fin, confs, packs, occ, _) =
        finish-committed read s.disk_bytes s.index_end m.st m.rep pw alias_for q.placement replayed
          (extent_of-IsProper s.disk_bytes pw.fid pw.size q.placement c.placed)
          (record {
            no_table = nt;
            absent = λ k o. sym (m.confirmed_same k) ∙ own_free entry a k o;
            free = free;
          })
          m.finished (commit d s pw alias_for).0.index_end in
      record {
        st = committed m.st pw alias_for q.placement;
        rep = rep';
        scanned = rw bytes (rescanned c);
        finished = rw bytes fin;
        confirmed_same = λ k. ground (
          arith,
          conf,
          confs k,
          m.confirmed_same k,
          lookup-publish k s.confirmed pw alias_for,
          lookup-publish k m.rep.confirmed pw alias_for,
        );
        packed_same = pack ∙ m.packed_same ∙ sym packs;
        intervals_same = λ slot.
            ap (occupants slot) ivs
            ∙ omega (
              arith,
              occupants-append slot s.intervals (pw.iv ∷ []),
              occupants-append slot m.rep.intervals (extent_of q.placement ∷ []),
              m.intervals_same slot,
              ap (λ iv. occupants slot (iv ∷ [])) q.extent,
              occ slot,
            );
        end_at = omega (
          arith,
          end,
          m.end_at,
          entry_length entry ha a,
          length-append raws (commit_raws pw alias_for),
        );
      }

  -- Take a disk whose tables are those of a replay of its index stream, with no slot held twice,
  -- and a pending reservation that PrepareWrite made for the object, and let no packed table be
  -- named like the object or its alias. If Commit then succeeds, it has written the bytes of its
  -- entries, and nothing else, at the end of the index, with a sync before and behind, and the
  -- tables in memory are those of a replay of the stream with the pieces of these bytes behind it.
  pub commit-Mirrors :
      IsExclusive s.extents
      → IsU64 alias_for
      → All (λ k. own pw alias_for k ≡ false) m.st.packed_table_fids
      → (commit d s pw alias_for).1 ≡ none
      → (bytes : List ℕ) × (commit_bytes pw alias_for ≡ ok bytes)
        × IsWritten d s bytes (commit d s pw alias_for).0.file
        × Mirrors read (commit d s pw alias_for).0 (raws ++ entries_of bytes)
  commit-Mirrors x ha nt h =
      let (entry, checked, _, _) = commit_succeeded d s pw alias_for h in
      let a = check_commit-IsAccepted s pw alias_for entry checked in
      let (bytes, built, same, _) =
        commit_bytes-commit_raws pw alias_for q.fid_range ha q.size_lt in
      let equal : entry ≡ bytes = ok_injective (sym a.bytes ∙ built) in
      (
        bytes,
        built,
        subst (λ b. IsWritten d s b (commit d s pw alias_for).0.file) equal
            (commit-IsWritten d s pw alias_for entry checked h),
        subst (λ rs. Mirrors read (commit d s pw alias_for).0 (raws ++ rs)) (sym same)
            (commit_raws-Mirrors x ha nt h),
      )
