-- ===== src/Daemon/Device/Recovery.antt =====
-- internal/daemon/state.go and index_state.go: the tables of a disk beside those of a replay.
use bsos.Base.{
  ℕ, ◌+◌, ◌-◌, ◌*◌, ◌≡◌, refl, sym, ap, ◌∙◌, Bool, true, false, not, ◌&&◌, ◌||◌, List, [], ◌∷◌,
  ◌++◌, Option, none, All, length, All-append, ◌==◌, if◌then◌else◌, ok, Result-cases, Bool-cases,
  inl, inr, arith,
}
use bsos.Base.Maps.{Map, lookup, insert, values, lookup-insert, insert_new, values-append}
use bsos.Blk.Layout.{index_start}
use bsos.Blk.Addr.{Placement}
use bsos.Daemon.Interval.{Interval}
use bsos.Daemon.Interval.Slots.{occupants, covers, occupants-append}
use bsos.Daemon.Replay.{
  ObjectRef, ReplayState, Replayed, Reader, more, empty_state, extent_of, expand_tables, whole_ref,
  any_neighbours_overlap, finish, replay_entries,
}
use bsos.Daemon.Replay.Sort.{sort_extents}
use bsos.Daemon.Replay.Extents.{IsProper, occupants-sort, occupants-le_one, shared_slot_found}
use bsos.Daemon.Replay.Append.{committed}
use bsos.Daemon.Replay.Invariant.{IsReplayed}
use bsos.Daemon.Replay.Overlay.{
  Absent, expand_tables-Over, expand_tables-Absent, expand_tables-extents,
}
use bsos.Daemon.Device.{DeviceState, PreparedWrite, publish}

-- The fids that a commit registers, and the references that it gives them.
abbrev pub own : PreparedWrite → ℕ → ℕ → Bool
own pw alias_for k = k == pw.fid || (not (alias_for == 0) && k == alias_for)

abbrev pub new : PreparedWrite → ℕ → ℕ → Option ObjectRef
new pw alias_for k = lookup k (publish [] pw alias_for)

pub lookup-publish :
    (k : ℕ) (refs : Map ObjectRef) (pw : PreparedWrite) (alias_for : ℕ)
    → lookup k (publish refs pw alias_for)
      ≡ (if own pw alias_for k then new pw alias_for k else lookup k refs)
unfolding publish
lookup-publish k refs pw alias_for = ground (
  arith,
  lookup-insert pw.fid k (whole_ref pw.fid pw.size pw.size) refs,
  lookup-insert pw.fid k (whole_ref pw.fid pw.size pw.size) [],
  lookup-insert alias_for k (whole_ref pw.fid pw.size (pw.size - 1))
      (insert pw.fid (whole_ref pw.fid pw.size pw.size) refs),
  lookup-insert alias_for k (whole_ref pw.fid pw.size (pw.size - 1))
      (insert pw.fid (whole_ref pw.fid pw.size pw.size) []),
)

-- The parts of a `finish` that succeeded.
pub finish_inv :
    (read : Reader) (disk_bytes end : ℕ) (st : ReplayState) (rep : Replayed)
    → finish read disk_bytes st end ≡ ok rep
    → (st' : ReplayState) × (expand_tables read disk_bytes st.packed_table_fids st ≡ ok st')
      × (st.alias ≡ none)
      × (st.pending_packed ≡ none)
      × (any_neighbours_overlap (sort_extents (values st'.extents_map)) ≡ false)
      × (rep ≡ record {
        confirmed = st'.refs;
        packed = st'.packed;
        intervals = sort_extents (values st'.extents_map);
        index_end = end;
      })
unfolding finish
finish_inv read disk_bytes end st rep h =
    elim (Result-cases (expand_tables read disk_bytes st.packed_table_fids st)) [
      | inr (x, e) ↦ absurd (ground (arith, h, e))
      | inl (st', e) ↦ (
        st',
        e,
        ground (arith, h, e),
        ground (arith, h, e),
        ground (arith, h, e),
        ground (arith, h, e),
      )
    ]

finish_intro :
    (read : Reader) (disk_bytes end : ℕ) (st st' : ReplayState)
    → st.alias ≡ none
    → st.pending_packed ≡ none
    → expand_tables read disk_bytes st.packed_table_fids st ≡ ok st'
    → any_neighbours_overlap (sort_extents (values st'.extents_map)) ≡ false
    → finish read disk_bytes st end
      ≡ ok (record {
        confirmed = st'.refs;
        packed = st'.packed;
        intervals = sort_extents (values st'.extents_map);
        index_end = end;
      })
unfolding finish
finish_intro read disk_bytes end st st' al pend ex apart = simp (al, pend, ex, apart)

-- The disk's tables are those of a replay of `raws`, the entries of its index so far.
pub record Mirrors {F : Type 0} (read : Reader) (s : DeviceState F) (raws : List (List ℕ))
    : Type 0 where
  pub st : ReplayState
  pub rep : Replayed
  pub scanned : replay_entries s.disk_bytes index_start raws empty_state ≡ ok (more st)
  pub finished : finish read s.disk_bytes st s.index_end ≡ ok rep
  pub confirmed_same : (k : ℕ) → lookup k s.confirmed ≡ lookup k rep.confirmed
  pub packed_same : s.packed ≡ rep.packed
  pub intervals_same : (slot : ℕ) → occupants slot s.intervals ≡ occupants slot rep.intervals
  pub end_at : s.index_end ≡ index_start + 16 * length raws

module _ (read : Reader) (disk_bytes end : ℕ) (st : ReplayState) (rep : Replayed)
    (pw : PreparedWrite) (alias_for : ℕ) (p : Placement) where
  -- No packed table is named like the new object or its alias, nor is either registered.
  pub record IsNew : Type 0 where
    pub no_table : All (λ k. own pw alias_for k ≡ false) st.packed_table_fids
    pub absent : (k : ℕ) → own pw alias_for k ≡ true → lookup k rep.confirmed ≡ none
    pub free : (slot : ℕ) → covers slot (extent_of p) ≡ true → occupants slot rep.intervals ≡ 0

  values-new :
      IsReplayed st
      → lookup pw.fid st.refs ≡ none
      → values (insert pw.fid (extent_of p) st.extents_map)
        ≡ values st.extents_map ++ (extent_of p ∷ [])
  unfolding values
  values-new v fresh =
      rw (insert_new pw.fid (extent_of p) st.extents_map (v.indexed pw.fid fresh))
        (values-append st.extents_map ((pw.fid, extent_of p) ∷ []))

  -- One extent more on free slots leaves every slot with one holder at most.
  no_neighbours :
      (xs : List Interval)
      → All IsProper xs
      → IsProper (extent_of p)
      → any_neighbours_overlap (sort_extents xs) ≡ false
      → ((slot : ℕ) → covers slot (extent_of p) ≡ true → occupants slot xs ≡ 0)
      → any_neighbours_overlap (sort_extents (xs ++ (extent_of p ∷ []))) ≡ false
  unfolding occupants
  no_neighbours xs px pp h free =
      elim (Bool-cases (any_neighbours_overlap (sort_extents (xs ++ (extent_of p ∷ []))))) [
        | inr none' ↦ none'
        | inl bad ↦
            let (slot, two) =
              shared_slot_found (xs ++ (extent_of p ∷ []))
                (All-append IsProper xs (extent_of p ∷ []) px (pp, tt)) bad in
            absurd (
              ground (
                arith,
                two,
                free slot,
                occupants-le_one slot xs px h,
                occupants-append slot xs (extent_of p ∷ []),
              ))
      ]

  -- Finishing the replay of the longer stream gives the longer tables.
  pub finish-committed :
      IsReplayed st
      → IsProper (extent_of p)
      → IsNew
      → finish read disk_bytes st end ≡ ok rep
      → (later : ℕ)
      → (rep' : Replayed) × (finish read disk_bytes (committed st pw alias_for p) later ≡ ok rep')
        × ((k : ℕ) → lookup k rep'.confirmed ≡ lookup k (publish rep.confirmed pw alias_for))
        × (rep'.packed ≡ rep.packed)
        × ((slot : ℕ)
            → occupants slot rep'.intervals ≡ occupants slot (rep.intervals ++ (extent_of p ∷ [])))
        × (rep'.index_end ≡ later)
  finish-committed v proper n h later =
      let (st1, ex, al, pend, neigh, eq) = finish_inv read disk_bytes end st rep h in
      let abs1 : Absent (own pw alias_for) (new pw alias_for) st1 =
        λ k o. ap (λ r. lookup k r.confirmed) (sym eq) ∙ n.absent k o in
      let fresh : lookup pw.fid st.refs ≡ none =
        expand_tables-Absent (own pw alias_for) (new pw alias_for) read disk_bytes
          st.packed_table_fids st st1 ex abs1 pw.fid (ground arith) in
      let (t1, ex', ov) =
        expand_tables-Over (own pw alias_for) (new pw alias_for) read disk_bytes
          st.packed_table_fids st (committed st pw alias_for p) st1 n.no_table
          (record { refs_over = λ k. lookup-publish k st.refs pw alias_for; packed_same = refl }) ex
          abs1 in
      let old : st1.extents_map ≡ st.extents_map =
        expand_tables-extents read disk_bytes st.packed_table_fids st st1 ex in
      let extents : values t1.extents_map ≡ values st.extents_map ++ (extent_of p ∷ []) =
        ap values (
          expand_tables-extents read disk_bytes st.packed_table_fids (committed st pw alias_for p)
            t1 ex')
        ∙ values-new v fresh in
      let held : (slot : ℕ)
          → occupants slot rep.intervals ≡ occupants slot (values st.extents_map) =
        λ slot.
          ap (λ r. occupants slot r.intervals) eq
          ∙ occupants-sort slot (values st1.extents_map)
          ∙ ap (λ m. occupants slot (values m)) old in
      let apart : any_neighbours_overlap (sort_extents (values t1.extents_map)) ≡ false =
        rw extents (
          no_neighbours (values st.extents_map) v.proper proper (rw old at neigh)
            λ slot c. sym (held slot) ∙ n.free slot c) in
      (
        record {
          confirmed = t1.refs;
          packed = t1.packed;
          intervals = sort_extents (values t1.extents_map);
          index_end = later;
        },
        finish_intro read disk_bytes later (committed st pw alias_for p) t1 al pend ex' apart,
        λ k.
            ov.refs_over k
            ∙ sym (lookup-publish k st1.refs pw alias_for)
            ∙ ap (λ r. lookup k (publish r.confirmed pw alias_for)) (sym eq),
        ov.packed_same ∙ ap (λ r. r.packed) (sym eq),
        λ slot.
            occupants-sort slot (values t1.extents_map)
            ∙ rw extents (
                omega (
                  arith,
                  held slot,
                  occupants-append slot (values st.extents_map) (extent_of p ∷ []),
                  occupants-append slot rep.intervals (extent_of p ∷ []),
                )),
        refl,
      )
