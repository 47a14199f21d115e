-- ===== src/Daemon/Replay/Invariant.antt =====
-- internal/daemon/index_state.go: the well-formedness of the tables, entry by entry.
use bsos.Base.{
  ℕ, ◌+◌, ◌-◌, ◌≡◌, refl, false, not, ◌||◌, List, [], ◌∷◌, Option, none, some, All, ltb, leb, ◌==◌,
  is_some, ok, Result-cases, Bool-cases, Option-cases, inl, inr, arith, Holds, holds_ok, returned,
  refused,
}
use bsos.Base.Maps.{Map, lookup, insert, delete, values, lookup-insert, lookup-delete}
use bsos.Blk.Layout.{index_packed_sentinel}
use bsos.Blk.Addr.{Placement, addr_for_fid}
use bsos.Blk.Entry.{
  is_zero_entry, IndexEntry, is_jump_indicator, is_packed_anchor, is_tombstone, parse_index_entry,
}
use bsos.Daemon.Interval.{Interval}
use bsos.Daemon.Replay.{
  ReplayState, Scan, stopped, more, empty_state, place, add_object, extent_of, replay_entry,
  replay_table, replay_unpaired, replay_object, replay_alias, replay_entries, whole_ref, ObjectRef,
}
use bsos.Daemon.Replay.Extents.{IsProper}

-- A fid with an extent is indexed, and every extent has a slot.
pub record IsReplayed (st : ReplayState) : Type 0 where
  pub indexed : (k : ℕ) → lookup k st.refs ≡ none → lookup k st.extents_map ≡ none
  pub proper : All IsProper (values st.extents_map)

pub empty-IsReplayed : IsReplayed empty_state
unfolding lookup values
empty-IsReplayed = record { indexed = λ k h. refl; proper = tt }

values-insert-IsProper :
    (k : ℕ) (v : Interval) (m : Map Interval)
    → IsProper v
    → All IsProper (values m)
    → All IsProper (values (insert k v m))
unfolding insert values
values-insert-IsProper k v [] h p = (h, tt)
values-insert-IsProper k v ((j, w) ∷ m) h (hw, p) = ground (arith, values-insert-IsProper k v m h p)

values-delete-IsProper :
    (k : ℕ) (m : Map Interval) → All IsProper (values m) → All IsProper (values (delete k m))
unfolding delete values
values-delete-IsProper k [] p = tt
values-delete-IsProper k ((j, w) ∷ m) (hw, p) = ground (arith, values-delete-IsProper k m p)

-- An extent that the address function gives has a slot.
pub extent_of-IsProper :
    (disk_bytes fid size : ℕ) (p : Placement)
    → place disk_bytes fid size ≡ ok p
    → IsProper (extent_of p)
unfolding addr_for_fid
extent_of-IsProper disk_bytes fid size p h = ground arith

add_object-IsReplayed :
    (disk_bytes : ℕ) (st : ReplayState) (fid size : ℕ) (p : Placement)
    → place disk_bytes fid size ≡ ok p
    → IsReplayed st
    → IsReplayed (add_object st fid size p)
add_object-IsReplayed disk_bytes st fid size p h v = record {
  indexed = λ k n. ground (
    arith,
    v.indexed k,
    lookup-insert fid k (extent_of p) st.extents_map,
    lookup-insert fid k
        (record { fid = fid; stored_size = size; size = size; offset = 0; packed = false }) st.refs,
  );
  proper =
      values-insert-IsProper fid (extent_of p) st.extents_map
        (extent_of-IsProper disk_bytes fid size p h) v.proper;
}

-- The tables with one more reference, or with other pairs waiting, are still well formed.
more_refs :
    (st : ReplayState) (fid : ℕ) (ref : ObjectRef)
    → IsReplayed st
    → IsReplayed (record st { refs = insert fid ref st.refs; alias = none })
more_refs st fid ref v = record {
  indexed = λ k n. ground (arith, v.indexed k, lookup-insert fid k ref st.refs);
  proper = v.proper;
}

replay_alias-IsReplayed :
    (st : ReplayState) (a : Option IndexEntry) (e : IndexEntry)
    → IsReplayed st
    → Holds IsReplayed (replay_alias st a e)
unfolding replay_alias
replay_alias-IsReplayed st none e v = returned v
replay_alias-IsReplayed st (some a) e v = elim (Bool-cases (a.fid == e.fid || ltb e.size 2)) [
  | inl bad ↦ rw bad refused
  | inr good ↦ rw good (returned (more_refs st a.fid (whole_ref e.fid e.size (e.size - 1)) v))
]

replay_object-IsReplayed :
    (disk_bytes : ℕ) (st : ReplayState) (e : IndexEntry)
    → IsReplayed st
    → Holds IsReplayed (replay_object disk_bytes st e)
unfolding replay_object
replay_object-IsReplayed disk_bytes st e v =
    elim (Bool-cases
      (not (e.jump_code == 0) || (e.size == 0 || leb index_packed_sentinel e.size))) [
        | inl bad ↦ rw bad refused
        | inr good ↦ elim (Bool-cases (is_some (lookup e.fid st.refs))) [
          | inl old ↦ rw (good, old) refused
          | inr new ↦
              rw (good, new)
                (elim (Result-cases (place disk_bytes e.fid e.size)) [
                  | inr (x, h) ↦ rw h refused
                  | inl (p, h) ↦ rw h (
                      replay_alias-IsReplayed _ st.alias e
                        (add_object-IsReplayed disk_bytes st e.fid e.size p h v))
                ])
        ]
      ]

replay_table-IsReplayed :
    (disk_bytes : ℕ) (st : ReplayState) (e : IndexEntry)
    → IsReplayed st
    → Holds IsReplayed (replay_table disk_bytes st e)
unfolding replay_table
replay_table-IsReplayed disk_bytes st e v =
    elim (Bool-cases (not (e.jump_code == 0) || e.size == 0)) [
      | inl bad ↦ rw bad refused
      | inr good ↦ rw good (elim (Result-cases (place disk_bytes e.fid e.size)) [
        | inr (x, h) ↦ rw h refused
        | inl (p, h) ↦
            let w = add_object-IsReplayed disk_bytes st e.fid e.size p h v in
            rw h (returned (record { indexed = w.indexed; proper = w.proper }))
      ])
    ]

tombstone-IsReplayed :
    (st : ReplayState) (k : ℕ)
    → IsReplayed st
    → IsReplayed (record st {
      refs = delete k st.refs;
      packed = delete k st.packed;
      extents_map = delete k st.extents_map;
    })
tombstone-IsReplayed st k v = record {
  indexed = λ j n.
      ground (arith, v.indexed j, lookup-delete k j st.refs, lookup-delete k j st.extents_map);
  proper = values-delete-IsProper k st.extents_map v.proper;
}

-- A change of the waiting pairs alone.
replay_unpaired-IsReplayed :
    (disk_bytes : ℕ) (st : ReplayState) (e : IndexEntry)
    → IsReplayed st
    → Holds IsReplayed (replay_unpaired disk_bytes st e)
unfolding replay_unpaired
replay_unpaired-IsReplayed disk_bytes st e v = elim (Bool-cases (is_packed_anchor e)) [
  | inl anchor ↦ rw anchor (elim (Bool-cases (is_some st.alias || e.fid == 0)) [
    | inl bad ↦ rw bad refused
    | inr good ↦ rw good (returned (record { indexed = v.indexed; proper = v.proper }))
  ])
  | inr other ↦ rw other (elim (Bool-cases (is_jump_indicator e)) [
    | inl jump ↦ rw jump (elim (Bool-cases (is_some st.alias || e.fid == 0)) [
      | inl bad ↦ rw bad refused
      | inr good ↦ rw good (elim (Bool-cases (is_some (lookup e.fid st.refs))) [
        | inl old ↦ rw old refused
        | inr new ↦ rw new (returned (record { indexed = v.indexed; proper = v.proper }))
      ])
    ])
    | inr plain ↦ rw plain (elim (Bool-cases (is_tombstone e)) [
      | inl dead ↦ rw dead (returned (tombstone-IsReplayed st e.fid v))
      | inr live ↦ rw live (replay_object-IsReplayed disk_bytes st e v)
    ])
  ])
]

replay_entry-IsReplayed :
    (disk_bytes : ℕ) (st : ReplayState) (e : IndexEntry)
    → IsReplayed st
    → Holds IsReplayed (replay_entry disk_bytes st e)
unfolding replay_entry
replay_entry-IsReplayed disk_bytes st e v = elim (Option-cases st.pending_packed) [
  | inl h ↦ rw (h, replay_entry) (replay_unpaired-IsReplayed disk_bytes st e v)
  | inr (a, h) ↦ rw (h, replay_entry) (replay_table-IsReplayed disk_bytes st e v)
]

-- The state of a scan, however it ended.
abbrev pub scan_state : Scan → ReplayState
scan_state (stopped off st) = st
scan_state (more st) = st

-- From well-formed tables, any index stream that the scan accepts gives well-formed tables: a fid
-- with an extent is indexed, and every extent has a slot.
pub replay_entries-IsReplayed :
    (disk_bytes off : ℕ) (raws : List (List ℕ)) (st : ReplayState)
    → IsReplayed st
    → Holds (λ scan. IsReplayed (scan_state scan)) (replay_entries disk_bytes off raws st)
unfolding replay_entries
replay_entries-IsReplayed disk_bytes off [] st v = returned v
replay_entries-IsReplayed disk_bytes off (raw ∷ raws) st v = elim (Bool-cases (is_zero_entry raw)) [
  | inl z ↦ rw z (returned v)
  | inr nz ↦ rw nz (elim (Result-cases (parse_index_entry raw)) [
    | inr (x, p) ↦ rw p refused
    | inl (e, p) ↦ rw p (elim (Result-cases (replay_entry disk_bytes st e)) [
      | inr (x, r) ↦ rw r refused
      | inl (st', r) ↦ rw r (
          replay_entries-IsReplayed disk_bytes (off + 16) raws st'
            (holds_ok r (replay_entry-IsReplayed disk_bytes st e v)))
    ])
  ])
]
