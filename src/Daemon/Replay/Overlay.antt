-- ===== src/Daemon/Replay/Overlay.antt =====
-- internal/daemon/index_state.go: the expansion of packed tables from two states that differ by
-- references which no packed table names.
use bsos.Base.{
  ℕ, ◌≡◌, refl, sym, ap, subst, ◌∙◌, ok_injective, Bool, true, false, List, [], ◌∷◌, Option, none,
  All, if◌then◌else◌, ok, Result-cases, Bool-cases, Option-cases, inl, inr, arith,
}
use bsos.Base.Maps.{lookup, lookup-insert}
use bsos.Daemon.PackedTable.{PackedTableHeader, PackedTableEntry}
use bsos.Daemon.Replay.{
  ObjectRef, ReplayState, Reader, place, read_blob, decode_blob, add_packed, expand_table,
  expand_tables, packed_ref,
}

-- A table that expands does so to the same objects from any state.
expand_table_inv :
    (read : Reader) (disk_bytes k : ℕ) (ref : ObjectRef) (s s1 : ReplayState)
    → expand_table read disk_bytes k ref s ≡ ok s1
    → (table : PackedTableHeader × List PackedTableEntry) × (s1
        ≡ add_packed table.0 k ref.size table.1 s)
      × ((t : ReplayState)
          → expand_table read disk_bytes k ref t ≡ ok (add_packed table.0 k ref.size table.1 t))
unfolding expand_table
expand_table_inv read disk_bytes k ref s s1 h =
    elim (Result-cases (place disk_bytes ref.fid ref.stored_size)) [
      | inr (x, p) ↦ absurd (ground (arith, h, p))
      | inl (p, e1) ↦ elim (Result-cases (read_blob read k p.addr ref.size)) [
        | inr (x, q) ↦ absurd (ground (arith, h, e1, q))
        | inl (blob, e2) ↦ elim (Result-cases (decode_blob k blob)) [
          | inr (x, q) ↦ absurd (ground (arith, h, e1, e2, q))
          | inl (table, e3) ↦
              (table, sym (ok_injective (rw (e1, e2, e3) at h)), λ t. rw (e1, e2, e3))
        ]
      ]
    ]

module _ (own : ℕ → Bool) (new : ℕ → Option ObjectRef) where
  -- `t` has the references `new` at the fids of `own`, and those of `s` elsewhere.
  pub record Over (s t : ReplayState) : Type 0 where
    pub refs_over : (k : ℕ) → lookup k t.refs ≡ (if own k then new k else lookup k s.refs)
    pub packed_same : t.packed ≡ s.packed

  -- No fid of `own` is referred to.
  abbrev pub Absent : ReplayState → Type 0
  Absent s = (k : ℕ) → own k ≡ true → lookup k s.refs ≡ none

  add_packed-Absent :
      (h : PackedTableHeader) (table_fid table_size : ℕ) (es : List PackedTableEntry)
      (s : ReplayState)
      → Absent (add_packed h table_fid table_size es s)
      → Absent s × All (λ e. own e.fid ≡ false) es
  unfolding add_packed
  add_packed-Absent h table_fid table_size [] s a = (a, tt)
  add_packed-Absent h table_fid table_size (e ∷ es) s a =
      let (earlier, others) = add_packed-Absent h table_fid table_size es _ a in
      (
        λ k o. ground (arith, earlier k o, lookup-insert e.fid k (packed_ref h e) s.refs),
        (
          elim (Bool-cases (own e.fid)) [
            | inr free ↦ free
            | inl taken ↦ absurd (
                ground
                  (arith, earlier e.fid taken, lookup-insert e.fid e.fid (packed_ref h e) s.refs))
          ],
          others,
        ),
      )

  add_packed-Over :
      (h : PackedTableHeader) (table_fid table_size : ℕ) (es : List PackedTableEntry)
      (s t : ReplayState)
      → All (λ e. own e.fid ≡ false) es
      → Over s t
      → Over (add_packed h table_fid table_size es s) (add_packed h table_fid table_size es t)
  unfolding add_packed
  add_packed-Over h table_fid table_size [] s t a v = v
  add_packed-Over h table_fid table_size (e ∷ es) s t (free, a) v =
      add_packed-Over h table_fid table_size es _ _ a (record {
        refs_over = λ k. ground (
          arith,
          free,
          v.refs_over k,
          lookup-insert e.fid k (packed_ref h e) s.refs,
          lookup-insert e.fid k (packed_ref h e) t.refs,
        );
        packed_same = rw v.packed_same;
      })

  pub expand_tables-Absent :
      (read : Reader) (disk_bytes : ℕ) (ts : List ℕ) (s s' : ReplayState)
      → expand_tables read disk_bytes ts s ≡ ok s'
      → Absent s'
      → Absent s
  unfolding expand_tables
  expand_tables-Absent read disk_bytes [] s s' e a = subst Absent (sym (ok_injective e)) a
  expand_tables-Absent read disk_bytes (k ∷ ts) s s' e a = elim (Option-cases (lookup k s.refs)) [
    | inl gone ↦ expand_tables-Absent read disk_bytes ts s s' (rw (gone, expand_tables) at e) a
    | inr (ref, held) ↦ elim (Result-cases (expand_table read disk_bytes k ref s)) [
      | inr (x, h) ↦ absurd (ground (arith, e, held, h))
      | inl (s1, h) ↦
          let ((header, es), eq, same) = expand_table_inv read disk_bytes k ref s s1 h in
          let a1 : Absent s1 =
            expand_tables-Absent read disk_bytes ts s1 s' (ground (arith, e, held, h)) a in
          (add_packed-Absent header k ref.size es s (subst Absent eq a1)).0
    ]
  ]

  -- Each table gives the same objects on both sides, since its own reference is the same.
  pub expand_tables-Over :
      (read : Reader) (disk_bytes : ℕ) (ts : List ℕ) (s t s' : ReplayState)
      → All (λ k. own k ≡ false) ts
      → Over s t
      → expand_tables read disk_bytes ts s ≡ ok s'
      → Absent s'
      → (t' : ReplayState) × (expand_tables read disk_bytes ts t ≡ ok t') × Over s' t'
  unfolding expand_tables
  expand_tables-Over read disk_bytes [] s t s' free v e a =
      (t, refl, subst (λ x. Over x t) (ok_injective e) v)
  expand_tables-Over read disk_bytes (k ∷ ts) s t s' (f, free) v e a =
      elim (Option-cases (lookup k s.refs)) [
        | inl gone ↦
            let (t', h, w) =
              expand_tables-Over read disk_bytes ts s t s' free v (rw (gone, expand_tables) at e)
                a in
            (t', rw (same ∙ gone, expand_tables) h, w)
        | inr (ref, held) ↦ elim (Result-cases (expand_table read disk_bytes k ref s)) [
          | inr (x, h) ↦ absurd (ground (arith, e, held, h))
          | inl (s1, h) ↦
              let ((header, es), eq, same_table) = expand_table_inv read disk_bytes k ref s s1 h in
              let rest : expand_tables read disk_bytes ts s1 ≡ ok s' = ground (arith, e, held, h) in
              let a1 : Absent s1 = expand_tables-Absent read disk_bytes ts s1 s' rest a in
              let others = (add_packed-Absent header k ref.size es s (subst Absent eq a1)).1 in
              let t1 : ReplayState = add_packed header k ref.size es t in
              let v1 : Over s1 t1 =
                subst (λ x. Over x t1) (sym eq)
                  (add_packed-Over header k ref.size es s t others v) in
              let (t', g, w) = expand_tables-Over read disk_bytes ts s1 t1 s' free v1 rest a in
              (t', rw (same ∙ held, expand_tables) (rw (same_table t) g), w)
        ]
      ]
    where
      same : lookup k t.refs ≡ lookup k s.refs
      same = v.refs_over k ∙ rw f

add_packed-extents :
    (h : PackedTableHeader) (table_fid table_size : ℕ) (es : List PackedTableEntry)
    (s : ReplayState)
    → (add_packed h table_fid table_size es s).extents_map ≡ s.extents_map
unfolding add_packed
add_packed-extents h table_fid table_size [] s = refl
add_packed-extents h table_fid table_size (e ∷ es) s =
    add_packed-extents h table_fid table_size es _

-- The expansion of packed tables moves no extent.
pub expand_tables-extents :
    (read : Reader) (disk_bytes : ℕ) (ts : List ℕ) (s s' : ReplayState)
    → expand_tables read disk_bytes ts s ≡ ok s'
    → s'.extents_map ≡ s.extents_map
unfolding expand_tables
expand_tables-extents read disk_bytes [] s s' e = ap (λ x. x.extents_map) (sym (ok_injective e))
expand_tables-extents read disk_bytes (k ∷ ts) s s' e = elim (Option-cases (lookup k s.refs)) [
  | inl gone ↦ expand_tables-extents read disk_bytes ts s s' (rw (gone, expand_tables) at e)
  | inr (ref, held) ↦ elim (Result-cases (expand_table read disk_bytes k ref s)) [
    | inr (x, h) ↦ absurd (ground (arith, e, held, h))
    | inl (s1, h) ↦
        let ((header, es), eq, same) = expand_table_inv read disk_bytes k ref s s1 h in
        expand_tables-extents read disk_bytes ts s1 s' (ground (arith, e, held, h))
        ∙ ap (λ x. x.extents_map) eq
        ∙ add_packed-extents header k ref.size es s
  ]
]
