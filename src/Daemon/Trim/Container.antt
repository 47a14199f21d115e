-- ===== src/Daemon/Trim/Container.antt =====
-- internal/daemon/trim.go: the container's bytes and its entries.
use bsos.Base.{
  sym, map, ℕ, ◌+◌, ◌≡◌, refl, ap, subst, ◌∙◌, List, [], ◌∷◌, ◌++◌, All, length, length-append,
  take, drop, take_append, drop_append, Result, ok, Result-cases, ok_injective, inl, inr, arith,
}
use bsos.Daemon.Errors.{Error}
use bsos.Daemon.Trim.{TrimCandidate, ContainerEntry, build_container}

joined : (a b c : List ℕ) → (a ++ b) ++ c ≡ a ++ (b ++ c)
joined [] b c = refl
joined (x ∷ a) b c = ap (◌∷◌ x) (joined a b c)

exact :
    (before object later : List ℕ) (size : ℕ)
    → length object ≡ size
    → take size (drop (length before) (before ++ (object ++ later))) ≡ object
exact before object later size h =
    ap (take size) (drop_append before (object ++ later) (length before) refl)
    ∙ take_append object later size h

module _ (read : ℕ → Result Error (List ℕ × ℕ)) where
  -- The bytes of the entry in the container are those of the object.
  abbrev pub HoldsObject : List ℕ → ContainerEntry → Type 0
  HoldsObject container e =
      (object : List ℕ) × (read e.fid ≡ ok (object, e.size))
      × (take e.size (drop e.offset container) ≡ object)

  placed_after :
      (before : List ℕ) (cs : List TrimCandidate) (container : List ℕ) (es : List ContainerEntry)
      → ((fid size : ℕ) (object : List ℕ) → read fid ≡ ok (object, size) → length object ≡ size)
      → build_container read (length before) cs ≡ ok (container, es)
      → All (HoldsObject (before ++ container)) es
  unfolding build_container
  placed_after before [] container es sized h =
      subst (λ r. All (HoldsObject (before ++ r.0)) r.1) (ok_injective h) tt
  placed_after before (c ∷ cs) container es sized h = elim (Result-cases (read c.fid)) [
    | inr (e, r) ↦ absurd (ground (arith, rw (r, build_container) at h))
    | inl ((object, size), r) ↦
        elim (Result-cases (build_container read (length before + size) cs)) [
          | inr (e, q) ↦ absurd (ground (arith, rw (r, q, build_container) at h))
          | inl ((later, rest), q) ↦
              let same : length (before ++ object) ≡ length before + size =
                length-append before object
                ∙ ap (λ n. length before + n) (sized c.fid size object r) in
              subst (λ r. All (HoldsObject (before ++ r.0)) r.1)
                (ok_injective (rw (r, q, build_container) at h))
                (
                  (object, r, exact before object later size (sized c.fid size object r)),
                  subst (λ t. All (HoldsObject t) rest) (joined before object later)
                      (placed_after (before ++ object) cs later rest sized (rw same q)),
                )
        ]
  ]

  -- An entry for each candidate, in their order.
  build_container-fids :
      (offset : ℕ) (cs : List TrimCandidate) (container : List ℕ) (es : List ContainerEntry)
      → build_container read offset cs ≡ ok (container, es)
      → map (λ e. e.fid) es ≡ map (λ c. c.fid) cs
  unfolding build_container
  build_container-fids offset [] container es h =
      ap (λ r. map (λ e. e.fid) r.1) (sym (ok_injective h))
  build_container-fids offset (c ∷ cs) container es h = elim (Result-cases (read c.fid)) [
    | inr (e, r) ↦ absurd (ground (arith, rw (r, build_container) at h))
    | inl ((object, size), r) ↦ elim (Result-cases (build_container read (offset + size) cs)) [
      | inr (e, q) ↦ absurd (ground (arith, rw (r, q, build_container) at h))
      | inl ((later, rest), q) ↦
          ap (λ t. map (λ e. e.fid) t.1) (sym (ok_injective (rw (r, q, build_container) at h)))
          ∙ ap (◌∷◌ c.fid) (build_container-fids (offset + size) cs later rest q)
    ]
  ]

  -- Where a read gives as many bytes as it says, a container has one entry for each candidate, in
  -- their order, and each object is read back from the container at the offset and with the size of
  -- its entry.
  pub build_container-HoldsObject :
      (cs : List TrimCandidate) (container : List ℕ) (es : List ContainerEntry)
      → ((fid size : ℕ) (object : List ℕ) → read fid ≡ ok (object, size) → length object ≡ size)
      → build_container read 0 cs ≡ ok (container, es)
      → (map (λ e. e.fid) es ≡ map (λ c. c.fid) cs) × All (HoldsObject container) es
  build_container-HoldsObject cs container es sized h =
      (build_container-fids 0 cs container es h, placed_after [] cs container es sized h)
