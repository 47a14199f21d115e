-- ===== src/Daemon/Pool/BestFit.antt =====
-- internal/daemon/multidisk.go: the best-fit loops of the selection of a disk.
use bsos.Base.{
  ℕ, zero, suc, ◌+◌, ◌≡◌, refl, sym, ap, subst, ok_injective, ◌∙◌, ◌⊎◌, Bool, true, false, not,
  ◌&&◌, List, [], ◌∷◌, Option, none, some, All, ltb, leb, if◌then◌else◌, ok, Option-cases,
  Bool-cases, inl, inr, arith,
}
use bsos.Daemon.Pool.{
  Disk, Chosen, smaller, larger, can_write, current_chd, is_zram_path, pick_zram, pick_loop,
  pick_non_zram, select_disk_for_write,
}

abbrev at : {A : Type 0} → ℕ → List A → Option A
at n [] = none
at zero (x ∷ xs) = some x
at (suc n) (x ∷ xs) = at n xs

some_pair : (a b c d : ℕ) → ◌≡◌ {A = Option (ℕ × ℕ)} (some (a, b)) (some (c, d)) → (a ≡ c) × (b ≡ d)
some_pair a b c d h = ground (arith, h)

-- The choice of the first element that none comes before, among those that are eligible.
module _ {A : Type 0} (before : ℕ → ℕ → Bool) (eligible : A → Bool) (key : A → ℕ) where
  abbrev prefer : Chosen → ℕ → ℕ → Chosen
  prefer none i k = some (i, k)
  prefer (some (j, best)) i k = if before k best then some (i, k) else some (j, best)

  unfoldable choose : ℕ → List A → Chosen → Chosen
  choose i [] best = best
  choose i (x ∷ xs) best =
      let next = choose (i + 1) xs in if eligible x then next (prefer best i (key x)) else next best

  choose-none :
      (i : ℕ) (xs : List A) (best : Chosen)
      → choose i xs best ≡ none
      → (best ≡ none) × All (λ x. eligible x ≡ false) xs
  unfolding choose
  choose-none i [] best h = (h, tt)
  choose-none i (x ∷ xs) best h = elim (Bool-cases (eligible x)) [
    | inr out ↦ ground (arith, out, choose-none (i + 1) xs best (rw (out, choose) at h))
    | inl in' ↦ absurd (
        prefer_some best (choose-none (i + 1) xs (prefer best i (key x)) (rw (in', choose) at h)).0)
  ]
    where
      prefer_some : (b : Chosen) → prefer b i (key x) ≡ none → ⊥
      prefer_some none e = ground (arith, e)
      prefer_some (some (j, k)) e = ground (arith, e)

  -- What a choice (k, c) promises of the elements and of the choice before them.
  abbrev Stems : ℕ → List A → Chosen → ℕ → ℕ → Type 0
  Stems i xs best k c =
      (best ≡ some (k, c))
      ⊎ ((j : ℕ) × (x : A) × (k ≡ i + j) × (at j xs ≡ some x) × (eligible x ≡ true) × (key x ≡ c))

  abbrev NoneBefore : List A → Chosen → ℕ → Type 0
  NoneBefore xs best c =
      All (λ x. eligible x ≡ true → before (key x) c ≡ false) xs
      × ((m b : ℕ) → best ≡ some (m, b) → before b c ≡ false)

  later :
      (i : ℕ) (x : A) (xs : List A) (best : Chosen) (k c : ℕ)
      → Stems (i + 1) xs best k c
      → Stems i (x ∷ xs) best k c
  later i x xs best k c (inl e) = inl e
  later i x xs best k c (inr (j, y, eq, found, el, ke)) = inr (suc j, y, omega arith, found, el, ke)

  module _ (irreflexive : (a : ℕ) → before a a ≡ false)
      (transitive : (a b c : ℕ) → before a b ≡ false → before b c ≡ false → before a c ≡ false)
      (asymmetric : (a b : ℕ) → before a b ≡ true → before b a ≡ false) where
    prefer_of :
        (best : Chosen) (i a : ℕ)
        → (m' : ℕ) × (b' : ℕ) × (prefer best i a ≡ some (m', b'))
          × (before a b' ≡ false)
          × ((m b : ℕ) → best ≡ some (m, b) → before b b' ≡ false)
          × ((best ≡ some (m', b')) ⊎ ((m' ≡ i) × (b' ≡ a)))
    prefer_of none i a =
        (i, a, refl, irreflexive a, λ m b e. absurd (ground (arith, e)), inr (refl, refl))
    prefer_of (some (j, best)) i a = elim (Bool-cases (before a best)) [
      | inl sooner ↦ (
        i,
        a,
        rw sooner,
        irreflexive a,
        λ m b e. ground (arith, e, sooner, asymmetric a best),
        inr (refl, refl),
      )
      | inr not_sooner ↦ (
        j,
        best,
        rw not_sooner,
        not_sooner,
        λ m b e. ground (arith, e, irreflexive best),
        inl refl,
      )
    ]

    choose-some :
        (i : ℕ) (xs : List A) (best : Chosen) (k c : ℕ)
        → choose i xs best ≡ some (k, c)
        → Stems i xs best k c × NoneBefore xs best c
    unfolding choose
    choose-some i [] best k c h = (inl h, (tt, λ m b e. ground (arith, h, e, irreflexive c)))
    choose-some i (x ∷ xs) best k c h = elim (Bool-cases (eligible x)) [
      | inr out ↦
          let (stems, rest) = choose-some (i + 1) xs best k c (rw (out, choose) at h) in
          (later i x xs best k c stems, ((λ e. ground (arith, e, out), rest.0), rest.1))
      | inl in' ↦
          let (stems, rest) =
            choose-some (i + 1) xs (prefer best i (key x)) k c (rw (in', choose) at h) in
          let (m', b', eq, own, old, from) = prefer_of best i (key x) in
          (
            (elim stems [
              | inr s ↦ later i x xs best k c (inr s)
              | inl e ↦ elim from [
                | inl kept ↦ inl (kept ∙ sym eq ∙ e)
                | inr (mi, ba) ↦
                    let (mk, bc) = some_pair m' b' k c (sym eq ∙ e) in
                    inr (0, x, omega (arith, mk, mi), refl, in', sym ba ∙ bc)
              ]
            ]),
            (
              ((λ e. transitive (key x) b' c own (rest.1 m' b' eq)), rest.0),
              λ m b e. transitive b b' c (old m b e) (rest.1 m' b' eq),
            ),
          )
    ]

abbrev sooner_larger : ℕ → ℕ → Bool
sooner_larger a b = ltb b a

module _ {F : Type 0} (hash : ℕ → ℕ → ℕ) (wanted size : ℕ) where
  -- A disk of either tier that can take the write, with its CH_d.
  abbrev chd_of : Disk F → ℕ
  chd_of d = current_chd hash wanted d.state

  abbrev takes_zram : Disk F → Bool
  takes_zram d = is_zram_path d.base && (can_write d.state size && leb size (chd_of d))

  abbrev on_tier : Disk F → Bool
  on_tier d = not (is_zram_path d.base) && can_write d.state size

  abbrev roomy : Disk F → Bool
  roomy d = on_tier d && leb size (chd_of d)

  abbrev tight : Disk F → Bool
  tight d = on_tier d && not (leb size (chd_of d))

  pick_zram-choose :
      (i : ℕ) (ds : List (Disk F)) (best : Chosen)
      → pick_zram hash wanted size i ds best ≡ choose ltb takes_zram chd_of i ds best
  unfolding pick_zram choose smaller
  pick_zram-choose i [] best = refl
  pick_zram-choose i (d ∷ ds) none =
      ground
        (arith, pick_zram-choose (i + 1) ds none, pick_zram-choose (i + 1) ds (some (i, chd_of d)))
  pick_zram-choose i (d ∷ ds) (some (j, b)) = ground (
    arith,
    pick_zram-choose (i + 1) ds (some (j, b)),
    pick_zram-choose (i + 1) ds (some (i, chd_of d)),
  )

  pick_loop-choose :
      (i : ℕ) (ds : List (Disk F)) (best fallback : Chosen)
      → ((pick_loop hash wanted size i ds best fallback).0 ≡ choose ltb roomy chd_of i ds best)
        × ((pick_loop hash wanted size i ds best fallback).1
            ≡ choose sooner_larger tight chd_of i ds fallback)
  unfolding pick_loop choose smaller larger
  pick_loop-choose i [] best fallback = (refl, refl)
  pick_loop-choose i (d ∷ ds) best fallback = ground (
    arith,
    pick_loop-choose (i + 1) ds best fallback,
    pick_loop-choose (i + 1) ds (smaller best i (chd_of d)) fallback,
    pick_loop-choose (i + 1) ds best (larger fallback i (chd_of d)),
  )

  -- The disk at `i` is eligible, and no eligible disk comes before it.
  abbrev IsFirst : (ℕ → ℕ → Bool) → (Disk F → Bool) → List (Disk F) → ℕ → Type 0
  IsFirst before eligible ds i =
      (d : Disk F) × (at i ds ≡ some d)
      × (eligible d ≡ true)
      × All (λ e. eligible e ≡ true → before (chd_of e) (chd_of d) ≡ false) ds

  choose-IsFirst :
      (before : ℕ → ℕ → Bool) (eligible : Disk F → Bool) (ds : List (Disk F)) (k c : ℕ)
      → Stems before eligible chd_of 0 ds none k c × NoneBefore before eligible chd_of ds none c
      → IsFirst before eligible ds k
  choose-IsFirst before eligible ds k c (inl e, rest) = absurd (ground (arith, e))
  choose-IsFirst before eligible ds k c (inr (j, d, eq, found, el, ke), (first, _)) =
      (d, ap (λ n. at n ds) (omega (arith, eq)) ∙ found, el, rw ke first)

  -- The tests of a disk, both tiers together.
  abbrev pub IsSelected : ℕ → List (Disk F) → ℕ → Type 0
  IsSelected small ds i =
      ((ltb size small ≡ true) × IsFirst ltb takes_zram ds i)
      ⊎ (((ltb size small ≡ false) ⊎ All (λ e. takes_zram e ≡ false) ds)
          × (IsFirst ltb roomy ds i
              ⊎ (All (λ e. roomy e ≡ false) ds × IsFirst sooner_larger tight ds i)))

  pick_non_zram-IsFirst :
      (ds : List (Disk F)) (i : ℕ)
      → pick_non_zram hash wanted size ds ≡ ok i
      → IsFirst ltb roomy ds i ⊎ (All (λ e. roomy e ≡ false) ds × IsFirst sooner_larger tight ds i)
  unfolding pick_non_zram
  pick_non_zram-IsFirst ds i h =
      let (best, fallback) = pick_loop-choose 0 ds none none in
      elim (Option-cases (choose ltb roomy chd_of 0 ds none)) [
        | inr ((k, c), e) ↦
            let found =
              choose-some ltb roomy chd_of (λ a. ground arith) (λ a b c p q. ground arith)
                (λ a b p. ground arith) 0 ds none k c e in
            inl (
              subst (λ n. IsFirst ltb roomy ds n) (ok_injective (rw (best ∙ e, pick_non_zram) at h))
                (choose-IsFirst ltb roomy ds k c found))
        | inl e ↦ elim (Option-cases (choose sooner_larger tight chd_of 0 ds none)) [
          | inl e' ↦ absurd (ground (arith, rw (best ∙ e, fallback ∙ e', pick_non_zram) at h))
          | inr ((k, c), e') ↦
              let found =
                choose-some sooner_larger tight chd_of (λ a. ground arith)
                  (λ a b c p q. ground arith) (λ a b p. ground arith) 0 ds none k c e' in
              inr (
                (choose-none ltb roomy chd_of 0 ds none e).1,
                subst (λ n. IsFirst sooner_larger tight ds n)
                    (ok_injective (rw (best ∙ e, fallback ∙ e', pick_non_zram) at h))
                    (choose-IsFirst sooner_larger tight ds k c found),
              )
        ]
      ]

  -- When a disk is selected, a small file goes to the writable zram disk of the smallest sufficient
  -- CH_d, if one suffices; only a larger file, or one that no zram disk can take, goes to another
  -- tier, to the writable disk of the smallest sufficient CH_d there, or, where none suffices, to
  -- that of the largest.
  pub select_disk_for_write-IsSelected :
      (small : ℕ) (ds : List (Disk F)) (i : ℕ)
      → select_disk_for_write hash wanted small size ds ≡ ok i
      → IsSelected small ds i
  unfolding select_disk_for_write
  select_disk_for_write-IsSelected small ds i h = elim (Bool-cases (ltb size small)) [
    | inr big ↦ inr (inl big, pick_non_zram-IsFirst ds i (rw (big, select_disk_for_write) at h))
    | inl is_small ↦ elim (Option-cases (choose ltb takes_zram chd_of 0 ds none)) [
      | inl e ↦ inr (
        inr (choose-none ltb takes_zram chd_of 0 ds none e).1,
        pick_non_zram-IsFirst ds i
            (rw (is_small, pick_zram-choose 0 ds none ∙ e, select_disk_for_write) at h),
      )
      | inr ((k, c), e) ↦ inl (
        is_small,
        subst (λ n. IsFirst ltb takes_zram ds n)
            (ok_injective
              (rw (is_small, pick_zram-choose 0 ds none ∙ e, select_disk_for_write) at h))
            (choose-IsFirst ltb takes_zram ds k c (
              choose-some ltb takes_zram chd_of (λ a. ground arith) (λ a b c p q. ground arith)
                (λ a b p. ground arith) 0 ds none k c e)),
      )
    ]
  ]
