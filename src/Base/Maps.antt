-- ===== src/Base/Maps.antt =====
-- Go's map[uint64]V as an association list: a write replaces the key in place or adds it at the end.
use bsos.Base.{
  ℕ, ◌≡◌, refl, ap, List, [], ◌∷◌, ◌++◌, Option, none, some, ◌==◌, if◌then◌else◌, arith,
}

abbrev pub Map {ℓ} : Type ℓ → Type ℓ
Map V = List (ℕ × V)

module _ {ℓ} {V : Type ℓ} where
  unfoldable pub lookup : ℕ → Map V → Option V
  lookup k [] = none
  lookup k ((j, v) ∷ m) = if j == k then some v else lookup k m

  unfoldable pub insert : ℕ → V → Map V → Map V
  insert k v [] = (k, v) ∷ []
  insert k v ((j, w) ∷ m) = if j == k then (k, v) ∷ m else (j, w) ∷ insert k v m

  unfoldable pub delete : ℕ → Map V → Map V
  delete k [] = []
  delete k ((j, w) ∷ m) = if j == k then delete k m else (j, w) ∷ delete k m

  unfoldable pub values : Map V → List V
  values [] = []
  values ((j, v) ∷ m) = v ∷ values m

  -- A written key has the new value; every other key has what it had.
  pub lookup-insert :
      (written asked : ℕ) (new : V) (entries : Map V)
      → lookup asked (insert written new entries)
        ≡ (if written == asked then some new else lookup asked entries)
  unfolding insert lookup
  lookup-insert written asked new [] = refl
  lookup-insert written asked new ((key, old) ∷ entries) =
      ground (arith, lookup-insert written asked new entries)

  pub lookup-delete :
      (k j : ℕ) (m : Map V) → lookup j (delete k m) ≡ (if k == j then none else lookup j m)
  unfolding lookup delete
  lookup-delete k j [] = ground arith
  lookup-delete k j ((i, w) ∷ m) = ground (arith, lookup-delete k j m)

  -- A new key goes to the end.
  pub insert_new :
      (k : ℕ) (v : V) (m : Map V) → lookup k m ≡ none → insert k v m ≡ m ++ ((k, v) ∷ [])
  unfolding lookup insert
  insert_new k v [] h = refl
  insert_new k v ((i, w) ∷ m) h = ground (arith, insert_new k v m)

  pub values-append : (m n : Map V) → values (m ++ n) ≡ values m ++ values n
  unfolding values
  values-append [] n = refl
  values-append ((j, v) ∷ m) n = ap (◌∷◌ v) (values-append m n)
