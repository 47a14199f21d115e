-- ===== src/Daemon/Pool/Answers.antt =====
-- internal/daemon/multidisk.go: the broadcasts, over any list of answers.
use bsos.Base.{
  ℕ, zero, suc, ◌+◌, ◌*◌, ◌/◌, ◌^◌, ◌≤◌, ◌<◌, ◌≡◌, refl, ap, ◌∙◌, Bool, true, false, List, [], ◌∷◌,
  Option, none, some, some_of, All, IsU64, ltb, if◌then◌else◌, Result, ok, err, Bool-cases, inl,
  inr, arith,
}
use bsos.Daemon.Errors.{Error, not_found}
use bsos.Daemon.Pool.{
  is_not_found, first_of, confirmed_loop, confirmed_anywhere, any_loop, get_any, floor_log2,
  pow2_log,
}

abbrev pub is_found : Result Error Bool → Bool
is_found (ok b) = b
is_found (err e) = false

abbrev is_ok : {A : Type 0} → Result Error A → Bool
is_ok (ok a) = true
is_ok (err e) = false

confirmed_loop-answer :
    (rs : List (Result Error Bool)) (first_err : Option Error)
    → (some_of is_found rs ≡ true → confirmed_loop rs first_err ≡ ok true)
      × (confirmed_loop rs first_err ≡ ok true → some_of is_found rs ≡ true)
      × (confirmed_loop rs first_err ≡ ok false → All (λ r. r ≡ ok false) rs × (first_err ≡ none))
unfolding confirmed_loop
confirmed_loop-answer [] none = ground arith
confirmed_loop-answer [] (some e) = ground arith
confirmed_loop-answer (err e ∷ rs) none = ground (arith, confirmed_loop-answer rs (some e))
confirmed_loop-answer (err e ∷ rs) (some e') = ground (arith, confirmed_loop-answer rs (some e'))
confirmed_loop-answer (ok true ∷ rs) none = ground arith
confirmed_loop-answer (ok true ∷ rs) (some e') = ground arith
confirmed_loop-answer (ok false ∷ rs) none = ground (arith, confirmed_loop-answer rs none)
confirmed_loop-answer (ok false ∷ rs) (some e') = ground (arith, confirmed_loop-answer rs (some e'))

-- In any order of arrival, the pool says that a fid is there exactly if one disk says so, whatever
-- errors the others answer, and that it is free only if every disk has said so.
pub confirmed_anywhere-answer :
    (rs : List (Result Error Bool))
    → (some_of is_found rs ≡ true → confirmed_anywhere rs ≡ ok true)
      × (confirmed_anywhere rs ≡ ok true → some_of is_found rs ≡ true)
      × (confirmed_anywhere rs ≡ ok false → All (λ r. r ≡ ok false) rs)
unfolding confirmed_anywhere
confirmed_anywhere-answer rs =
    let (found, only, free) = confirmed_loop-answer rs none in (found, only, λ h. (free h).0)

is_not_found_inv : (e : Error) → is_not_found e ≡ true → e ≡ not_found
unfolding is_not_found
is_not_found_inv e h = ground arith

-- The first error, if there is one, is another error than ErrNotFound.
abbrev IsOther : Option Error → Type 0
IsOther first_err = (e : Error) → first_err ≡ some e → is_not_found e ≡ false

first_of-IsOther :
    (first_err : Option Error) (e : Error)
    → IsOther first_err
    → IsOther (if is_not_found e then first_err else some (first_of first_err e))
first_of-IsOther none e o x h = ground (arith, h)
first_of-IsOther (some e') e o x h = ground (arith, h, o e' refl)

any_loop-answer :
    {A : Type 0} (rs : List (Result Error A)) (first_err : Option Error)
    → IsOther first_err
    → (some_of is_ok rs ≡ true → is_ok (any_loop rs first_err) ≡ true)
      × (is_ok (any_loop rs first_err) ≡ true → some_of is_ok rs ≡ true)
      × (any_loop rs first_err ≡ err not_found
          → All (λ r. r ≡ err not_found) rs × (first_err ≡ none))
unfolding any_loop is_not_found
any_loop-answer [] none o = ground arith
any_loop-answer [] (some e) o = ground (arith, o e refl)
any_loop-answer (ok a ∷ rs) first_err o = ground arith
any_loop-answer (err e ∷ rs) none o = ground (
  arith,
  any_loop-answer rs (if is_not_found e then none else some e) (first_of-IsOther none e o),
  is_not_found_inv e,
)
any_loop-answer (err e ∷ rs) (some e') o = ground (
  arith,
  any_loop-answer rs (if is_not_found e then some e' else some e') (first_of-IsOther (some e') e o),
  is_not_found_inv e,
)

-- In any order of arrival, a Get is served exactly if one disk serves it, and it is answered with
-- ErrNotFound only if every disk has given that answer.
get_any-answer :
    (rs : List (Result Error (List ℕ × ℕ)))
    → (some_of is_ok rs ≡ true → is_ok (get_any rs) ≡ true)
      × (is_ok (get_any rs) ≡ true → some_of is_ok rs ≡ true)
      × (get_any rs ≡ err not_found → All (λ r. r ≡ err not_found) rs)
unfolding get_any
get_any-answer rs =
    let (served, only, free) = any_loop-answer rs none (λ e h. absurd (ground (arith, h))) in
    (served, only, λ h. (free h).0)

pow_suc : (k : ℕ) → 2 ^ (k + 1) ≡ 2 * 2 ^ k
pow_suc k = ap (λ n. 2 ^ n) (one_more k) ∙ doubled k
  where
    one_more : (n : ℕ) → n + 1 ≡ suc n
    one_more n = omega arith

    doubled : (n : ℕ) → 2 ^ suc n ≡ 2 * 2 ^ n
    doubled n = omega arith

floor_log2-bounds :
    (rounds v : ℕ)
    → 0 < v
    → v < 2 ^ rounds
    → (2 ^ floor_log2 rounds v ≤ v) × (v < 2 ^ (floor_log2 rounds v + 1))
unfolding floor_log2
floor_log2-bounds zero v pos h = absurd (omega arith)
floor_log2-bounds (suc rounds) v pos h = elim (Bool-cases (ltb v 2)) [
  | inl small ↦ rw (small, floor_log2) (ground arith)
  | inr big ↦
      let (low, high) =
        floor_log2-bounds rounds (v / 2) (ground arith) (omega (arith, h, pow_suc rounds)) in
      let k : ℕ = floor_log2 rounds (v / 2) in
      rw (big, floor_log2) (omega (arith, low, pow_suc k), omega (arith, high, pow_suc (k + 1)))
]

-- The exponent of a positive 64-bit size is that of the largest power of two that is not above the
-- size.
pow2_log-bounds : (v : ℕ) → 0 < v → IsU64 v → (2 ^ pow2_log v ≤ v) × (v < 2 ^ (pow2_log v + 1))
unfolding pow2_log
pow2_log-bounds v pos h = ground (arith, floor_log2-bounds 64 v pos h)
