-- ===== src/Base/Cuts.antt =====
-- The ends of lists: how take and drop meet each other and appended lists.
use Prim.Native.Nat.{ℕ, zero, suc, ◌-◌, ◌≤◌, min}
use mathlib.Core.Path.{◌≡◌, refl, sym, ap, ◌∙◌}
use mathlib.Core.Logic.{inl, inr}
use mathlib.Core.List.{List, [], ◌∷◌, ◌++◌}
use native.Mathlib.Omega.{arith}
use bsos.Base.Tests.{leb, Bool-cases}
use bsos.Base.Lists.{length, take, drop}

module _ {ℓ} {A : Type ℓ} where
  pub take_nil : (n : ℕ) → take {A = A} n [] ≡ []
  take_nil zero = refl
  take_nil (suc n) = refl

  pub drop_nil : (n : ℕ) → drop {A = A} n [] ≡ []
  drop_nil zero = refl
  drop_nil (suc n) = refl

  pub take-take : (m n k : ℕ) (xs : List A) → k ≡ min m n → take m (take n xs) ≡ take k xs
  take-take zero n zero xs h = refl
  take-take m zero zero xs h = take_nil m
  take-take zero n (suc k) xs h = absurd (omega (arith, h))
  take-take m zero (suc k) xs h = absurd (omega (arith, h))
  take-take (suc m) (suc n) zero xs h = absurd (omega (arith, h))
  take-take (suc m) (suc n) (suc k) [] h = refl
  take-take (suc m) (suc n) (suc k) (x ∷ xs) h = ap (◌∷◌ x) (take-take m n k xs (omega (arith, h)))

  pub drop-take :
      (m n k : ℕ) (xs : List A) → k ≡ min m n → drop m (take n xs) ≡ take (n - k) (drop k xs)
  drop-take zero n zero xs h = ap (λ i. take i xs) (omega arith)
  drop-take m zero zero xs h = drop_nil m
  drop-take zero n (suc k) xs h = absurd (omega (arith, h))
  drop-take m zero (suc k) xs h = absurd (omega (arith, h))
  drop-take (suc m) (suc n) zero xs h = absurd (omega (arith, h))
  drop-take (suc m) (suc n) (suc k) [] h = rw take_nil
  drop-take (suc m) (suc n) (suc k) (x ∷ xs) h =
      rw (drop-take m n k xs (omega (arith, h))) (ap (λ i. take i (drop k xs)) (omega arith))

  pub take_all : (n : ℕ) (xs : List A) → length xs ≤ n → take n xs ≡ xs
  take_all zero [] h = refl
  take_all zero (x ∷ xs) h = absurd (omega (arith, h))
  take_all (suc n) [] h = refl
  take_all (suc n) (x ∷ xs) h = ap (◌∷◌ x) (take_all n xs (omega (arith, h)))

  pub take-min : (n m : ℕ) (xs : List A) → m ≡ min n (length xs) → take n xs ≡ take m xs
  take-min n m xs h = elim (Bool-cases (leb n (length xs))) [
    | inl short ↦ ap (λ i. take i xs) (ground (arith, short, h))
    | inr long ↦
        take_all n xs (ground (arith, long)) ∙ sym (take_all m xs (ground (arith, long, h)))
  ]

  pub take-append :
      (n k : ℕ) (xs ys : List A) → k ≡ n - length xs → take n (xs ++ ys) ≡ take n xs ++ take k ys
  take-append zero k [] ys h = let e : 0 ≡ k = omega (arith, h) in ap (λ i. take i ys) e
  take-append (suc n) k [] ys h = let e : suc n ≡ k = omega (arith, h) in ap (λ i. take i ys) e
  take-append zero zero (x ∷ xs) ys h = refl
  take-append zero (suc k) (x ∷ xs) ys h = absurd (omega (arith, h))
  take-append (suc n) k (x ∷ xs) ys h = ap (◌∷◌ x) (take-append n k xs ys (omega (arith, h)))

  pub drop-append :
      (n k : ℕ) (xs ys : List A) → k ≡ n - length xs → drop n (xs ++ ys) ≡ drop n xs ++ drop k ys
  drop-append zero k [] ys h = let e : 0 ≡ k = omega (arith, h) in ap (λ i. drop i ys) e
  drop-append (suc n) k [] ys h = let e : suc n ≡ k = omega (arith, h) in ap (λ i. drop i ys) e
  drop-append zero zero (x ∷ xs) ys h = refl
  drop-append zero (suc k) (x ∷ xs) ys h = absurd (omega (arith, h))
  drop-append (suc n) k (x ∷ xs) ys h = drop-append n k xs ys (omega (arith, h))
