-- ===== src/Base/Bytes.antt =====
-- Little-endian numbers, as encoding/binary writes and reads them, and `|` on disjoint bits.
use Prim.Native.Nat.{digits, bit_or-bitwise}
use bsos.Base.{
  ℕ, zero, suc, ◌+◌, ◌*◌, ◌/◌, ◌%◌, ◌^◌, ◌≤◌, ◌<◌, max, bit_or, ◌≡◌, refl, ap, List, [], ◌∷◌,
  length, All, IsByte, arith,
}

-- The n low bytes of v, lowest first.
unfoldable pub le_bytes : ℕ → ℕ → List ℕ
le_bytes zero v = []
le_bytes (suc n) v = (v % 256) ∷ le_bytes n (v / 256)

unfoldable pub le_value : List ℕ → ℕ
le_value [] = 0
le_value (b ∷ bs) = b + 256 * le_value bs

pub length-le_bytes : (n v : ℕ) → length (le_bytes n v) ≡ n
unfolding le_bytes
length-le_bytes zero v = refl
length-le_bytes (suc n) v = ap suc (length-le_bytes n (v / 256))

pub le_bytes-IsByte : (n v : ℕ) → All IsByte (le_bytes n v)
unfolding le_bytes
le_bytes-IsByte zero v = tt
le_bytes-IsByte (suc n) v = (omega arith, le_bytes-IsByte n (v / 256))

pub le_value-le_bytes : (n v : ℕ) → v < 256 ^ n → le_value (le_bytes n v) ≡ v
unfolding le_value le_bytes
le_value-le_bytes zero v h = omega arith
le_value-le_bytes (suc n) v h = omega (arith, le_value-le_bytes n (v / 256) (omega arith))

pub le_bytes-le_value : (bs : List ℕ) → All IsByte bs → le_bytes (length bs) (le_value bs) ≡ bs
unfolding le_value le_bytes
le_bytes-le_value [] h = refl
le_bytes-le_value (b ∷ bs) h = ground (arith, le_bytes-le_value bs h.1, rest)
  where
    rest : (b + 256 * le_value bs) / 256 ≡ le_value bs
    rest = let hb : b < 256 = h.0 in omega arith

pow_256 : (n : ℕ) → 256 ^ suc n ≡ 256 * 256 ^ n
pow_256 n = omega arith

pub le_value-lt : (bs : List ℕ) → All IsByte bs → le_value bs < 256 ^ length bs
unfolding le_value
le_value-lt [] h = omega arith
le_value-lt (b ∷ bs) h =
    let hb : b < 256 = h.0 in rw (pow_256 (length bs)) (omega (arith, le_value-lt bs h.1))

-- The digit recursion that `bit_or` stands for.
abbrev or_digits : ℕ → ℕ → ℕ → ℕ
or_digits n a b = digits (λ b. b) max n a b

or_digits_fuel : (n m a b : ℕ) → a ≤ n → a ≤ m → or_digits n a b ≡ or_digits m a b
or_digits_fuel zero zero a b p q = refl
or_digits_fuel zero (suc m) zero b p q = refl
or_digits_fuel zero (suc m) (suc a) b p q = absurd (omega arith)
or_digits_fuel (suc n) zero zero b p q = refl
or_digits_fuel (suc n) zero (suc a) b p q = absurd (omega arith)
or_digits_fuel (suc n) (suc m) zero b p q = refl
or_digits_fuel (suc n) (suc m) (suc a) b p q =
    omega (arith, or_digits_fuel n m (suc a / 2) (b / 2) (omega arith) (omega arith))

pub zero-bit_or : (b : ℕ) → bit_or 0 b ≡ b
zero-bit_or b = bit_or-bitwise 0 b

bit_or_step : (a b : ℕ) → bit_or a b ≡ bit_or (a / 2) (b / 2) * 2 + max (a % 2) (b % 2)
bit_or_step zero b = omega (arith, zero-bit_or b, zero-bit_or (b / 2))
bit_or_step (suc a) b = omega (
  arith,
  bit_or-bitwise (suc a) b,
  bit_or-bitwise (suc a / 2) (b / 2),
  or_digits_fuel a (suc a / 2) (suc a / 2) (b / 2) (omega arith) (omega arith),
)

pow_2 : (n : ℕ) → 2 ^ suc n ≡ 2 * 2 ^ n
pow_2 n = omega arith

half_shift : (b k : ℕ) → b * 2 ^ suc k / 2 ≡ b * 2 ^ k
half_shift b k = omega (arith, ap (λ (t : ℕ). b * t) (pow_2 k))

even_shift : (b k : ℕ) → b * 2 ^ suc k % 2 ≡ 0
even_shift b k = omega (arith, ap (λ (t : ℕ). b * t) (pow_2 k))

-- `a | b << k` is a sum where a has at most k bits.
pub bit_or_disjoint : (k a b : ℕ) → a < 2 ^ k → bit_or a (b * 2 ^ k) ≡ a + b * 2 ^ k
bit_or_disjoint zero zero b h = omega (arith, zero-bit_or (b * 2 ^ 0))
bit_or_disjoint zero (suc a) b h = absurd (omega arith)
bit_or_disjoint (suc k) a b h = omega (
  arith,
  bit_or_step a (b * 2 ^ suc k),
  half_shift b k,
  even_shift b k,
  ap (λ (t : ℕ). bit_or (a / 2) t) (half_shift b k),
  bit_or_disjoint k (a / 2) b (omega arith),
  ap (λ (t : ℕ). b * t) (pow_2 k),
)
