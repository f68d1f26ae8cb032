-- ===== src/Base/Bits.antt =====
-- `&` with a run of ones, for every width, and tables over small ranges.
use Prim.Native.Nat.{
  ℕ, zero, suc, ◌+◌, ◌*◌, ◌/◌, ◌%◌, ◌≤◌, ◌<◌, min, bit_and, digits, bit_and-bitwise,
}
use mathlib.Core.Path.{◌≡◌, refl, ap}
use mathlib.Core.Bool.{Bool, true, ◌&&◌}
use native.Mathlib.Omega.{arith}

-- A test at every number below `n`.
unfoldable pub all_below : ℕ → (ℕ → Bool) → Bool
all_below zero p = true
all_below (suc n) p = all_below n p && p n

pub all_below-at : (n : ℕ) (p : ℕ → Bool) (x : ℕ) → all_below n p ≡ true → x < n → p x ≡ true
unfolding all_below
all_below-at zero p x h lt = absurd (omega arith)
all_below-at (suc n) p x h lt = ground (arith, all_below-at n p x)

abbrev pair_digits : ℕ → ℕ → ℕ → ℕ
pair_digits = digits (λ b. zero) min

-- Any number of rounds that reaches the top digit of `a` gives the same.
pair_digits-rounds : (n m a b : ℕ) → a ≤ n → a ≤ m → pair_digits n a b ≡ pair_digits m a b
pair_digits-rounds zero zero a b p q = refl
pair_digits-rounds (suc n) (suc m) (suc a) b p q =
    omega (arith, pair_digits-rounds n m (suc a / 2) (b / 2) (omega arith) (omega arith))
pair_digits-rounds (suc n) (suc m) zero b p q = refl
pair_digits-rounds zero (suc m) zero b p q = refl
pair_digits-rounds (suc n) zero zero b p q = refl
pair_digits-rounds zero (suc m) (suc a) b p q = absurd (omega arith)
pair_digits-rounds (suc n) zero (suc a) b p q = absurd (omega arith)

bit_and-zero_left : (b : ℕ) → bit_and 0 b ≡ 0
bit_and-zero_left b = bit_and-bitwise 0 b

half_double : (b : ℕ) → b * 2 / 2 ≡ b
half_double b = omega arith

pub bit_and-halves : (a b : ℕ) → bit_and a b ≡ bit_and (a / 2) (b / 2) * 2 + min (a % 2) (b % 2)
bit_and-halves zero b = omega (arith, bit_and-zero_left b, bit_and-zero_left (b / 2))
bit_and-halves (suc a) b = omega (
  arith,
  bit_and-bitwise (suc a) b,
  bit_and-bitwise (suc a / 2) (b / 2),
  pair_digits-rounds a (suc a / 2) (suc a / 2) (b / 2) (omega arith) (omega arith),
)

-- A mask whose last bit is clear.
pub bit_and-double : (a b : ℕ) → bit_and a (b * 2) ≡ bit_and (a / 2) b * 2
bit_and-double a b = omega (arith, bit_and-halves a (b * 2), ap (bit_and (a / 2)) (half_double b))

-- 2 ^ k, and k ones.
abbrev pub two_to : ℕ → ℕ
two_to zero = 1
two_to (suc k) = two_to k * 2

abbrev pub ones : ℕ → ℕ
ones zero = 0
ones (suc k) = ones k * 2 + 1

half_ones : (k : ℕ) → ones (suc k) / 2 ≡ ones k
half_ones k = omega arith

-- A mask of k ones keeps a number of k bits.
pub bit_and-ones : (k a : ℕ) → a < two_to k → bit_and a (ones k) ≡ a
bit_and-ones zero zero h = bit_and-zero_left 0
bit_and-ones zero (suc a) h = absurd (omega arith)
bit_and-ones (suc k) a h = omega (
  arith,
  bit_and-halves a (ones (suc k)),
  ap (bit_and (a / 2)) (half_ones k),
  bit_and-ones k (a / 2) (omega arith),
)
