-- ===== src/Prelude/Bits.antt =====
-- `a | b << k` is a sum where `a` lies below `2 ^ k`, and a mask of ones keeps what it covers.
use Prim.Native.Nat.{
  ℕ, zero, suc, ◌+◌, ◌*◌, ◌/◌, ◌%◌, ◌^◌, ◌≤◌, ◌<◌, max, min, bit_or, bit_and, bit_xor, differ,
  digits, bit_or-bitwise, bit_and-bitwise, bit_xor-bitwise,
}
use mathlib.Core.Path.{◌≡◌, refl, ◌∙◌}
use native.Mathlib.Omega.{arith}
use native.Mathlib.Nat.{pow-suc}

-- Two numbers combined digit by digit: `op` on two digits, `rest` once the first number has ended.
module _ (rest : ℕ → ℕ) (op : ℕ → ℕ → ℕ) where
  -- Any count of rounds that reaches the end of the first number will do.
  enough_rounds : (a b m n : ℕ) → (a ≤ m) × (a ≤ n) → digits rest op m a b ≡ digits rest op n a b
  enough_rounds zero b zero zero h = refl
  enough_rounds zero b zero (suc n) h = refl
  enough_rounds zero b (suc m) zero h = refl
  enough_rounds zero b (suc m) (suc n) h = refl
  enough_rounds (suc a) b zero n h = absurd (omega arith)
  enough_rounds (suc a) b (suc m) zero h = absurd (omega arith)
  enough_rounds (suc a) b (suc m) (suc n) h =
      omega (arith, enough_rounds (suc a / 2) (b / 2) m n (omega arith))

  lowest_digit :
      (a b : ℕ)
      → digits rest op (suc a) (suc a) b
        ≡ digits rest op (suc a / 2) (suc a / 2) (b / 2) * 2 + op (suc a % 2) (b % 2)
  lowest_digit a b = omega (arith, enough_rounds (suc a / 2) (b / 2) a (suc a / 2) (omega arith))

pub bit_or_halves : (a b : ℕ) → bit_or a b ≡ bit_or (a / 2) (b / 2) * 2 + max (a % 2) (b % 2)
bit_or_halves zero b = simp bit_or-bitwise (omega arith)
bit_or_halves (suc a) b = simp bit_or-bitwise (lowest_digit (λ y. y) max a b)

pub bit_and_halves : (a b : ℕ) → bit_and a b ≡ bit_and (a / 2) (b / 2) * 2 + min (a % 2) (b % 2)
bit_and_halves zero b = simp bit_and-bitwise (omega arith)
bit_and_halves (suc a) b = simp bit_and-bitwise (lowest_digit (λ y. zero) min a b)

bit_xor_halves : (a b : ℕ) → bit_xor a b ≡ bit_xor (a / 2) (b / 2) * 2 + differ (a % 2) (b % 2)
bit_xor_halves zero b = simp bit_xor-bitwise (omega arith)
bit_xor_halves (suc a) b = simp bit_xor-bitwise (lowest_digit (λ y. y) differ a b)

differ_small : (a b : ℕ) → a < 2 → b < 2 → differ a b < 2
differ_small zero b h h' = h'
differ_small (suc a) zero h h' = h
differ_small (suc zero) (suc zero) h h' = omega arith
differ_small (suc zero) (suc (suc b)) h h' = absurd (omega arith)
differ_small (suc (suc a)) (suc b) h h' = absurd (omega arith)

differ_zero : (a b : ℕ) → a ≡ 0 → b ≡ 0 → differ a b ≡ 0
differ_zero zero zero h h' = refl
differ_zero zero (suc b) h h' = absurd (omega arith)
differ_zero (suc a) b h h' = absurd (omega arith)

-- Two even numbers differ by an even one.
pub bit_xor-even : (a b : ℕ) → a % 2 ≡ 0 → b % 2 ≡ 0 → bit_xor a b % 2 ≡ 0
bit_xor-even a b h h' = omega (arith, bit_xor_halves a b, differ_zero (a % 2) (b % 2) h h')

-- Of two numbers of at most `k` digits, the difference has at most `k` digits.
pub bit_xor-bound : (k a b : ℕ) → a < 2 ^ k → b < 2 ^ k → bit_xor a b < 2 ^ k
bit_xor-bound zero zero zero h h' = omega arith
bit_xor-bound zero zero (suc b) h h' = absurd (omega arith)
bit_xor-bound zero (suc a) b h h' = absurd (omega arith)
bit_xor-bound (suc k) a b h h' = omega (
  arith,
  bit_xor_halves a b,
  pow-suc 2 k,
  bit_xor-bound k (a / 2) (b / 2) (omega (arith, pow-suc 2 k)) (omega (arith, pow-suc 2 k)),
  differ_small (a % 2) (b % 2) (omega arith) (omega arith),
)

pub bit_and-bound : (k a b : ℕ) → a < 2 ^ k → bit_and a b < 2 ^ k
bit_and-bound zero zero b h = simp bit_and-bitwise (omega arith)
bit_and-bound zero (suc a) b h = absurd (omega arith)
bit_and-bound (suc k) a b h = omega (
  arith,
  bit_and_halves a b,
  pow-suc 2 k,
  bit_and-bound k (a / 2) (b / 2) (omega (arith, pow-suc 2 k)),
)

doubled : (k b : ℕ) → b * 2 ^ suc k ≡ b * 2 ^ k * 2
doubled k b = rw pow-suc (omega arith)

mul-two-half : (n : ℕ) → n * 2 / 2 ≡ n
mul-two-half n = omega arith

or_double : (a n : ℕ) → bit_or (a / 2) n ≡ a / 2 + n → bit_or a (n * 2) ≡ a + n * 2
or_double a n h = bit_or_halves a (n * 2) ∙ rw (mul-two-half n, h) (omega arith)

pub bit_or-shifted : (k a b : ℕ) → a < 2 ^ k → bit_or a (b * 2 ^ k) ≡ a + b * 2 ^ k
bit_or-shifted zero zero b h = simp bit_or-bitwise (omega arith)
bit_or-shifted zero (suc a) b h = absurd (omega arith)
bit_or-shifted (suc k) a b h =
    rw (doubled k b)
      (or_double a (b * 2 ^ k) (bit_or-shifted k (a / 2) b (omega (arith, pow-suc 2 k))))

-- A mask of `k` ones keeps every number that has at most `k` digits.
abbrev pub ones : ℕ → ℕ
ones zero = 0
ones (suc k) = ones k * 2 + 1

ones_half : (n : ℕ) → (n * 2 + 1) / 2 ≡ n
ones_half n = omega arith

and_ones : (a n : ℕ) → bit_and (a / 2) n ≡ a / 2 → bit_and a (n * 2 + 1) ≡ a
and_ones a n h = bit_and_halves a (n * 2 + 1) ∙ rw (ones_half n, h) (omega arith)

pub bit_and-ones : (k a : ℕ) → a < 2 ^ k → bit_and a (ones k) ≡ a
bit_and-ones zero zero h = refl
bit_and-ones zero (suc a) h = absurd (omega arith)
bit_and-ones (suc k) a h = and_ones a (ones k) (bit_and-ones k (a / 2) (omega (arith, pow-suc 2 k)))
