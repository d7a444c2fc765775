-- ===== src/Prelude/Digits.antt =====
-- The laws of `|` on words whose parts share no bit.
use Prim.Native.Nat.{
  ℕ, zero, suc, ◌+◌, ◌*◌, ◌/◌, ◌%◌, ◌^◌, ◌≤◌, ◌<◌, max, bit_or, digits, bit_or-bitwise,
}
use mathlib.Core.Path.{◌≡◌, refl, ap, ◌∙◌}
use native.Mathlib.Omega.{arith}

-- `bit_or` on so many digits.
abbrev merged : ℕ → ℕ → ℕ → ℕ
merged rounds a b = digits (λ rest. rest) max rounds a b

merged_enough : (n m a b : ℕ) → a ≤ n → a ≤ m → merged n a b ≡ merged m a b
merged_enough zero zero a b p q = refl
merged_enough zero (suc m) zero b p q = refl
merged_enough zero (suc m) (suc a) b p q = absurd (omega arith)
merged_enough (suc n) zero zero b p q = refl
merged_enough (suc n) zero (suc a) b p q = absurd (omega arith)
merged_enough (suc n) (suc m) zero b p q = refl
merged_enough (suc n) (suc m) (suc a) b p q =
    omega (arith, merged_enough n m (suc a / 2) (b / 2) (omega arith) (omega arith))

zero-bit_or : (b : ℕ) → bit_or 0 b ≡ b
zero-bit_or b = bit_or-bitwise 0 b

bit_or_step : (a b : ℕ) → bit_or a b ≡ bit_or (a / 2) (b / 2) * 2 + max (a % 2) (b % 2)
bit_or_step zero b = omega (arith, zero-bit_or b, zero-bit_or (b / 2))
bit_or_step (suc a) b = omega (
  arith,
  bit_or-bitwise (suc a) b,
  bit_or-bitwise (suc a / 2) (b / 2),
  merged_enough a (suc a / 2) (suc a / 2) (b / 2) (omega arith) (omega arith),
)

bit_or-zero_below : (n a : ℕ) → a ≤ n → bit_or a 0 ≡ a
bit_or-zero_below n zero h = zero-bit_or 0
bit_or-zero_below zero (suc a) h = absurd (omega arith)
bit_or-zero_below (suc n) (suc a) h =
    omega (arith, bit_or_step (suc a) 0, bit_or-zero_below n (suc a / 2) (omega arith))

bit_or-zero : (a : ℕ) → bit_or a 0 ≡ a
bit_or-zero a = bit_or-zero_below a a (omega arith)

-- Setting the lowest bit.
pub bit_or-one : (a : ℕ) → bit_or a 1 ≡ a / 2 * 2 + 1
bit_or-one a = omega (arith, bit_or_step a 1, bit_or-zero (a / 2))

even : (y f : ℕ) → bit_or (y * 2) f ≡ bit_or y (f / 2) * 2 + f % 2
even y f = omega (arith, bit_or_step (y * 2) f, half)
  where
    half : bit_or (y * 2 / 2) (f / 2) ≡ bit_or y (f / 2)
    half = let e : y * 2 / 2 ≡ y = omega arith in rw e refl

pow_suc : (k : ℕ) → 2 ^ suc k ≡ 2 ^ k * 2
pow_suc k = omega arith

-- A number that ends in ten zero digits, and one of ten digits at most.
pub bit_or-apart : (x f : ℕ) → f < 1024 → bit_or (x * 1024) f ≡ x * 1024 + f
bit_or-apart x f h = low 10 1024 x f refl (omega arith)
  where
    low : (k p y g : ℕ) → p ≡ 2 ^ k → g < p → bit_or (y * p) g ≡ y * p + g
    low zero p y g e lt =
        let one : p ≡ 1 = e in
        let none_left : g ≡ 0 = omega (arith, one, lt) in
        rw none_left (omega (arith, bit_or-zero (y * p)))
    low (suc k) p y g e lt =
        let twice : p ≡ 2 ^ k * 2 = e ∙ pow_suc k in
        let doubled : y * p ≡ y * 2 ^ k * 2 = omega (arith, ap (λ (t : ℕ). y * t) twice) in
        rw doubled (
          omega
            (arith, even (y * 2 ^ k) g, low k (2 ^ k) y (g / 2) refl (omega (arith, twice, lt))))
