-- ===== src/Prelude/Counts.antt =====
-- How many of the first `n` indices pass a test, and how that changes where one index changes.
use Prim.Native.Nat.{ℕ, zero, suc, ◌+◌, ◌≤◌, ◌<◌}
use mathlib.Core.Path.{◌≡◌, refl, ap}
use mathlib.Core.Logic.{◌≢◌}
use mathlib.Core.Bool.{Bool, true, false}
use native.Mathlib.Decide.{ℕ_discrete}
use native.Mathlib.Omega.{arith}
use thunderos.Prelude.Tests.{◌==◌, if◌then◌else◌}

abbrev pub one_if : Bool → ℕ
one_if true = 1
one_if false = 0

pub how_many : (ℕ → Bool) → ℕ → ℕ
how_many test zero = 0
how_many test (suc n) = how_many test n + one_if (test n)

module _ (test test' : ℕ → Bool) where
  how_many_congr :
      (n : ℕ) → ((i : ℕ) → i < n → test' i ≡ test i) → how_many test' n ≡ how_many test n
  unfolding how_many
  how_many_congr zero h = refl
  how_many_congr (suc n) h =
      ground (arith, h n (omega arith), how_many_congr n (λ i lt. h i (omega arith)))

  -- Only the test at index `k` may change.
  pub how_many_change :
      (n k : ℕ)
      → k < n
      → ((i : ℕ) → i ≢ k → test' i ≡ test i)
      → how_many test' n + one_if (test k) ≡ how_many test n + one_if (test' k)
  unfolding how_many
  how_many_change zero k lt h = absurd (omega arith)
  how_many_change (suc n) k lt h = elim (ℕ_discrete k n) [
    | yes e ↦
        let rest = how_many_congr n (λ i less. h i (omega arith)) in
        omega (arith, rest, ap (λ i. one_if (test i)) e, ap (λ i. one_if (test' i)) e)
    | no ne ↦
        let same = h n (omega arith) in
        omega (arith, how_many_change n k (omega arith) h, ap one_if same)
  ]

pub how_many-none : (n : ℕ) → how_many (λ _. false) n ≡ 0
unfolding how_many
how_many-none zero = refl
how_many-none (suc n) = omega (arith, how_many-none n)

-- Where one index passes, the number is not 0; where it is 0, none passes.
pub how_many-pos : (test : ℕ → Bool) (n k : ℕ) → k < n → test k ≡ true → 0 < how_many test n
unfolding how_many
how_many-pos test zero k lt h = absurd (omega arith)
how_many-pos test (suc n) k lt h = elim (ℕ_discrete k n) [
  | yes e ↦ omega (arith, ap (λ i. one_if (test i)) e, ap one_if h)
  | no ne ↦ omega (arith, how_many-pos test n k (omega arith) h)
]

pub how_many-le : (test : ℕ → Bool) (n : ℕ) → how_many test n ≤ n
unfolding how_many
how_many-le test zero = omega arith
how_many-le test (suc n) = ground (arith, how_many-le test n)

-- Where at most one index passes, two that pass are one.
pub how_many_unique :
    (test : ℕ → Bool) (n i j : ℕ)
    → how_many test n ≤ 1
    → i < n
    → j < n
    → test i ≡ true
    → test j ≡ true
    → i ≡ j
how_many_unique test n i j few li lj hi hj = elim (ℕ_discrete i j) [
  | yes e ↦ e
  | no ne ↦
      let without : ℕ → Bool = λ m. if m == i then false else test m in
      let gone : without i ≡ false = ground arith in
      let still : without j ≡ true = ground arith in
      absurd (
        omega (
          arith,
          how_many_change test without n i li (λ m other. ground arith),
          how_many-pos without n j lj still,
          ap one_if gone,
          ap one_if hi,
        ))
]
