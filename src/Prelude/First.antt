-- ===== src/Prelude/First.antt =====
-- The loop `for (i = from; i < end; i++) if (set(i)) break;`: the first number that is set.
use thunderos.Prelude.Tests.{if◌then◌else◌, Bool-cases}
use Prim.Native.Nat.{ℕ, zero, suc, ◌+◌, ◌≤◌, ◌<◌}
use mathlib.Core.Path.{◌≡◌, refl, subst}
use mathlib.Core.Logic.{inl, inr}
use mathlib.Core.Bool.{Bool, true, false}
use mathlib.Core.Option.{Option, none, some}
use native.Mathlib.Omega.{arith}
use native.Mathlib.Decide.{ℕ_discrete}

-- The rounds left, and the number looked at.
unfoldable pub first_from : (ℕ → Bool) → ℕ → ℕ → Option ℕ
first_from set zero n = none
first_from set (suc rounds) n = if set n then some n else first_from set rounds (n + 1)

-- The first number from `n` on, of `rounds` many, that is set; or none is.
pub data Found (set : ℕ → Bool) (rounds n : ℕ) (r : Option ℕ) : Type 0 where
  missing : ((m : ℕ) → n ≤ m → m < n + rounds → set m ≡ false) → r ≡ none → Found set rounds n r
  found :
      (m : ℕ)
      → n ≤ m
      → m < n + rounds
      → set m ≡ true
      → ((j : ℕ) → n ≤ j → j < m → set j ≡ false)
      → r ≡ some m
      → Found set rounds n r

from_next :
    (set : ℕ → Bool) (n b : ℕ)
    → set n ≡ false
    → ((m : ℕ) → n + 1 ≤ m → m < b → set m ≡ false)
    → (m : ℕ) → n ≤ m
    → m < b
    → set m ≡ false
from_next set n b h f m le lt = elim (ℕ_discrete n m) [
  | yes e ↦ subst (λ k. set k ≡ false) e h
  | no ne ↦ f m (omega (arith, ne, le)) lt
]

-- A number further on, when `n` itself is not set.
Found-next :
    (set : ℕ → Bool) (rounds n : ℕ) (r : Option ℕ)
    → set n ≡ false
    → Found set rounds (n + 1) r
    → Found set (suc rounds) n r
Found-next set rounds n r h (missing f e) =
    missing (λ m a b. from_next set n (n + 1 + rounds) h f m a (omega (arith, b))) e
Found-next set rounds n r h (found m le lt t f e) =
    found m (omega arith) (omega arith) t (from_next set n m h f) e

pub first_from-Found :
    (set : ℕ → Bool) (rounds n : ℕ) → Found set rounds n (first_from set rounds n)
unfolding first_from
first_from-Found set zero n = missing (λ m a b. ground arith) refl
first_from-Found set (suc rounds) n = elim (Bool-cases (set n)) [
  | inl t ↦ rw t (found n (omega arith) (omega arith) t (λ j a b. ground arith) refl)
  | inr t ↦ rw t (Found-next set rounds n _ t (first_from-Found set rounds (n + 1)))
]
