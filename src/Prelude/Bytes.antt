-- ===== src/Prelude/Bytes.antt =====
-- One bit of a byte: `x |= 1 << k`, `x &= ~(1 << k)` and `(x >> k) & 1`, by tables over all bytes.
use Prim.Native.Nat.{ℕ, zero, suc, ◌-◌, ◌/◌, ◌%◌, ◌^◌, ◌<◌, bit_and, bit_or}
use mathlib.Core.Path.{◌≡◌, refl}
use mathlib.Core.Bool.{Bool, true, false, ◌&&◌}
use native.Mathlib.Decide.{ℕ_discrete}
use native.Mathlib.Omega.{arith}
use thunderos.Prelude.Tests.{◌==◌, ltb, if◌then◌else◌}

-- `(byte >> bit) & 1`, and `byte & (1 << bit)` as a condition.
abbrev pub bit_test : ℕ → ℕ → Bool
bit_test x k = (x / 2 ^ k) % 2 == 1

-- `byte |= (1 << bit)`.
abbrev pub bit_set : ℕ → ℕ → ℕ
bit_set x k = bit_or x (2 ^ k)

-- `byte &= ~(1 << bit)`: the complement is that of a 32-bit int.
abbrev pub bit_clear : ℕ → ℕ → ℕ
bit_clear x k = bit_and x (2 ^ 32 - 1 - 2 ^ k)

-- Whether a test passes at every number under a bound.
passes : (ℕ → Bool) → ℕ → Bool
passes test zero = true
passes test (suc bound) = if test bound then passes test bound else false

passes-at :
    (test : ℕ → Bool) (bound : ℕ) → passes test bound ≡ true → (k : ℕ) → k < bound → test k ≡ true
unfolding passes
passes-at test zero all k inside = elim inside [ ]
passes-at test (suc bound) all k inside = elim (ℕ_discrete k bound) [
  | yes last ↦ rw last (ground arith)
  | no other ↦ passes-at test bound (ground arith) k (omega arith)
]

bool_eq : Bool → Bool → Bool
bool_eq true b = b
bool_eq false true = false
bool_eq false false = true

bool_eq_sound : (a b : Bool) → bool_eq a b ≡ true → a ≡ b
unfolding bool_eq
bool_eq_sound true b h = ground arith
bool_eq_sound false true h = ground arith
bool_eq_sound false false h = refl

-- A check of one byte, for every bit that is written and every bit that is read.
byte_law : (ℕ → ℕ → ℕ → Bool) → Bool
unfolding passes
byte_law p = passes (λ x. passes (λ k. passes (p x k) 8) 8) 256

byte_law-at :
    (p : ℕ → ℕ → ℕ → Bool)
    → byte_law p ≡ true
    → (x k j : ℕ) → x < 256
    → k < 8
    → j < 8
    → p x k j ≡ true
unfolding byte_law
byte_law-at p h x k j hx hk hj =
    let row = passes-at (λ a. passes (λ i. passes (p a i) 8) 8) 256 h x hx in
    passes-at (p x k) 8 (passes-at (λ i. passes (p x i) 8) 8 row k hk) j hj

set_table :
    byte_law (λ x k j. bool_eq (bit_test (bit_set x k) j) (if k == j then true else bit_test x j))
    ≡ true
unfolding byte_law bool_eq
set_table = refl

clear_table :
    byte_law
      (λ x k j. bool_eq (bit_test (bit_clear x k) j) (if k == j then false else bit_test x j))
    ≡ true
unfolding byte_law bool_eq
clear_table = refl

range_table : byte_law (λ x k j. ltb (bit_set x k) 256 && ltb (bit_clear x k) 256) ≡ true
unfolding byte_law
range_table = refl

clear_set_table :
    byte_law (λ x k j. if bit_test x k then true else bit_clear (bit_set x k) k == x) ≡ true
unfolding byte_law
clear_set_table = refl

module _ (x k : ℕ) (hx : x < 256) (hk : k < 8) where
  pub bit_test-bit_set :
      (j : ℕ) → j < 8 → bit_test (bit_set x k) j ≡ (if k == j then true else bit_test x j)
  bit_test-bit_set j hj = bool_eq_sound _ _ (byte_law-at _ set_table x k j hx hk hj)

  pub bit_test-bit_clear :
      (j : ℕ) → j < 8 → bit_test (bit_clear x k) j ≡ (if k == j then false else bit_test x j)
  bit_test-bit_clear j hj = bool_eq_sound _ _ (byte_law-at _ clear_table x k j hx hk hj)

  range : (ltb (bit_set x k) 256 && ltb (bit_clear x k) 256) ≡ true
  range = byte_law-at _ range_table x k 0 hx hk (omega arith)

  pub bit_set-lt : bit_set x k < 256
  bit_set-lt = ground (arith, range)

  pub bit_clear-lt : bit_clear x k < 256
  bit_clear-lt = ground (arith, range)

  -- Setting a clear bit is undone by clearing it.
  pub bit_clear-bit_set : bit_test x k ≡ false → bit_clear (bit_set x k) k ≡ x
  bit_clear-bit_set h = ground (arith, byte_law-at _ clear_set_table x k 0 hx hk (omega arith))
