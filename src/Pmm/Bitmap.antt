-- ===== src/Pmm/Bitmap.antt =====
-- Reading a bit of the page bitmap after one has been written.
use thunderos.Prelude.{
  ℕ, zero, suc, ◌*◌, ◌/◌, ◌%◌, ◌<◌, ◌≡◌, refl, List, [], ◌∷◌, Bool, true, false, ◌==◌,
  if◌then◌else◌, arith, length, get_or, set, length-set, bit_test, bit_set, bit_test-bit_set,
  bit_test-bit_clear, bit_set-lt, bit_clear-lt, replicate, bit_clear-bit_set, set-set, set-get_or,
  get_or-set_self, get_or-set_ne, ap, ℕ_discrete,
}
use thunderos.Pmm.{bitmap_test, bitmap_set, bitmap_clear}

abbrev pub AllBytes : List ℕ → Type 0
AllBytes [] = Unit {0}
AllBytes (x ∷ xs) = (x < 256) × AllBytes xs

pub get_or-AllBytes : (xs : List ℕ) (i : ℕ) → AllBytes xs → get_or xs i 0 < 256
get_or-AllBytes [] i h = omega arith
get_or-AllBytes (x ∷ xs) zero h = h.0
get_or-AllBytes (x ∷ xs) (suc i) h = get_or-AllBytes xs i h.1

set-AllBytes : (xs : List ℕ) (i v : ℕ) → AllBytes xs → v < 256 → AllBytes (set xs i v)
set-AllBytes [] i v h lt = tt
set-AllBytes (x ∷ xs) zero v h lt = (lt, h.1)
set-AllBytes (x ∷ xs) (suc i) v h lt = (h.0, set-AllBytes xs i v h.1 lt)

pub replicate-AllBytes : (n : ℕ) → AllBytes (replicate n 0)
replicate-AllBytes zero = tt
replicate-AllBytes (suc n) = (omega arith, replicate-AllBytes n)

same_bit : (k j : ℕ) → k / 8 ≡ j / 8 → (k % 8 == j % 8) ≡ (k == j)
same_bit k j e = ground arith

-- Writing the byte of page `k` so that only its own bit changes, to `b`.
write_bit :
    (bitmap : List ℕ) (k v : ℕ) (b : Bool)
    → k < 8 * length bitmap
    → ((j : ℕ)
        → j < 8
        → bit_test v j ≡ (if k % 8 == j then b else bit_test (get_or bitmap (k / 8) 0) j))
    → (j : ℕ)
    → bit_test (get_or (set bitmap (k / 8) v) (j / 8) 0) (j % 8)
      ≡ (if k == j then b else bit_test (get_or bitmap (j / 8) 0) (j % 8))
write_bit bitmap k v b inside law j = elim (ℕ_discrete (k / 8) (j / 8)) [
  | yes e ↦
      rw (← e, get_or-set_self bitmap (k / 8) v 0 (omega arith), ← same_bit k j e)
        (law (j % 8) (omega arith))
  | no ne ↦ rw (get_or-set_ne bitmap (k / 8) (j / 8) v 0 ne) (ground (arith, other))
]
  where
    other : k ≡ j → k / 8 ≡ j / 8
    other e = ap (λ i. i / 8) e

module _ (bitmap : List ℕ) (k : ℕ) (bytes : AllBytes bitmap) where
  old-lt : get_or bitmap (k / 8) 0 < 256
  old-lt = get_or-AllBytes bitmap (k / 8) bytes

  pub bitmap_set-AllBytes : AllBytes (bitmap_set bitmap k)
  unfolding bitmap_set
  bitmap_set-AllBytes =
      set-AllBytes bitmap (k / 8) _ bytes (bit_set-lt _ (k % 8) old-lt (omega arith))

  pub bitmap_clear-AllBytes : AllBytes (bitmap_clear bitmap k)
  unfolding bitmap_clear
  bitmap_clear-AllBytes =
      set-AllBytes bitmap (k / 8) _ bytes (bit_clear-lt _ (k % 8) old-lt (omega arith))

  module _ (inside : k < 8 * length bitmap) where
    pub bitmap_test-bitmap_set :
        (j : ℕ)
        → bitmap_test (bitmap_set bitmap k) j ≡ (if k == j then true else bitmap_test bitmap j)
    unfolding bitmap_test bitmap_set
    bitmap_test-bitmap_set =
        write_bit bitmap k _ true inside (bit_test-bit_set _ (k % 8) old-lt (omega arith))

    pub bitmap_test-bitmap_clear :
        (j : ℕ)
        → bitmap_test (bitmap_clear bitmap k) j ≡ (if k == j then false else bitmap_test bitmap j)
    unfolding bitmap_test bitmap_clear
    bitmap_test-bitmap_clear =
        write_bit bitmap k _ false inside (bit_test-bit_clear _ (k % 8) old-lt (omega arith))

    -- Clearing a bit that was clear before it was set gives the old bitmap back.
    pub bitmap_clear-bitmap_set :
        bitmap_test bitmap k ≡ false → bitmap_clear (bitmap_set bitmap k) k ≡ bitmap
    unfolding bitmap_test bitmap_set bitmap_clear
    bitmap_clear-bitmap_set h =
        rw
          (
            get_or-set_self bitmap (k / 8) (bit_set (get_or bitmap (k / 8) 0) (k % 8)) 0
                (omega arith),
            set-set,
            bit_clear-bit_set _ (k % 8) old-lt (omega arith) h,
          )
          (set-get_or bitmap (k / 8) _ 0 refl (omega arith))

pub length-bitmap_set : (bitmap : List ℕ) (k : ℕ) → length (bitmap_set bitmap k) ≡ length bitmap
unfolding bitmap_set
length-bitmap_set bitmap k = length-set bitmap (k / 8) _

pub length-bitmap_clear : (bitmap : List ℕ) (k : ℕ) → length (bitmap_clear bitmap k) ≡ length bitmap
unfolding bitmap_clear
length-bitmap_clear bitmap k = length-set bitmap (k / 8) _
