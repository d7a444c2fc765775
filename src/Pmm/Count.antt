-- ===== src/Pmm/Count.antt =====
-- How many of the first `n` pages are free, for any reading of the bitmap.
use thunderos.Prelude.{
  ℕ, zero, suc, ◌+◌, ◌≤◌, ◌<◌, ◌≡◌, refl, Bool, true, false, ◌==◌, if◌then◌else◌, arith, ap,
  ℕ_discrete,
}

pub count_free : (ℕ → Bool) → ℕ → ℕ
count_free used zero = 0
count_free used (suc n) = if used n then count_free used n else suc (count_free used n)

pub count_free-le : (used : ℕ → Bool) (n : ℕ) → count_free used n ≤ n
unfolding count_free
count_free-le used zero = omega arith
count_free-le used (suc n) = ground (arith, count_free-le used n)

pub count_free-none : (n : ℕ) → count_free (λ _. false) n ≡ n
unfolding count_free
count_free-none zero = refl
count_free-none (suc n) = ground (arith, count_free-none n)

module _ (used used' : ℕ → Bool) where
  pub count_free_congr :
      (n : ℕ) → ((i : ℕ) → i < n → used' i ≡ used i) → count_free used' n ≡ count_free used n
  unfolding count_free
  count_free_congr zero h = refl
  count_free_congr (suc n) h =
      ground (arith, h n (omega arith), count_free_congr n (λ i lt. h i (omega arith)))

  -- Taking one free page lowers the count by one.
  pub count_free_take :
      (n k : ℕ)
      → k < n
      → used k ≡ false
      → ((i : ℕ) → used' i ≡ (if k == i then true else used i))
      → count_free used' n + 1 ≡ count_free used n
  unfolding count_free
  count_free_take zero k lt free h = absurd (omega arith)
  count_free_take (suc n) k lt free h = elim (ℕ_discrete k n) [
    | yes e ↦
        ground (arith, h n, count_free_congr n (λ i less. ground (arith, h i)), free, ap used e)
    | no ne ↦ ground (arith, h n, count_free_take n k (omega arith) free h)
  ]

  -- Giving one page back raises it by one.
  pub count_free_give :
      (n k : ℕ)
      → k < n
      → used k ≡ true
      → ((i : ℕ) → used' i ≡ (if k == i then false else used i))
      → count_free used' n ≡ count_free used n + 1
  unfolding count_free
  count_free_give zero k lt taken h = absurd (omega arith)
  count_free_give (suc n) k lt taken h = elim (ℕ_discrete k n) [
    | yes e ↦
        ground (arith, h n, count_free_congr n (λ i less. ground (arith, h i)), taken, ap used e)
    | no ne ↦ ground (arith, h n, count_free_give n k (omega arith) taken h)
  ]
