-- ===== src/Pmm/Invariant.antt =====
-- The invariant of the page allocator, and that it holds after `pmm_init`.
use thunderos.Prelude.{
  ℕ, ◌+◌, ◌*◌, ◌/◌, ◌%◌, ◌^◌, ◌≤◌, ◌<◌, ◌≡◌, refl, Bool, false, arith, length, length-replicate,
  get_or-replicate, bit_test, ◌∙◌, sym,
}
use thunderos.Pmm.{Pmm, bitmap_test, init, page_size, bitmap_size}
use thunderos.Pmm.Bitmap.{AllBytes, replicate-AllBytes}
use thunderos.Pmm.Count.{count_free, count_free-none, count_free_congr}

-- Whether page `k` is allocated.
abbrev pub used : Pmm → ℕ → Bool
used p k = bitmap_test p.page_bitmap k

pub record IsValid (p : Pmm) : Type 0 where
  pub bytes : AllBytes p.page_bitmap
  pub size : length p.page_bitmap ≡ bitmap_size
  pub small : p.total_pages ≤ 8 * bitmap_size
  pub counted : p.free_pages ≡ count_free (used p) p.total_pages
  pub aligned : p.memory_start % page_size ≡ 0
  pub nonzero : 0 < p.memory_start
  pub fits : p.memory_start + p.total_pages * page_size < 2 ^ 64

pub used-init : (s n k : ℕ) → used (init s n) k ≡ false
unfolding init bitmap_test
used-init s n k =
    rw (get_or-replicate {A = ℕ} bitmap_size (k / 8) 0) (zero_bit (k % 8) (omega arith))
  where
    zero_bit : (j : ℕ) → j < 8 → bit_test 0 j ≡ false
    zero_bit j h = ground arith

-- `pmm_init` leaves a valid allocator with every page free, for a region above address 0 that ends
-- below 2^64 by more than a page.
pub init-IsValid :
    (mem_start mem_size : ℕ)
    → 0 < mem_start
    → mem_start + mem_size + page_size < 2 ^ 64
    → IsValid (init mem_start mem_size)
      × ((init mem_start mem_size).free_pages ≡ (init mem_start mem_size).total_pages)
unfolding init
init-IsValid s n pos fits = (
  record {
    bytes = replicate-AllBytes bitmap_size;
    size = length-replicate {A = ℕ} bitmap_size 0;
    small = ground arith;
    counted = sym (
        count_free_congr (λ _. false) (used (init s n)) pages (λ i lt. used-init s n i)
        ∙ count_free-none pages);
    aligned = omega arith;
    nonzero = omega arith;
    fits = ground arith;
  },
  refl,
)
  where
    pages : ℕ
    pages = (init s n).total_pages
