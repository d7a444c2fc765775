-- ===== src/Pmm/Tests.antt =====
-- Runs of the page allocator over four pages, and the theorems at them.
use thunderos.Prelude.{ℕ, ◌+◌, ◌≤◌, ◌<◌, ◌≡◌, refl, ◌⊎◌, true, false, arith}
use thunderos.Pmm.{
  Pmm, init, bitmap_test, find_free, all_free, find_run, take_run, alloc_page, alloc_pages,
  free_page, free_pages, bitmap_set,
}
use thunderos.Pmm.Invariant.{used, IsValid, init-IsValid, used-init}
use thunderos.Pmm.Alloc.{Took, alloc_page-first_fit}
use thunderos.Pmm.Runs.{RunBusy, TookLowest, alloc_pages-first_fit}
use thunderos.Pmm.Free.{IsHeld, Gave, Refused, free_page-Gave}
use thunderos.Pmm.RoundTrip.{free_pages-alloc_pages}

abbrev pub region : ℕ
region = 0x8020_0000

-- Four pages, all of them free.
abbrev pub small : Pmm
small = init region 0x4000

pub small-size : (small.total_pages ≡ 4) × (small.memory_start ≡ region)
unfolding init
small-size = (refl, refl)

pub small-free : (k : ℕ) → used small k ≡ false
small-free k = used-init region 0x4000 k

pub small-IsValid : IsValid small
small-IsValid = (init-IsValid region 0x4000 (omega arith) (omega arith)).0

pub alloc-small : (alloc_page small).0 ≡ region
unfolding alloc_page find_free bitmap_test init
alloc-small = refl

pub alloc_second-small : (alloc_page (alloc_page small).1).0 ≡ 0x8020_1000
unfolding alloc_page find_free bitmap_test init bitmap_set
alloc_second-small = refl

alloc_three-small : (alloc_pages small 3).0 ≡ region
unfolding alloc_pages alloc_page all_free find_run take_run bitmap_test init
alloc_three-small = refl

alloc_page-first_fit_example :
    (((i : ℕ) → i < small.total_pages → used small i ≡ true) × (alloc_page small ≡ (0, small)))
    ⊎ ((k : ℕ) × Took small k (alloc_page small))
alloc_page-first_fit_example = alloc_page-first_fit small small-IsValid

alloc_pages-first_fit_example :
    ((alloc_pages small 3 ≡ (0, small))
      × ((s : ℕ) → s + 3 ≤ small.total_pages → RunBusy (used small) s 3))
    ⊎ ((start : ℕ) × TookLowest small start 3 (alloc_pages small 3))
alloc_pages-first_fit_example = alloc_pages-first_fit small 3 small-IsValid (omega arith)

free_pages-alloc_pages_example :
    let q = free_pages (alloc_pages small 3).1 (alloc_pages small 3).0 3 in
    ((i : ℕ) → used q i ≡ used small i) × (q.free_pages ≡ small.free_pages) × IsValid q
free_pages-alloc_pages_example =
    free_pages-alloc_pages small 3 small-IsValid (omega arith) (omega (arith, alloc_three-small))

free_page-Gave_example :
    ((k : ℕ) × IsHeld small k 0x8020_1004 × Gave small k (free_page small 0x8020_1004))
    ⊎ (Refused small 0x8020_1004 × (free_page small 0x8020_1004 ≡ small))
free_page-Gave_example = free_page-Gave small 0x8020_1004 small-IsValid
