-- ===== src/Pmm.antt =====
-- kernel/mm/pmm.c: the physical page allocator over a bitmap. The static variables of the file are
-- the fields of a record; messages to the UART are left out. Addresses are 64-bit words.
pub mod Bitmap
pub mod Count
pub mod Invariant
pub mod Alloc
pub mod Runs
pub mod Free
pub mod RoundTrip
pub mod Tests
use thunderos.Prelude.{
  ℕ, zero, suc, ◌+◌, ◌-◌, ◌*◌, ◌/◌, ◌%◌, ◌^◌, Option, none, some, List, Bool, true, false, ◌==◌,
  ltb, leb, not, if◌then◌else◌, get_or, set, replicate, bit_test, bit_set, bit_clear,
}

abbrev pub page_size : ℕ
page_size = 4096

-- BITMAP_SIZE, in bytes.
abbrev pub bitmap_size : ℕ
bitmap_size = 4096

-- `uintptr_t` and `size_t` addition.
abbrev pub add64 : ℕ → ℕ → ℕ
add64 a b = (a + b) % 2 ^ 64

-- `size_t` decrement.
abbrev pub dec64 : ℕ → ℕ
dec64 a = add64 a (2 ^ 64 - 1)

pub record Pmm : Type 0 where
  pub memory_start : ℕ
  pub total_pages : ℕ
  pub free_pages : ℕ
  pub page_bitmap : List ℕ

pub bitmap_test : List ℕ → ℕ → Bool
bitmap_test bitmap page_num = bit_test (get_or bitmap (page_num / 8) 0) (page_num % 8)

pub bitmap_set : List ℕ → ℕ → List ℕ
bitmap_set bitmap page_num =
    set bitmap (page_num / 8) (bit_set (get_or bitmap (page_num / 8) 0) (page_num % 8))

pub bitmap_clear : List ℕ → ℕ → List ℕ
bitmap_clear bitmap page_num =
    set bitmap (page_num / 8) (bit_clear (get_or bitmap (page_num / 8) 0) (page_num % 8))

-- PAGE_ALIGN_UP: `(addr + PAGE_SIZE - 1) & ~(PAGE_SIZE - 1)`.
abbrev pub page_align_up : ℕ → ℕ
page_align_up addr = let a = add64 addr (page_size - 1) in a - a % page_size

-- `pmm_init`, with the bitmap cleared and the number of pages cut to its capacity.
pub init : ℕ → ℕ → Pmm
init mem_start mem_size = record {
  memory_start = page_align_up mem_start;
  total_pages = pages;
  free_pages = pages;
  page_bitmap = replicate bitmap_size 0;
}
  where
    pages : ℕ
    pages =
        if ltb (bitmap_size * 8) (mem_size / page_size)
        then bitmap_size * 8
        else mem_size / page_size

-- The search loop of `pmm_alloc_page`: the rounds left, and the page looked at.
find_free : List ℕ → ℕ → ℕ → Option ℕ
find_free bitmap zero page_num = none
find_free bitmap (suc rounds) page_num =
    if bitmap_test bitmap page_num then find_free bitmap rounds (page_num + 1) else some page_num

abbrev pub page_address : Pmm → ℕ → ℕ
page_address p page_num = add64 p.memory_start (page_num * page_size)

-- `pmm_alloc_page`: the address, 0 when no page is free.
pub alloc_page : Pmm → ℕ × Pmm
unfolding find_free
alloc_page p = elim (find_free p.page_bitmap p.total_pages 0) [
  | none ↦ (0, p)
  | some page_num ↦ (
    page_address p page_num,
    record p { free_pages = dec64 p.free_pages; page_bitmap = bitmap_set p.page_bitmap page_num },
  )
]

-- Whether `n` pages from `start` on are free.
all_free : List ℕ → ℕ → ℕ → Bool
all_free bitmap zero start = true
all_free bitmap (suc n) start =
    if bitmap_test bitmap start then false else all_free bitmap n (start + 1)

-- The outer loop of `pmm_alloc_pages`.
find_run : List ℕ → ℕ → ℕ → ℕ → Option ℕ
find_run bitmap num_pages zero start = none
find_run bitmap num_pages (suc rounds) start =
    let rest = find_run bitmap num_pages rounds (start + 1) in
    if all_free bitmap num_pages start then some start else rest

-- The loop that takes the pages of a run.
take_run : Pmm → ℕ → ℕ → Pmm
take_run p zero page_num = p
take_run p (suc n) page_num =
    take_run
      (record p {
        free_pages = dec64 p.free_pages;
        page_bitmap = bitmap_set p.page_bitmap page_num;
      })
      n (page_num + 1)

-- `pmm_alloc_pages`.
pub alloc_pages : Pmm → ℕ → ℕ × Pmm
unfolding alloc_page all_free find_run take_run
alloc_pages p num_pages =
    if num_pages == 0
    then (0, p)
    else if num_pages == 1
    then alloc_page p
    else if ltb p.total_pages num_pages
    then (0, p)
    else elim (find_run p.page_bitmap num_pages (p.total_pages - num_pages + 1) 0) [
      | none ↦ (0, p)
      | some start ↦ (page_address p start, take_run p num_pages start)
    ]

-- `pmm_free_page`: each of the four refusals leaves the allocator as it was.
pub free_page : Pmm → ℕ → Pmm
free_page p page_addr =
    let page_num = (page_addr - p.memory_start) / page_size in
    if not (page_addr % page_size == 0)
    then p
    else if ltb page_addr p.memory_start
    then p
    else if leb p.total_pages page_num
    then p
    else if bitmap_test p.page_bitmap page_num
    then record p {
      free_pages = add64 p.free_pages 1;
      page_bitmap = bitmap_clear p.page_bitmap page_num;
    }
    else p

-- The loop of `pmm_free_pages`, with the number of pages left and the index of the next.
free_from : Pmm → ℕ → ℕ → ℕ → Pmm
free_from p page_addr zero i = p
free_from p page_addr (suc n) i =
    free_from (free_page p (add64 page_addr (i * page_size))) page_addr n (i + 1)

pub free_pages : Pmm → ℕ → ℕ → Pmm
unfolding free_from
free_pages p page_addr num_pages = free_from p page_addr num_pages 0

-- `pmm_get_stats`: the two numbers that go out through the pointers.
pub get_stats : Pmm → ℕ × ℕ
get_stats p = (p.total_pages, p.free_pages)
