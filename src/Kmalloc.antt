-- ===== src/Kmalloc.antt =====
-- kernel/mm/kmalloc.c: the kernel heap over the page allocator. A pointer is its address, 0 is NULL.
-- Of the memory only the headers are modelled, by the address of the page that they stand at.
pub mod Laws
pub mod RoundTrip
pub mod Tests
use thunderos.Prelude.{
  ℕ, ◌+◌, ◌-◌, ◌*◌, ◌/◌, ◌%◌, ◌^◌, Option, none, some, ◌==◌, leb, not, if◌then◌else◌, Bool, true,
  false,
}
use thunderos.Errno.{Reply, ok, err, enomem, enosys}
use thunderos.Pmm.{
  Pmm, add64, page_size, alloc_page as pmm_alloc_page, alloc_pages as pmm_alloc_pages,
  free_page as pmm_free_page, free_pages as pmm_free_pages,
}

-- `struct kmalloc_header`, 24 bytes with its padding.
pub record Header : Type 0 where
  pub size : ℕ
  pub pages : ℕ
  pub magic : ℕ

abbrev pub header_size : ℕ
header_size = 24

abbrev pub kmalloc_magic : ℕ
kmalloc_magic = 0xdeadbeef

-- `header` is what memory holds where a header may stand; `none` is memory never written as one.
pub record Heap : Type 0 where
  pub pmm : Pmm
  pub header : ℕ → Option Header

-- `pages_needed` of `kmalloc`, with the wrap-around of both sums.
abbrev pub pages_needed : ℕ → ℕ
pages_needed size = (add64 (add64 size header_size) page_size + 2 ^ 64 - 1) % 2 ^ 64 / page_size

abbrev pub write_header : (ℕ → Option Header) → ℕ → Header → ℕ → Option Header
write_header f addr h a = if addr == a then some h else f a

-- The two ways of asking for the pages.
pub take_pages : Pmm → ℕ → ℕ × Pmm
take_pages p n = if n == 1 then pmm_alloc_page p else pmm_alloc_pages p n

-- The last part of `kmalloc`: the header goes to the start of the pages.
abbrev pub granted : Heap → ℕ → ℕ → Pmm → ℕ × Option ℕ × Heap
granted h size page_addr pmm = (
  add64 page_addr header_size,
  some 0,
  record h {
    pmm = pmm;
    header =
        write_header h.header page_addr
          (record { size = size; pages = pages_needed size; magic = kmalloc_magic });
  },
)

-- `kmalloc`: the pointer, `errno` where the call touches it (0 for cleared), and the new heap.
pub kmalloc : Heap → ℕ → ℕ × Option ℕ × Heap
kmalloc h size =
    if size == 0
    then (0, none, h)
    else let (page_addr, pmm) = take_pages h.pmm (pages_needed size) in
      if page_addr == 0
      then (0, some enomem, record h { pmm = pmm })
      else granted h size page_addr pmm

-- `kfree`: `none` is the kernel panic on a header that is not there.
pub kfree : Heap → ℕ → Option Heap
kfree h ptr = if ptr == 0 then some h else elim (h.header (ptr - header_size)) [
  | none ↦ none
  | some hd ↦
      if not (hd.magic == kmalloc_magic)
      then none
      else if hd.pages == 1
      then some (record h { pmm = pmm_free_page h.pmm (ptr - header_size) })
      else some (record h { pmm = pmm_free_pages h.pmm (ptr - header_size) hd.pages })
]

-- `kmalloc_aligned`.
pub kmalloc_aligned : Heap → ℕ → ℕ → ℕ × Option ℕ × Heap
unfolding kmalloc
kmalloc_aligned h size align = if leb align page_size then kmalloc h size else (0, some enosys, h)
