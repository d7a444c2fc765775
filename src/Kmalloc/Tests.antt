-- ===== src/Kmalloc/Tests.antt =====
-- The theorems on the kernel heap, over an allocator of four pages.
use thunderos.Prelude.{ℕ, ◌-◌, ◌^◌, ◌≡◌, ◌≢◌, ◌⊎◌, none, some, arith}
use thunderos.Errno.{enomem}
use thunderos.Pmm.Tests.{small, small-IsValid, small-size, small-free, alloc-small}
use thunderos.Kmalloc.{Heap, header_size, kmalloc_magic, pages_needed, take_pages, kmalloc, kfree}
use thunderos.Kmalloc.Laws.{NoRun, Allocated, kmalloc-Allocated, kmalloc_wraps}
use thunderos.Kmalloc.RoundTrip.{Restored, kfree-kmalloc}

abbrev pub fresh : Heap
fresh = record { pmm = small; header = λ _. none }

kmalloc-fresh : (kmalloc fresh 100).0 ≡ 0x8020_0018
unfolding kmalloc take_pages
kmalloc-fresh = ground (arith, alloc-small)

pub kmalloc_entry-fresh : (kmalloc fresh 16).0 ≡ 0x8020_0018
unfolding kmalloc take_pages
kmalloc_entry-fresh = ground (arith, alloc-small)

kmalloc-Allocated_example :
    ((kmalloc fresh 5000 ≡ (0, some enomem, fresh)) × NoRun fresh.pmm (pages_needed 5000))
    ⊎ ((k : ℕ) × Allocated fresh 5000 k (kmalloc fresh 5000))
kmalloc-Allocated_example = kmalloc-Allocated fresh 5000 small-IsValid (omega arith) (omega arith)

kfree-kmalloc_example :
    (q : Heap) × (kfree (kmalloc fresh 100).2 (kmalloc fresh 100).0 ≡ some q)
    × Restored fresh.pmm q.pmm
kfree-kmalloc_example =
    kfree-kmalloc fresh 100 small-IsValid (omega arith) (omega arith) (omega (arith, kmalloc-fresh))

kmalloc_wraps_example :
    let r = kmalloc fresh (2 ^ 64 - 8) in
    (r.0 ≢ 0)
    × (r.2.header (r.0 - header_size)
        ≡ some (record { size = 2 ^ 64 - 8; pages = 1; magic = kmalloc_magic }))
kmalloc_wraps_example =
    kmalloc_wraps fresh (2 ^ 64 - 8) 2 small-IsValid (omega arith) (omega arith)
      (omega (arith, small-size.0)) (small-free 2)
