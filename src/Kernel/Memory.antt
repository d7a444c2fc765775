-- ===== src/Kernel/Memory.antt =====
-- The kernel's heap calls touch the heap only, and `kfree` panics only on a header that is not there.
use thunderos.Prelude.{ℕ, ◌-◌, ◌≡◌, ◌≢◌, refl, some, arith}
use thunderos.Kmalloc.{Heap, Header, header_size, kmalloc_magic}
use thunderos.Kmalloc.RoundTrip.{kfree-header}
use thunderos.Kernel.{Kernel, kernel_kmalloc, kernel_kfree}

-- All of the kernel but its heap.
pub record SameRest (k k' : Kernel) : Type 0 where
  pub same_sched : k'.sched ≡ k.sched
  pub same_state : k'.state ≡ k.state
  pub same_current : k'.current ≡ k.current

pub kernel_kmalloc-SameRest : (k : Kernel) (size : ℕ) → SameRest k (kernel_kmalloc k size).1
unfolding kernel_kmalloc
kernel_kmalloc-SameRest k size = record {
  same_sched = refl;
  same_state = refl;
  same_current = refl;
}

pub kernel_kfree-SameRest : (k : Kernel) (ptr : ℕ) → SameRest k (kernel_kfree k ptr)
unfolding kernel_kfree
kernel_kfree-SameRest k ptr = record {
  same_sched = ground arith;
  same_state = ground arith;
  same_current = ground arith;
}

-- A pointer with a block's header in front of it.
pub record IsBlock (h : Heap) (ptr : ℕ) : Type 0 where
  pub hd : Header
  pub nonnull : ptr ≢ 0
  pub found : h.header (ptr - header_size) ≡ some hd
  pub genuine : hd.magic ≡ kmalloc_magic

pub kernel_kfree_safe :
    (k : Kernel) (ptr : ℕ)
    → IsBlock k.heap ptr
    → ((kernel_kfree k ptr).panicked ≡ k.panicked)
      × ((kernel_kfree k ptr).heap.header ≡ k.heap.header)
unfolding kernel_kfree
kernel_kfree_safe k ptr b = ground (arith, kfree-header k.heap ptr b.hd b.nonnull b.found b.genuine)
