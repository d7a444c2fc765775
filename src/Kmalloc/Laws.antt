-- ===== src/Kmalloc/Laws.antt =====
-- What `kmalloc` hands out: a block of free pages that holds the size asked for; and `kfree` gives
-- exactly those pages back. A size near 2^64 is the exception.
use thunderos.Prelude.{
  ℕ, ◌+◌, ◌-◌, ◌*◌, ◌^◌, ◌≤◌, ◌<◌, ◌≡◌, ◌≢◌, refl, true, false, ltb, leb, ◌&&◌, if◌then◌else◌,
  arith, ◌∙◌, ap, Option, some, ◌⊎◌, inl, inr, ℕ_discrete,
}
use thunderos.Errno.{enomem}
use thunderos.Pmm.{
  Pmm, add64, page_size, alloc_page as pmm_alloc_page, alloc_pages as pmm_alloc_pages,
}
use thunderos.Pmm.Invariant.{used, IsValid}
use thunderos.Pmm.Alloc.{Took, alloc_page-first_fit}
use thunderos.Pmm.Runs.{RunFree, RunBusy, alloc_pages-first_fit}
use thunderos.Kmalloc.{Heap, granted, header_size, kmalloc_magic, pages_needed, take_pages, kmalloc}

-- A run of `n` pages from page `k` on, taken from `p`.
pub record Block (p : Pmm) (k n : ℕ) (r : ℕ × Pmm) : Type 0 where
  pub inside : k + n ≤ p.total_pages
  pub was_free : RunFree (used p) k n
  pub address : r.0 ≡ p.memory_start + k * page_size
  pub marked : (i : ℕ) → used r.1 i ≡ (if leb k i && ltb i (k + n) then true else used p i)
  pub count : r.1.free_pages + n ≡ p.free_pages
  pub valid : IsValid r.1

Took-Block : (p : Pmm) (k : ℕ) (r : ℕ × Pmm) → Took p k r → Block p k 1 r
Took-Block p k r t = record {
  inside = omega (arith, t.inside);
  was_free = λ i le lt. let e : i ≡ k = omega arith in rw e t.was_free;
  address = t.address;
  marked = λ i. ground (arith, t.marked i);
  count = t.count;
  valid = t.valid;
}

-- No run of `n` pages is free.
abbrev pub NoRun : Pmm → ℕ → Type 0
NoRun p n = (s : ℕ) → s + n ≤ p.total_pages → RunBusy (used p) s n

NoRun-one : (p : Pmm) → ((i : ℕ) → i < p.total_pages → used p i ≡ true) → NoRun p 1
NoRun-one p all s le = (s, omega arith, omega arith, all s (omega arith))

-- One page or a run: a block that was free, or 0 and the allocator as it was where no run is free.
pub take_pages-Block :
    (p : Pmm) (n : ℕ)
    → IsValid p
    → 0 < n
    → ((take_pages p n ≡ (0, p)) × NoRun p n) ⊎ ((k : ℕ) × Block p k n (take_pages p n))
unfolding take_pages
take_pages-Block p n v pos = elim (ℕ_discrete n 1) [
  | yes e ↦ rw e (elim (alloc_page-first_fit p v) [
    | inl (all, f) ↦ inl (f, NoRun-one p all)
    | inr (k, t) ↦ inr (k, Took-Block p k (pmm_alloc_page p) t)
  ])
  | no ne ↦
      let several : take_pages p n ≡ pmm_alloc_pages p n = ground arith in
      rw several (elim (alloc_pages-first_fit p n v (omega arith)) [
        | inl (f, none_free) ↦ inl (f, none_free)
        | inr (k, t) ↦ inr (
          k,
          record {
            inside = t.inside;
            was_free = t.was_free;
            address = t.address;
            marked = t.took.marked;
            count = t.took.count;
            valid = t.took.valid;
          },
        )
      ])
]

-- What a successful call hands out: its block, the header, and room for `size` bytes after it.
pub record Allocated (h : Heap) (size k : ℕ) (r : ℕ × Option ℕ × Heap) : Type 0 where
  pub block : Block h.pmm k (pages_needed size) (r.0 - header_size, r.2.pmm)
  pub errno : r.1 ≡ some 0
  pub room : r.0 + size ≤ h.pmm.memory_start + (k + pages_needed size) * page_size
  pub header :
      r.2.header (r.0 - header_size)
      ≡ some (record { size = size; pages = pages_needed size; magic = kmalloc_magic })
  pub others : (a : ℕ) → a ≢ r.0 - header_size → r.2.header a ≡ h.header a

pub kmalloc-none :
    (h : Heap) (size : ℕ)
    → 0 < size
    → take_pages h.pmm (pages_needed size) ≡ (0, h.pmm)
    → kmalloc h size ≡ (0, some enomem, h)
unfolding kmalloc
kmalloc-none h size pos e = ground arith

pub kmalloc-granted :
    (h : Heap) (size : ℕ)
    → 0 < size
    → let r = take_pages h.pmm (pages_needed size) in
      r.0 ≢ 0 → kmalloc h size ≡ granted h size r.0 r.1
unfolding kmalloc
kmalloc-granted h size pos ne = ground arith

granted-Allocated :
    (h : Heap) (size k : ℕ) (r : ℕ × Pmm)
    → IsValid h.pmm
    → size + header_size + page_size ≤ 2 ^ 64
    → Block h.pmm k (pages_needed size) r
    → Allocated h size k (granted h size r.0 r.1)
granted-Allocated h size k r v small b = record {
  block = rw ptr b;
  errno = refl;
  room = omega (arith, b.address, b.inside, v.fits);
  header = rw ptr (ground arith);
  others = λ a ne. ground (arith, ptr);
}
  where
    ptr : add64 r.0 header_size - header_size ≡ r.0
    ptr = omega (arith, b.address, b.inside, v.fits)

-- `kmalloc` for a size that is not 0 and leaves room below 2^64 for the header and the rounding, on a
-- valid allocator: it returns NULL with ENOMEM and changes nothing, where no run of the pages that the
-- size and the header need is free; or it hands out a run of pages that were free, records them in a
-- header at their start, changes no other header, and the block has room for `size` bytes from the
-- returned pointer on.
pub kmalloc-Allocated :
    (h : Heap) (size : ℕ)
    → IsValid h.pmm
    → 0 < size
    → size + header_size + page_size ≤ 2 ^ 64
    → ((kmalloc h size ≡ (0, some enomem, h)) × NoRun h.pmm (pages_needed size))
      ⊎ ((k : ℕ) × Allocated h size k (kmalloc h size))
kmalloc-Allocated h size v pos small =
    elim (take_pages-Block h.pmm (pages_needed size) v (omega arith)) [
      | inl (e, none_free) ↦ inl (kmalloc-none h size pos e, none_free)
      | inr (k, b) ↦ inr (
        k,
        rw (kmalloc-granted h size pos (omega (arith, b.address, v.nonzero)))
            (granted-Allocated h size k (take_pages h.pmm (pages_needed size)) v small b),
      )
    ]

granted_header :
    (h : Heap) (size k n : ℕ) (r : ℕ × Pmm)
    → pages_needed size ≡ n
    → IsValid h.pmm
    → k < h.pmm.total_pages
    → r.0 ≡ h.pmm.memory_start + k * page_size
    → let g = granted h size r.0 r.1 in
      (g.0 ≢ 0)
      × (g.2.header (g.0 - header_size)
          ≡ some (record { size = size; pages = n; magic = kmalloc_magic }))
granted_header h size k n r pages v inside e =
    (omega (arith, v.fits), rw ptr (ground (arith, pages)))
  where
    ptr : add64 r.0 header_size - header_size ≡ r.0
    ptr = omega (arith, v.fits)

-- A block of one page comes from `pmm_alloc_page`.
sole :
    (size : ℕ) (p : Pmm)
    → pages_needed size ≡ 1
    → take_pages p (pages_needed size) ≡ pmm_alloc_page p
unfolding take_pages
sole size p e = ground arith

-- The bug class: within 24 of 2^64 the size of the header wraps the sum, and whenever a page is
-- free `kmalloc` succeeds with a block of that one page.
pub kmalloc_wraps :
    (h : Heap) (size i : ℕ)
    → IsValid h.pmm
    → 2 ^ 64 - header_size < size
    → size < 2 ^ 64
    → i < h.pmm.total_pages
    → used h.pmm i ≡ false
    → let r = kmalloc h size in
      (r.0 ≢ 0)
      × (r.2.header (r.0 - header_size)
          ≡ some (record { size = size; pages = 1; magic = kmalloc_magic }))
kmalloc_wraps h size i v big small inside free = elim (alloc_page-first_fit h.pmm v) [
  | inl (full, _) ↦ absurd (clash (full i inside))
  | inr (k, t) ↦
      let e = ap (λ r. r.0) (sole size h.pmm one) ∙ t.address in
      rw (kmalloc-granted h size (omega arith) (omega (arith, e, v.nonzero)))
        (granted_header h size k 1 (take_pages h.pmm (pages_needed size)) one v t.inside e)
]
  where
    one : pages_needed size ≡ 1
    one = omega arith

    clash : used h.pmm i ≡ true → ⊥
    clash e = cc
