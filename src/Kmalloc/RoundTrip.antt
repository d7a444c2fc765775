-- ===== src/Kmalloc/RoundTrip.antt =====
-- `kfree` after `kmalloc`.
use thunderos.Prelude.{
  ℕ, ◌+◌, ◌-◌, ◌^◌, ◌≤◌, ◌<◌, ◌≡◌, ◌≢◌, refl, false, ◌==◌, if◌then◌else◌, arith, ap, Option, some,
  inl, inr, ℕ_discrete,
}
use thunderos.Pmm.{Pmm, add64, page_size, free_page as pmm_free_page, free_pages as pmm_free_pages}
use thunderos.Pmm.Invariant.{used, IsValid}
use thunderos.Pmm.RoundTrip.{free_page-alloc_page, free_pages-alloc_pages}
use thunderos.Kmalloc.{
  Header, Heap, granted, header_size, kmalloc_magic, pages_needed, take_pages, kmalloc, kfree,
}
use thunderos.Kmalloc.Laws.{Block, take_pages-Block, kmalloc-none, kmalloc-granted}

-- The same pages are free, and as many are counted.
pub record Restored (p q : Pmm) : Type 0 where
  pub same_used : (i : ℕ) → used q i ≡ used p i
  pub same_count : q.free_pages ≡ p.free_pages
  pub valid : IsValid q

-- The last lines of `kfree`.
abbrev pub give_pages : Pmm → ℕ → ℕ → Pmm
give_pages p addr n = if n == 1 then pmm_free_page p addr else pmm_free_pages p addr n

give_pages-take_pages :
    (p : Pmm) (n : ℕ)
    → IsValid p
    → 0 < n
    → (take_pages p n).0 ≢ 0
    → Restored p (give_pages (take_pages p n).1 (take_pages p n).0 n)
unfolding take_pages
give_pages-take_pages p n v pos = elim (ℕ_discrete n 1) [
  | yes e ↦ rw e λ ne.
      rw (free_page-alloc_page p v ne)
        (record { same_used = λ i. refl; same_count = refl; valid = v })
  | no ne ↦ several ne
]
  where
    several :
        n ≢ 1
        → (take_pages p n).0 ≢ 0
        → Restored p (give_pages (take_pages p n).1 (take_pages p n).0 n)
    several ne =
        let f : (n == 1) ≡ false = ground arith in
        rw f λ nz.
          let (a, b, c) = free_pages-alloc_pages p n v (omega arith) nz in
          record { same_used = a; same_count = b; valid = c }

pub kfree-header :
    (h : Heap) (ptr : ℕ) (hd : Header)
    → ptr ≢ 0
    → h.header (ptr - header_size) ≡ some hd
    → hd.magic ≡ kmalloc_magic
    → kfree h ptr ≡ some (record h { pmm = give_pages h.pmm (ptr - header_size) hd.pages })
unfolding kfree
kfree-header h ptr hd ne e m = ground arith

-- What `kmalloc` has handed out, `kfree` takes back without a panic: the same pages are free as
-- before, as many are counted and the allocator is valid again; for sizes that do not wrap.
pub kfree-kmalloc :
    (h : Heap) (size : ℕ)
    → IsValid h.pmm
    → 0 < size
    → size + header_size + page_size ≤ 2 ^ 64
    → (kmalloc h size).0 ≢ 0
    → (q : Heap) × (kfree (kmalloc h size).2 (kmalloc h size).0 ≡ some q) × Restored h.pmm q.pmm
kfree-kmalloc h size v pos small ne = elim (take_pages-Block h.pmm n v (omega arith)) [
  | inl (e, _) ↦ absurd (ne (ap (λ r. r.0) (kmalloc-none h size pos e)))
  | inr (k, b) ↦ block k b
]
  where
    n : ℕ
    n = pages_needed size

    r : ℕ × Pmm
    r = take_pages h.pmm n

    g : ℕ × Option ℕ × Heap
    g = granted h size r.0 r.1

    block :
        (k : ℕ)
        → Block h.pmm k n r
        → (q : Heap) × (kfree (kmalloc h size).2 (kmalloc h size).0 ≡ some q) × Restored h.pmm q.pmm
    block k b =
        let nz : r.0 ≢ 0 = omega (arith, b.address, v.nonzero) in
        let ptr : add64 r.0 header_size - header_size ≡ r.0 =
          omega (arith, b.address, b.inside, v.fits) in
        rw (kmalloc-granted h size pos nz) (
          record g.2 { pmm = give_pages r.1 (g.0 - header_size) n },
          kfree-header g.2 g.0 (record { size = size; pages = n; magic = kmalloc_magic })
              (omega (arith, b.address, b.inside, v.fits)) (rw ptr (ground arith)) refl,
          rw ptr (give_pages-take_pages h.pmm n v (omega arith) nz),
        )
