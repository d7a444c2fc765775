-- ===== src/Pmm/RoundTrip.antt =====
-- `pmm_free_page` and `pmm_free_pages` undo the allocations; freeing twice does no more than once.
use thunderos.Prelude.{
  ℕ, zero, suc, ◌+◌, ◌-◌, ◌*◌, ◌/◌, ◌≤◌, ◌<◌, ◌≡◌, ◌≢◌, refl, true, false, ltb, leb, ◌&&◌,
  if◌then◌else◌, arith, ◌∙◌, ap, inl, inr,
}
use thunderos.Pmm.{
  Pmm, bitmap_set, bitmap_clear, page_size, alloc_page, alloc_pages, free_page, free_from,
  free_pages, dec64, add64,
}
use thunderos.Pmm.Bitmap.{bitmap_clear-bitmap_set}
use thunderos.Pmm.Count.{count_free-le}
use thunderos.Pmm.Invariant.{used, IsValid}
use thunderos.Pmm.Alloc.{
  take_page, used-take_page, free_pages-take_page, Took, alloc_page-first_fit,
}
use thunderos.Pmm.Runs.{TookLowest, alloc_pages-first_fit}
use thunderos.Pmm.Free.{IsHeld, give_page, free_page-held, free_page-Refused, Gave, give_page-Gave}

give_page-take_page :
    (p : Pmm) (k : ℕ)
    → IsValid p
    → k < p.total_pages
    → used p k ≡ false
    → give_page (take_page p k) k ≡ p
give_page-take_page p k v inside free = λ i. record p { free_pages = same i; page_bitmap = bits i }
  where
    same : add64 (dec64 p.free_pages) 1 ≡ p.free_pages
    same = omega (
      arith,
      free_pages-take_page p k v inside free,
      v.counted,
      v.fits,
      count_free-le (used p) p.total_pages,
    )

    bits : bitmap_clear (bitmap_set p.page_bitmap k) k ≡ p.page_bitmap
    bits = bitmap_clear-bitmap_set p.page_bitmap k v.bytes (omega (arith, v.small, v.size)) free

-- Freeing the page that `pmm_alloc_page` has just returned gives the allocator back exactly as it
-- was before, on a valid allocator with a free page.
pub free_page-alloc_page :
    (p : Pmm) → IsValid p → (alloc_page p).0 ≢ 0 → free_page (alloc_page p).1 (alloc_page p).0 ≡ p
free_page-alloc_page p v ne = elim (alloc_page-first_fit p v) [
  | inl (_, e) ↦ absurd (ne (ap (λ r. r.0) e))
  | inr (k, t) ↦
      free_page-held (alloc_page p).1 k (alloc_page p).0 t.valid (held k t)
      ∙ ap (λ q. give_page q k) t.state
      ∙ give_page-take_page p k v t.inside t.was_free
]
  where
    held : (k : ℕ) → Took p k (alloc_page p) → IsHeld (alloc_page p).1 k (alloc_page p).0
    held k t = rw t.state (record {
      inside = t.inside;
      address = t.address;
      held = ground (arith, used-take_page p k v t.inside t.was_free k);
    })

-- Freeing an allocated page twice leaves the allocator as freeing it once does.
pub free_page_twice :
    (p : Pmm) (k addr : ℕ)
    → IsValid p
    → IsHeld p k addr
    → free_page (free_page p addr) addr ≡ free_page p addr
free_page_twice p k addr v h =
    rw (free_page-held p k addr v h)
      (free_page-Refused (give_page p k) addr g.valid (inr (inr (inr now_free))))
  where
    g : Gave p k (give_page p k)
    g = give_page-Gave p k v h.inside h.held

    page : (addr - p.memory_start) / page_size ≡ k
    page = omega (arith, h.address)

    now_free : used (give_page p k) ((addr - p.memory_start) / page_size) ≡ false
    now_free = rw page (ground (arith, g.marked k))

-- What giving back the `n` pages from `start` on has done.
pub record GaveRun (p : Pmm) (start n : ℕ) (q : Pmm) : Type 0 where
  pub marked : (i : ℕ) → used q i ≡ (if leb start i && ltb i (start + n) then false else used p i)
  pub count : q.free_pages ≡ p.free_pages + n
  pub valid : IsValid q
  pub total : q.total_pages ≡ p.total_pages
  pub base : q.memory_start ≡ p.memory_start

GaveRun-step :
    (p : Pmm) (n start : ℕ) (q r : Pmm)
    → Gave p start q
    → GaveRun q (start + 1) n r
    → GaveRun p start (suc n) r
GaveRun-step p n start q r g t = record {
  marked = λ i. ground (arith, t.marked i, g.marked i);
  count = omega (arith, t.count, g.count);
  valid = t.valid;
  total = t.total ∙ g.total;
  base = t.base ∙ g.base;
}

-- The loop of `pmm_free_pages` over pages that are allocated.
free_from-GaveRun :
    (p : Pmm) (n start i addr : ℕ)
    → IsValid p
    → addr ≡ p.memory_start + start * page_size
    → start + i + n ≤ p.total_pages
    → ((j : ℕ) → start + i ≤ j → j < start + i + n → used p j ≡ true)
    → GaveRun p (start + i) n (free_from p addr n i)
unfolding free_from
free_from-GaveRun p zero start i addr v e h f = record {
  marked = λ j. ground arith;
  count = omega arith;
  valid = v;
  total = refl;
  base = refl;
}
free_from-GaveRun p (suc n) start i addr v e h f =
    let k = start + i in
    let a = add64 addr (i * page_size) in
    let held : IsHeld p k a = record {
      inside = omega arith;
      address = omega (arith, v.fits);
      held = f k (omega arith) (omega arith);
    } in
    let q = free_page p a in
    let g : Gave p k q =
      rw (free_page-held p k a v held) (give_page-Gave p k v held.inside held.held) in
    let next : start + (i + 1) ≡ start + i + 1 = omega arith in
    GaveRun-step p n k q (free_from q addr n (i + 1)) g (
      rw next at (
        free_from-GaveRun q n start (i + 1) addr g.valid (omega (arith, g.base))
          (omega (arith, g.total))
          (λ j le lt. ground (arith, g.marked j, f j (omega arith) (omega arith)))))

-- Freeing the run of more than one page that `pmm_alloc_pages` has just returned makes exactly the
-- pages free again that were free before, restores the count and keeps the invariant, on a valid
-- allocator with a free run of that length.
pub free_pages-alloc_pages :
    (p : Pmm) (n : ℕ)
    → IsValid p
    → 1 < n
    → (alloc_pages p n).0 ≢ 0
    → let q = free_pages (alloc_pages p n).1 (alloc_pages p n).0 n in
      ((i : ℕ) → used q i ≡ used p i) × (q.free_pages ≡ p.free_pages) × IsValid q
unfolding free_pages
free_pages-alloc_pages p n v more ne = elim (alloc_pages-first_fit p n v more) [
  | inl (e, _) ↦ absurd (ne (ap (λ r. r.0) e))
  | inr (start, t) ↦ back start t
]
  where
    back :
        (start : ℕ)
        → TookLowest p start n (alloc_pages p n)
        → let q = free_pages (alloc_pages p n).1 (alloc_pages p n).0 n in
          ((i : ℕ) → used q i ≡ used p i) × (q.free_pages ≡ p.free_pages) × IsValid q
    back start t =
        let zero_more : start + 0 ≡ start = omega arith in
        let g : GaveRun (alloc_pages p n).1 start n
            (free_from (alloc_pages p n).1 (alloc_pages p n).0 n 0) =
          rw zero_more at (
            free_from-GaveRun (alloc_pages p n).1 n start 0 (alloc_pages p n).0 t.took.valid
              (omega (arith, t.address, t.took.base)) (omega (arith, t.inside, t.took.total))
              (λ j le lt. ground (arith, t.took.marked j))) in
        (
          λ i. ground (arith, g.marked i, t.took.marked i, t.was_free i),
          omega (arith, g.count, t.took.count),
          g.valid,
        )
