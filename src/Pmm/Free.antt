-- ===== src/Pmm/Free.antt =====
-- `pmm_free_page` and `pmm_free_pages`: what they accept, and that they undo the allocations.
use thunderos.Prelude.{
  ℕ, ◌+◌, ◌-◌, ◌*◌, ◌/◌, ◌%◌, ◌≤◌, ◌<◌, ◌≡◌, ◌≢◌, refl, true, false, ◌==◌, if◌then◌else◌, arith,
  ◌∙◌, sym, ◌⊎◌, Bool-cases, inl, inr, ℕ_discrete, dec_lt,
}
use thunderos.Pmm.{Pmm, bitmap_clear, page_size, free_page, add64}
use thunderos.Pmm.Bitmap.{bitmap_clear-AllBytes, bitmap_test-bitmap_clear, length-bitmap_clear}
use thunderos.Pmm.Count.{count_free, count_free_give, count_free-le}
use thunderos.Pmm.Invariant.{used, IsValid}

-- The address of a page that is allocated.
pub record IsHeld (p : Pmm) (k addr : ℕ) : Type 0 where
  pub inside : k < p.total_pages
  pub address : addr ≡ p.memory_start + k * page_size
  pub held : used p k ≡ true

abbrev pub give_page : Pmm → ℕ → Pmm
give_page p k = record p {
  free_pages = add64 p.free_pages 1;
  page_bitmap = bitmap_clear p.page_bitmap k;
}

pub free_page-held :
    (p : Pmm) (k addr : ℕ) → IsValid p → IsHeld p k addr → free_page p addr ≡ give_page p k
unfolding free_page
free_page-held p k addr v h =
    let e : (addr - p.memory_start) / page_size ≡ k = omega (arith, h.address) in
    rw e (ground (arith, h.address, h.held, v.aligned, h.inside))

-- What giving page `k` back has done.
pub record Gave (p : Pmm) (k : ℕ) (q : Pmm) : Type 0 where
  pub marked : (i : ℕ) → used q i ≡ (if k == i then false else used p i)
  pub count : q.free_pages ≡ p.free_pages + 1
  pub valid : IsValid q
  pub total : q.total_pages ≡ p.total_pages
  pub base : q.memory_start ≡ p.memory_start

module _ (p : Pmm) (k : ℕ) (v : IsValid p) (inside : k < p.total_pages)
    (held : used p k ≡ true) where
  used-give_page : (i : ℕ) → used (give_page p k) i ≡ (if k == i then false else used p i)
  used-give_page = bitmap_test-bitmap_clear p.page_bitmap k v.bytes (omega (arith, v.small, v.size))

  counted-give_page : count_free (used (give_page p k)) p.total_pages ≡ p.free_pages + 1
  counted-give_page = omega (
    arith,
    v.counted,
    count_free_give (used p) (used (give_page p k)) p.total_pages k inside held used-give_page,
  )

  free_pages-give_page : (give_page p k).free_pages ≡ p.free_pages + 1
  free_pages-give_page = omega (arith, v.counted, v.fits, count_free-le (used p) p.total_pages)

  pub give_page-Gave : Gave p k (give_page p k)
  give_page-Gave = record {
    marked = used-give_page;
    count = free_pages-give_page;
    valid = record {
      bytes = bitmap_clear-AllBytes p.page_bitmap k v.bytes;
      size = length-bitmap_clear p.page_bitmap k ∙ v.size;
      small = v.small;
      counted = free_pages-give_page ∙ sym counted-give_page;
      aligned = v.aligned;
      nonzero = v.nonzero;
      fits = v.fits;
    };
    total = refl;
    base = refl;
  }

-- An address that is not that of an allocated page: unaligned, outside the region, or free.
abbrev pub Refused : Pmm → ℕ → Type 0
Refused p addr =
    (addr % page_size ≢ 0)
    ⊎ (addr < p.memory_start)
    ⊎ (p.memory_start + p.total_pages * page_size ≤ addr)
    ⊎ (used p ((addr - p.memory_start) / page_size) ≡ false)

pub free_page-Refused : (p : Pmm) (addr : ℕ) → IsValid p → Refused p addr → free_page p addr ≡ p
unfolding free_page
free_page-Refused p addr v h = ground (arith, v.aligned)

page_of : Pmm → ℕ → ℕ
page_of p addr = (addr - p.memory_start) / page_size

IsHeld-or_Refused :
    (p : Pmm) (addr : ℕ) → IsValid p → IsHeld p (page_of p addr) addr ⊎ Refused p addr
unfolding page_of
IsHeld-or_Refused p addr v = elim (Bool-cases (used p (page_of p addr))) [
  | inr free ↦ inr (inr (inr (inr free)))
  | inl held ↦ elim (ℕ_discrete (addr % page_size) 0) [
    | no ragged ↦ inr (inl ragged)
    | yes aligned ↦ elim (dec_lt addr p.memory_start) [
      | yes below ↦ inr (inr (inl below))
      | no above ↦ elim (dec_lt addr (p.memory_start + p.total_pages * page_size)) [
        | yes within ↦
            inl (record { inside = omega arith; address = omega (arith, v.aligned); held = held })
        | no past ↦ inr (inr (inr (inl (omega arith))))
      ]
    ]
  ]
]

-- `pmm_free_page` on a valid allocator: either the address is that of an allocated page, and exactly
-- that page is given back and counted, keeping the invariant; or it is unaligned, outside the managed
-- region or that of a free page, and nothing changes.
pub free_page-Gave :
    (p : Pmm) (addr : ℕ)
    → IsValid p
    → ((k : ℕ) × IsHeld p k addr × Gave p k (free_page p addr))
      ⊎ (Refused p addr × (free_page p addr ≡ p))
free_page-Gave p addr v = elim (IsHeld-or_Refused p addr v) [
  | inl h ↦ inl (
    page_of p addr,
    h,
    rw (free_page-held p (page_of p addr) addr v h)
        (give_page-Gave p (page_of p addr) v h.inside h.held),
  )
  | inr r ↦ inr (r, free_page-Refused p addr v r)
]
