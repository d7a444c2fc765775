-- ===== src/Pmm/Alloc.antt =====
-- What `pmm_alloc_page` and `pmm_alloc_pages` return, and what they change.
use thunderos.Prelude.{
  ℕ, zero, suc, ◌+◌, ◌*◌, ◌≤◌, ◌<◌, ◌≡◌, refl, List, Bool, true, false, ◌==◌, if◌then◌else◌, arith,
  ◌∙◌, Option, none, some, ◌⊎◌, inl, inr, Bool-cases, ℕ_discrete,
}
use thunderos.Pmm.{
  Pmm, bitmap_test, bitmap_set, page_size, page_address, find_free, alloc_page, dec64,
}
use thunderos.Pmm.Bitmap.{bitmap_set-AllBytes, bitmap_test-bitmap_set, length-bitmap_set}
use thunderos.Pmm.Count.{count_free_take, count_free-le}
use thunderos.Pmm.Invariant.{used, IsValid}

-- The least free page of a range, or none.
abbrev pub FirstFree : (ℕ → Bool) → ℕ → ℕ → Option ℕ → Type 0
FirstFree u from to none = (i : ℕ) → from ≤ i → i < to → u i ≡ true
FirstFree u from to (some k) =
    (from ≤ k) × (k < to) × (u k ≡ false) × ((i : ℕ) → from ≤ i → i < k → u i ≡ true)

extend_below :
    (u : ℕ → Bool) (from k : ℕ)
    → u from ≡ true
    → ((i : ℕ) → from + 1 ≤ i → i < k → u i ≡ true)
    → (i : ℕ) → from ≤ i
    → i < k
    → u i ≡ true
extend_below u from k h f i le lt = elim (ℕ_discrete i from) [
  | yes e ↦ rw e h
  | no ne ↦ f i (omega arith) lt
]

extend :
    (u : ℕ → Bool) (from to : ℕ) (r : Option ℕ)
    → u from ≡ true
    → FirstFree u (from + 1) to r
    → FirstFree u from to r
extend u from to none h f = extend_below u from to h f
extend u from to (some k) h f = (omega arith, f.1, f.2, extend_below u from k h f.3)

find_free-FirstFree :
    (bitmap : List ℕ) (rounds page_num to : ℕ)
    → to ≡ page_num + rounds
    → FirstFree (bitmap_test bitmap) page_num to (find_free bitmap rounds page_num)
unfolding find_free
find_free-FirstFree bitmap zero page_num to e = λ i le lt. absurd (omega arith)
find_free-FirstFree bitmap (suc rounds) page_num to e =
    elim (Bool-cases (bitmap_test bitmap page_num)) [
      | inl h ↦ rw h (
          extend (bitmap_test bitmap) page_num to (find_free bitmap rounds (page_num + 1)) h
            (find_free-FirstFree bitmap rounds (page_num + 1) to (omega arith)))
      | inr h ↦ rw h (omega arith, omega arith, h, λ i le lt. absurd (omega arith))
    ]

-- Taking one page that is free: the state that both allocators pass through.
abbrev pub take_page : Pmm → ℕ → Pmm
take_page p k = record p {
  free_pages = dec64 p.free_pages;
  page_bitmap = bitmap_set p.page_bitmap k;
}

module _ (p : Pmm) (k : ℕ) (v : IsValid p) (inside : k < p.total_pages)
    (free : used p k ≡ false) where
  pub used-take_page : (i : ℕ) → used (take_page p k) i ≡ (if k == i then true else used p i)
  used-take_page = bitmap_test-bitmap_set p.page_bitmap k v.bytes (omega (arith, v.small, v.size))

  pub free_pages-take_page : (take_page p k).free_pages + 1 ≡ p.free_pages
  free_pages-take_page = omega (
    arith,
    v.counted,
    v.fits,
    count_free-le (used p) p.total_pages,
    count_free_take (used p) (used (take_page p k)) p.total_pages k inside free used-take_page,
  )

  pub take_page-IsValid : IsValid (take_page p k)
  take_page-IsValid = record {
    bytes = bitmap_set-AllBytes p.page_bitmap k v.bytes;
    size = length-bitmap_set p.page_bitmap k ∙ v.size;
    small = v.small;
    counted = omega (
      arith,
      free_pages-take_page,
      v.counted,
      count_free_take (used p) (used (take_page p k)) p.total_pages k inside free used-take_page,
    );
    aligned = v.aligned;
    nonzero = v.nonzero;
    fits = v.fits;
  }

-- No address wraps, and none is 0.
pub page_address_lem :
    (p : Pmm) (k : ℕ)
    → IsValid p
    → k < p.total_pages
    → page_address p k ≡ p.memory_start + k * page_size
page_address_lem p k v h = ground (arith, v.fits)

-- What an allocation of one page has done.
pub record Took (p : Pmm) (k : ℕ) (r : ℕ × Pmm) : Type 0 where
  pub inside : k < p.total_pages
  pub was_free : used p k ≡ false
  pub least : (i : ℕ) → i < k → used p i ≡ true
  pub address : r.0 ≡ p.memory_start + k * page_size
  pub marked : (i : ℕ) → used r.1 i ≡ (if k == i then true else used p i)
  pub count : r.1.free_pages + 1 ≡ p.free_pages
  pub valid : IsValid r.1
  pub state : r.1 ≡ take_page p k

-- `pmm_alloc_page` on a valid allocator: when every page is allocated it returns 0 and changes
-- nothing; otherwise it takes the lowest free page, returns that page's address, marks that page
-- and no other, counts it, and keeps the invariant.
pub alloc_page-first_fit :
    (p : Pmm)
    → IsValid p
    → (((i : ℕ) → i < p.total_pages → used p i ≡ true) × (alloc_page p ≡ (0, p)))
      ⊎ ((k : ℕ) × Took p k (alloc_page p))
unfolding alloc_page
alloc_page-first_fit p v =
    cases (find_free p.page_bitmap p.total_pages 0) refl
      (find_free-FirstFree p.page_bitmap p.total_pages 0 p.total_pages (omega arith))
  where
    cases :
        (r : Option ℕ)
        → find_free p.page_bitmap p.total_pages 0 ≡ r
        → FirstFree (used p) 0 p.total_pages r
        → (((i : ℕ) → i < p.total_pages → used p i ≡ true) × (alloc_page p ≡ (0, p)))
          ⊎ ((k : ℕ) × Took p k (alloc_page p))
    cases none e f = inl (λ i lt. f i (omega arith) lt, rw (e, alloc_page))
    cases (some k) e (a, b, c, f) = inr (
      k,
      rw (e, alloc_page)
          (record {
            inside = b;
            was_free = c;
            least = λ i lt. f i (omega arith) lt;
            address = page_address_lem p k v b;
            marked = used-take_page p k v b c;
            count = free_pages-take_page p k v b c;
            valid = take_page-IsValid p k v b c;
            state = refl;
          }),
    )
