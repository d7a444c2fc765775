-- ===== src/Pmm/Runs.antt =====
-- `pmm_alloc_pages`: the search for a run of free pages, and what taking it changes.
use thunderos.Prelude.{
  ℕ, zero, suc, ◌+◌, ◌-◌, ◌*◌, ◌≤◌, ◌<◌, ◌≡◌, refl, List, Bool, true, false, ltb, leb, ◌&&◌,
  if◌then◌else◌, arith, Option, none, some, ◌⊎◌, inl, inr, Bool-cases, ℕ_discrete, dec_lt,
}
use thunderos.Pmm.{
  Pmm, bitmap_test, page_size, page_address, all_free, find_run, take_run, alloc_pages,
}
use thunderos.Pmm.Invariant.{used, IsValid}
use thunderos.Pmm.Alloc.{
  take_page, used-take_page, free_pages-take_page, take_page-IsValid, page_address_lem,
}

-- Every page of a run is free; some page of it is not.
abbrev pub RunFree : (ℕ → Bool) → ℕ → ℕ → Type 0
RunFree u start n = (i : ℕ) → start ≤ i → i < start + n → u i ≡ false

abbrev pub RunBusy : (ℕ → Bool) → ℕ → ℕ → Type 0
RunBusy u start n = (i : ℕ) × (start ≤ i) × (i < start + n) × (u i ≡ true)

all_free-RunFree :
    (bitmap : List ℕ) (n start : ℕ)
    → all_free bitmap n start ≡ true
    → RunFree (bitmap_test bitmap) start n
unfolding all_free
all_free-RunFree bitmap zero start h i le lt = absurd (omega arith)
all_free-RunFree bitmap (suc n) start h i le lt = elim (ℕ_discrete i start) [
  | yes e ↦ rw e (ground arith)
  | no ne ↦ all_free-RunFree bitmap n (start + 1) (ground arith) i (omega arith) (omega arith)
]

all_free-RunBusy :
    (bitmap : List ℕ) (n start : ℕ)
    → all_free bitmap n start ≡ false
    → RunBusy (bitmap_test bitmap) start n
unfolding all_free
all_free-RunBusy bitmap zero start h = cc
all_free-RunBusy bitmap (suc n) start h = elim (Bool-cases (bitmap_test bitmap start)) [
  | inl busy ↦ (start, omega arith, omega arith, busy)
  | inr free ↦
      let (i, a, b, c) = all_free-RunBusy bitmap n (start + 1) (ground arith) in
      (i, omega arith, omega arith, c)
]

-- The outcome of the search over the starts from `from` up to, not including, `to`.
abbrev FirstRun : (ℕ → Bool) → ℕ → ℕ → ℕ → Option ℕ → Type 0
FirstRun u n from to none = (s : ℕ) → from ≤ s → s < to → RunBusy u s n
FirstRun u n from to (some k) =
    (from ≤ k) × (k < to) × RunFree u k n × ((s : ℕ) → from ≤ s → s < k → RunBusy u s n)

extend_runs :
    (u : ℕ → Bool) (n from k : ℕ)
    → RunBusy u from n
    → ((s : ℕ) → from + 1 ≤ s → s < k → RunBusy u s n)
    → (s : ℕ) → from ≤ s
    → s < k
    → RunBusy u s n
extend_runs u n from k h f s le lt = elim (ℕ_discrete s from) [
  | yes e ↦ rw e h
  | no ne ↦ f s (omega arith) lt
]

extend :
    (u : ℕ → Bool) (n from to : ℕ) (r : Option ℕ)
    → RunBusy u from n
    → FirstRun u n (from + 1) to r
    → FirstRun u n from to r
extend u n from to none h f = extend_runs u n from to h f
extend u n from to (some k) h f = (omega arith, f.1, f.2, extend_runs u n from k h f.3)

find_run-FirstRun :
    (bitmap : List ℕ) (n rounds start to : ℕ)
    → to ≡ start + rounds
    → FirstRun (bitmap_test bitmap) n start to (find_run bitmap n rounds start)
unfolding find_run
find_run-FirstRun bitmap n zero start to e = λ s le lt. absurd (omega arith)
find_run-FirstRun bitmap n (suc rounds) start to e = elim (Bool-cases (all_free bitmap n start)) [
  | inl h ↦
      rw h (
        omega arith,
        omega arith,
        all_free-RunFree bitmap n start h,
        λ s le lt. absurd (omega arith),
      )
  | inr h ↦ rw h (
      extend (bitmap_test bitmap) n start to (find_run bitmap n rounds (start + 1))
        (all_free-RunBusy bitmap n start h)
        (find_run-FirstRun bitmap n rounds (start + 1) to (omega arith)))
]

-- What taking the `n` pages from `start` on has done.
pub record TookRun (p : Pmm) (start n : ℕ) (q : Pmm) : Type 0 where
  pub marked : (i : ℕ) → used q i ≡ (if leb start i && ltb i (start + n) then true else used p i)
  pub count : q.free_pages + n ≡ p.free_pages
  pub valid : IsValid q
  pub total : q.total_pages ≡ p.total_pages
  pub base : q.memory_start ≡ p.memory_start

TookRun-step :
    (p : Pmm) (n start : ℕ) (q : Pmm)
    → IsValid p
    → start + suc n ≤ p.total_pages
    → used p start ≡ false
    → TookRun (take_page p start) (start + 1) n q
    → TookRun p start (suc n) q
TookRun-step p n start q v h free t = record {
  marked = λ i. ground (arith, t.marked i, used-take_page p start v (omega arith) free i);
  count = omega (arith, t.count, free_pages-take_page p start v (omega arith) free);
  valid = t.valid;
  total = t.total;
  base = t.base;
}

take_run-TookRun :
    (p : Pmm) (n start : ℕ)
    → IsValid p
    → start + n ≤ p.total_pages
    → RunFree (used p) start n
    → TookRun p start n (take_run p n start)
unfolding take_run
take_run-TookRun p zero start v h f = record {
  marked = λ i. ground arith;
  count = omega arith;
  valid = v;
  total = refl;
  base = refl;
}
take_run-TookRun p (suc n) start v h f =
    let free = f start (omega arith) (omega arith) in
    TookRun-step p n start (take_run (take_page p start) n (start + 1)) v h free (
      take_run-TookRun (take_page p start) n (start + 1)
        (take_page-IsValid p start v (omega arith) free) (omega arith)
        (λ i le lt.
          ground (
            arith,
            used-take_page p start v (omega arith) free i,
            f i (omega arith) (omega arith),
          )))

-- A request for a run of more than one page.
pub record TookLowest (p : Pmm) (start n : ℕ) (r : ℕ × Pmm) : Type 0 where
  pub inside : start + n ≤ p.total_pages
  pub was_free : RunFree (used p) start n
  pub lowest : (s : ℕ) → s < start → RunBusy (used p) s n
  pub address : r.0 ≡ p.memory_start + start * page_size
  pub took : TookRun p start n r.1

module _ (p : Pmm) (n : ℕ) (v : IsValid p) (more : 1 < n) where
  too_many : p.total_pages < n → alloc_pages p n ≡ (0, p)
  unfolding alloc_pages
  too_many h = ground arith

  searched :
      n ≤ p.total_pages
      → alloc_pages p n ≡ (elim (find_run p.page_bitmap n (p.total_pages - n + 1) 0) [
        | none ↦ (0, p)
        | some start ↦ (page_address p start, take_run p n start)
      ])
  unfolding alloc_pages
  searched h = ground arith

  -- `pmm_alloc_pages` for more than one page, on a valid allocator: when no run of that many
  -- pages is free it returns 0 and changes nothing; otherwise it takes the lowest free run, returns
  -- the address of its first page, marks the pages of the run and no other, counts them, and keeps
  -- the invariant.
  pub alloc_pages-first_fit :
      ((alloc_pages p n ≡ (0, p)) × ((s : ℕ) → s + n ≤ p.total_pages → RunBusy (used p) s n))
      ⊎ ((start : ℕ) × TookLowest p start n (alloc_pages p n))
  alloc_pages-first_fit = elim (dec_lt p.total_pages n) [
    | yes h ↦ inl (too_many h, λ s le. absurd (omega arith))
    | no h ↦ cases (omega arith) (find_run p.page_bitmap n (p.total_pages - n + 1) 0) refl (
        find_run-FirstRun p.page_bitmap n (p.total_pages - n + 1) 0 (p.total_pages - n + 1)
          (omega arith))
  ]
    where
      cases :
          n ≤ p.total_pages
          → (r : Option ℕ) → find_run p.page_bitmap n (p.total_pages - n + 1) 0 ≡ r
          → FirstRun (used p) n 0 (p.total_pages - n + 1) r
          → ((alloc_pages p n ≡ (0, p)) × ((s : ℕ) → s + n ≤ p.total_pages → RunBusy (used p) s n))
            ⊎ ((start : ℕ) × TookLowest p start n (alloc_pages p n))
      cases le none e f = inl (rw (searched le, e) refl, λ s h. f s (omega arith) (omega arith))
      cases le (some k) e (a, b, c, f) = inr (
        k,
        rw (searched le, e)
            (record {
              inside = omega arith;
              was_free = c;
              lowest = λ s lt. f s (omega arith) lt;
              address = page_address_lem p k v (omega arith);
              took = take_run-TookRun p n k v (omega arith) c;
            }),
      )
