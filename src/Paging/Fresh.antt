-- ===== src/Paging/Fresh.antt =====
-- `walk_page_table` when it creates tables: the tree grows, and says the same of every address.
use thunderos.Prelude.{
  ℕ, ◌+◌, ◌*◌, ◌^◌, ◌≤◌, ◌<◌, ◌≡◌, ◌⊎◌, inl, inr, refl, ap, none, some, true, false, ◌==◌,
  Option-cases, arith,
}
use thunderos.Pmm.{Pmm, alloc_page, page_size}
use thunderos.Pmm.Invariant.{used}
use thunderos.Pmm.Invariant
use thunderos.Pmm.Alloc.{Took, alloc_page-first_fit}
use thunderos.Paging.{Vm, vpn, clear_table, alloc_page_table}
use thunderos.Paging.Entry.{child, IsPage}
use thunderos.Paging.Tree.{Place, nowhere, IsTaken, IsTree, table_at, pte_at}

-- What the tree says of an address stays if the entries on its way do.
pub pte_at-same :
    (vm vm' : Vm) (root va : ℕ)
    → vm'.entry root (vpn 2 va) ≡ vm.entry root (vpn 2 va)
    → ((t : ℕ)
        → child (vm.entry root (vpn 2 va)) ≡ some t
        → vm'.entry t (vpn 1 va) ≡ vm.entry t (vpn 1 va))
    → ((t u : ℕ)
        → child (vm.entry root (vpn 2 va)) ≡ some t
        → child (vm.entry t (vpn 1 va)) ≡ some u
        → vm'.entry u (vpn 0 va) ≡ vm.entry u (vpn 0 va))
    → pte_at vm' root va ≡ pte_at vm root va
pte_at-same vm vm' root va h2 h1 h0 = elim (Option-cases (child (vm.entry root (vpn 2 va)))) [
  | inl e ↦ rw (pte_at, table_at, h2, e) refl
  | inr (t, e) ↦ elim (Option-cases (child (vm.entry t (vpn 1 va)))) [
    | inl f ↦ rw (pte_at, table_at, h2, e, h1 t e, f) refl
    | inr (u, f) ↦ rw (pte_at, table_at, h2, e, h1 t e, f) (h0 t u e f)
  ]
]

-- A new table: a page that stood nowhere, with zeros.
pub record Fresh (vm : Vm) (place : ℕ → Place) (n : ℕ) (vm' : Vm) : Type 0 where
  pub was_nowhere : place n ≡ nowhere
  pub page : IsPage n
  pub cleared : vm'.entry ≡ clear_table vm.entry n
  pub pages : Invariant.IsValid vm'.pmm
  pub in_reach : vm'.pmm.memory_start + vm'.pmm.total_pages * page_size ≤ 2 ^ 56
  pub keeps : (a : ℕ) → IsTaken vm a → IsTaken vm' a
  pub now_taken : IsTaken vm' n

module _ (vm : Vm) (root : ℕ) (place : ℕ → Place) (k : ℕ) (tree : IsTree vm root place)
    (took : Took vm.pmm k (alloc_page vm.pmm)) where
  same_start : (alloc_page vm.pmm).1.memory_start ≡ vm.pmm.memory_start
  same_start = ap (λ (p : Pmm). p.memory_start) took.state

  same_total : (alloc_page vm.pmm).1.total_pages ≡ vm.pmm.total_pages
  same_total = ap (λ (p : Pmm). p.total_pages) took.state

  marked_or : (j : ℕ) → (k ≡ j) ⊎ (used vm.pmm j ≡ true) → used (alloc_page vm.pmm).1 j ≡ true
  marked_or j (inl e) = ground (arith, took.marked j)
  marked_or j (inr e) = ground (arith, took.marked j)

  Took-Fresh :
      Fresh vm place
        (alloc_page vm.pmm).0
        (record { pmm = (alloc_page vm.pmm).1; entry = clear_table vm.entry (alloc_page vm.pmm).0 })
  Took-Fresh = record {
    was_nowhere = elim (tree.taken (alloc_page vm.pmm).0) [
      | inr e ↦ e
      | inl t ↦ cc (t k took.inside took.address, took.was_free)
    ];
    page = omega (arith, took.address, took.inside, tree.pages.aligned, tree.in_reach);
    cleared = refl;
    pages = took.valid;
    in_reach = omega (arith, same_start, same_total, tree.in_reach);
    keeps = λ a h j lt e.
        marked_or j (inr (h j (omega (arith, lt, same_total)) (omega (arith, e, same_start))));
    now_taken = λ j lt e. marked_or j (inl (omega (arith, e, same_start, took.address)));
  }

-- Every page of the allocator is in use.
abbrev pub IsFull : Vm → Type 0
IsFull vm = (i : ℕ) → i < vm.pmm.total_pages → used vm.pmm i ≡ true

-- `alloc_page_table` gives a fresh table, or has no page for it and changes nothing.
pub alloc_page_table-Fresh :
    (vm : Vm) (root : ℕ) (place : ℕ → Place)
    → IsTree vm root place
    → (IsFull vm × (alloc_page_table vm ≡ (none, vm)))
      ⊎ ((n : ℕ) × (vm' : Vm) × (alloc_page_table vm ≡ (some n, vm')) × Fresh vm place n vm')
unfolding alloc_page_table
alloc_page_table-Fresh vm root place tree = elim (alloc_page-first_fit vm.pmm tree.pages) [
  | inl (full, e) ↦ inl (full, rw e refl)
  | inr (k, took) ↦ inr (
    (alloc_page vm.pmm).0,
    record { pmm = (alloc_page vm.pmm).1; entry = clear_table vm.entry (alloc_page vm.pmm).0 },
    (let nz : (alloc_page vm.pmm).0 == 0 ≡ false =
          ground (arith, took.address, tree.pages.nonzero) in
        rw nz refl),
    Took-Fresh vm root place k tree took,
  )
]
