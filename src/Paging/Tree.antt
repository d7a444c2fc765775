-- ===== src/Paging/Tree.antt =====
-- The tree of page tables below a root: every table in it stands in one place only, so that a write to
-- a table is seen by the addresses of that table alone. And what the tree says of an address.
use thunderos.Prelude.{
  ℕ, suc, ◌+◌, ◌*◌, ◌%◌, ◌^◌, ◌≤◌, ◌<◌, ◌≡◌, ◌⊎◌, inl, inr, ◌∙◌, refl, Option, none, some, true,
  false, if◌then◌else◌, Bool-cases, Option-cases,
}
use thunderos.Errno.{ok, err, efault}
use thunderos.Pmm.{page_size}
use thunderos.Pmm.Invariant.{used}
use thunderos.Pmm.Invariant
use thunderos.Paging.{
  Vm, vpn, is_valid, is_leaf, pte_to_pa, pt_entries, walk_page_table, virt_to_phys,
}
use thunderos.Paging.Entry.{child}

-- Where a table stands: the root, below the entry `i` of the root, below the entry `j` of that table,
-- or in no place.
pub data Place : Type 0 where
  top nowhere : Place
  mid : ℕ → Place
  low : ℕ → ℕ → Place

-- A page that the allocator will not hand out.
abbrev pub IsTaken : Vm → ℕ → Type 0
IsTaken vm a =
    (k : ℕ)
    → k < vm.pmm.total_pages
    → a ≡ vm.pmm.memory_start + k * page_size
    → used vm.pmm k ≡ true

pub record IsTree (vm : Vm) (root : ℕ) (place : ℕ → Place) : Type 0 where
  pub pages : Invariant.IsValid vm.pmm
  pub in_reach : vm.pmm.memory_start + vm.pmm.total_pages * page_size ≤ 2 ^ 56
  pub at_root : place root ≡ top
  pub below_root : (i a : ℕ) → i < pt_entries → child (vm.entry root i) ≡ some a → place a ≡ mid i
  pub below_mid :
      (t i j a : ℕ)
      → j < pt_entries
      → place t ≡ mid i
      → child (vm.entry t j) ≡ some a
      → place a ≡ low i j
  pub only_root : (a : ℕ) → place a ≡ top → a ≡ root
  pub taken : (a : ℕ) → IsTaken vm a ⊎ (place a ≡ nowhere)

-- The table of level 0 for an address, and its entry there, 0 without such a table.
abbrev pub table_at : Vm → ℕ → ℕ → Option ℕ
table_at vm root va = elim (child (vm.entry root (vpn 2 va))) [
  | none ↦ none
  | some t ↦ child (vm.entry t (vpn 1 va))
]

abbrev pub pte_at : Vm → ℕ → ℕ → ℕ
pte_at vm root va = elim (table_at vm root va) [ none ↦ 0 | some t ↦ vm.entry t (vpn 0 va) ]

module _ (vm : Vm) (root va : ℕ) where
  pub table_at-none : child (vm.entry root (vpn 2 va)) ≡ none → table_at vm root va ≡ none
  table_at-none e = rw (table_at, e) refl

  pub table_at-some :
      (t : ℕ)
      → child (vm.entry root (vpn 2 va)) ≡ some t
      → table_at vm root va ≡ child (vm.entry t (vpn 1 va))
  table_at-some t e = rw (table_at, e) refl

  pub pte_at-no_mid : child (vm.entry root (vpn 2 va)) ≡ none → pte_at vm root va ≡ 0
  pte_at-no_mid e = rw (pte_at, table_at, e) refl

  pub pte_at-no_low :
      (t : ℕ)
      → child (vm.entry root (vpn 2 va)) ≡ some t
      → child (vm.entry t (vpn 1 va)) ≡ none
      → pte_at vm root va ≡ 0
  pte_at-no_low t e f = rw (pte_at, table_at, e, f) refl

  pub pte_at-low :
      (t u : ℕ)
      → child (vm.entry root (vpn 2 va)) ≡ some t
      → child (vm.entry t (vpn 1 va)) ≡ some u
      → pte_at vm root va ≡ vm.entry u (vpn 0 va)
  pte_at-low t u e f = rw (pte_at, table_at, e, f) refl

  pub pte_at-no_table : table_at vm root va ≡ none → pte_at vm root va ≡ 0
  pte_at-no_table e = rw (pte_at, e) refl

  pub pte_at-table_at :
      (t : ℕ) → table_at vm root va ≡ some t → pte_at vm root va ≡ vm.entry t (vpn 0 va)
  pte_at-table_at t e = rw (pte_at, e) refl

-- The walk that creates nothing, level by level.
walk_step :
    (vm : Vm) (pt va l : ℕ)
    → (walk_page_table vm pt va false (suc l)).0 ≡ (elim (child (vm.entry pt (vpn (suc l) va))) [
      | none ↦ none
      | some t ↦ (walk_page_table vm t va false l).0
    ])
unfolding walk_page_table
walk_step vm pt va l = elim (Bool-cases (is_valid (vm.entry pt (vpn (suc l) va)))) [
  | inr h ↦ rw h refl
  | inl h ↦ elim (Bool-cases (is_leaf (vm.entry pt (vpn (suc l) va)))) [
    | inl g ↦ rw (h, g) refl
    | inr g ↦ rw (h, g) refl
  ]
]

walk_last :
    (vm : Vm) (pt va : ℕ) → (walk_page_table vm pt va false 1).0 ≡ child (vm.entry pt (vpn 1 va))
unfolding walk_page_table
walk_last vm pt va = walk_step vm pt va 0 ∙ elim (Option-cases (child (vm.entry pt (vpn 1 va)))) [
  | inl e ↦ rw e refl
  | inr (t, e) ↦ rw e refl
]

pub walk_page_table-table_at :
    (vm : Vm) (root va : ℕ) → (walk_page_table vm root va false 2).0 ≡ table_at vm root va
walk_page_table-table_at vm root va =
    walk_step vm root va 1 ∙ elim (Option-cases (child (vm.entry root (vpn 2 va)))) [
      | inl e ↦ rw (e, table_at) refl
      | inr (t, e) ↦ rw (e, table_at) (walk_last vm t va)
    ]

-- What the tree says of an address is what `virt_to_phys` answers.
pub virt_to_phys-pte_at :
    (vm : Vm) (root va : ℕ)
    → virt_to_phys vm root va ≡ (
        if is_valid (pte_at vm root va)
        then ok ((pte_to_pa (pte_at vm root va) + va % page_size) % 2 ^ 64)
        else err efault)
unfolding virt_to_phys
virt_to_phys-pte_at vm root va = elim (Option-cases (table_at vm root va)) [
  | inl e ↦ rw (virt_to_phys, walk_page_table-table_at vm root va, pte_at, e) refl
  | inr (t, e) ↦ rw (virt_to_phys, walk_page_table-table_at vm root va, pte_at, e) refl
]
