-- ===== src/Paging/Write.antt =====
-- A write to an entry of a table of level 0: what it does to the tree and to what the tree says.
use thunderos.Prelude.{
  ℕ, ◌/◌, ◌%◌, ◌^◌, ◌≡◌, ◌≢◌, ◌⊎◌, inl, inr, ◌∙◌, sym, ap, Option, none, some, Bool, true, false,
  ◌==◌, if◌then◌else◌, Bool-cases, Option-cases, ℕ_discrete, arith,
}
use thunderos.Pmm.{page_size}
use thunderos.Paging.{Vm, vpn, set_entry}
use thunderos.Paging.Entry.{child}
use thunderos.Paging.Tree.{
  Place, mid, low, IsTree, table_at, pte_at, pte_at-low, table_at-none, table_at-some,
}
use thunderos.Paging.Fresh.{pte_at-same}
use thunderos.Paging.Link.{low_top, low_mid}
use thunderos.Paging.Grow.{mid_at, low_at}

-- Addresses in the same page, by the 27 bits of a page number that Sv39 reads.
abbrev pub same_page : ℕ → ℕ → Bool
same_page v va = v / page_size % 2 ^ 27 == va / page_size % 2 ^ 27

same_page-vpn :
    (v va : ℕ)
    → same_page v va ≡ true
    → (vpn 2 v ≡ vpn 2 va) × (vpn 1 v ≡ vpn 1 va) × (vpn 0 v ≡ vpn 0 va)
same_page-vpn v va h =
    let e : v / page_size % 2 ^ 27 ≡ va / page_size % 2 ^ 27 = ground arith in
    (omega (arith, e), omega (arith, e), omega (arith, e))

-- The table and the entry by the indices of an address.
abbrev table_by : Vm → ℕ → ℕ → ℕ → Option ℕ
table_by vm root i j = elim (child (vm.entry root i)) [
  | none ↦ none
  | some t ↦ child (vm.entry t j)
]

abbrev entry_by : Vm → ℕ → ℕ → ℕ → ℕ → ℕ
entry_by vm root i j k = elim (table_by vm root i j) [ none ↦ 0 | some t ↦ vm.entry t k ]

pub pte_at-same_page :
    (vm : Vm) (root v va : ℕ) → same_page v va ≡ true → pte_at vm root v ≡ pte_at vm root va
pte_at-same_page vm root v va h =
    let (s2, s1, s0) = same_page-vpn v va h in λ w. entry_by vm root (s2 w) (s1 w) (s0 w)

vpn_same_page :
    (v va : ℕ)
    → vpn 2 v ≡ vpn 2 va
    → vpn 1 v ≡ vpn 1 va
    → vpn 0 v ≡ vpn 0 va
    → v / page_size % 2 ^ 27 ≡ va / page_size % 2 ^ 27
vpn_same_page v va a b c = omega (arith, a, b, c)

-- The way to a table of level 0.
table_at-way :
    (vm : Vm) (root va t : ℕ)
    → table_at vm root va ≡ some t
    → (p : ℕ) × (child (vm.entry root (vpn 2 va)) ≡ some p)
      × (child (vm.entry p (vpn 1 va)) ≡ some t)
table_at-way vm root va t h = elim (Option-cases (child (vm.entry root (vpn 2 va)))) [
  | inl e ↦ cc (table_at-none vm root va e, h)
  | inr (p, e) ↦ (p, e, sym (table_at-some vm root va p e) ∙ h)
]

module _ (vm : Vm) (root : ℕ) (place : ℕ → Place) (tree : IsTree vm root place) (va t : ℕ)
    (at : table_at vm root va ≡ some t) (pte : ℕ) where
  abbrev pub written : Vm
  written = record vm { entry = set_entry vm.entry t (vpn 0 va) pte }

  stands : place t ≡ low (vpn 2 va) (vpn 1 va)
  stands = let (p, e, f) = table_at-way vm root va t at in low_at vm root place tree va p t e f

  not_root : root ≢ t
  not_root w = low_top (sym stands ∙ ap place (sym w) ∙ tree.at_root)

  not_mid : (a i : ℕ) → place a ≡ mid i → a ≢ t
  not_mid a i m w = low_mid (sym stands ∙ ap place (sym w) ∙ m)

  kept : (a j : ℕ) → (a ≢ t) ⊎ (j ≢ vpn 0 va) → written.entry a j ≡ vm.entry a j
  kept a j d = ground arith

  pub written-IsTree : IsTree written root place
  written-IsTree = record {
    pages = tree.pages;
    in_reach = tree.in_reach;
    at_root = tree.at_root;
    below_root =
        λ i a ib e. tree.below_root i a ib (ap child (sym (kept root i (inl not_root))) ∙ e);
    below_mid = λ a i j c jb m e.
        tree.below_mid a i j c jb m (ap child (sym (kept a j (inl (not_mid a i m)))) ∙ e);
    only_root = tree.only_root;
    taken = tree.taken;
  }

  in_page : (v : ℕ) → same_page v va ≡ true → pte_at written root v ≡ pte
  in_page v same =
      let (p, e, f) = table_at-way vm root va t at in
      let (s2, s1, s0) = same_page-vpn v va same in
      let m = mid_at vm root place tree va p e in
      pte_at-low written root v p t
        (ap child (kept root (vpn 2 v) (inl not_root)) ∙ ap (λ j. child (vm.entry root j)) s2 ∙ e)
        (ap child (kept p (vpn 1 v) (inl (not_mid p (vpn 2 va) m)))
          ∙ ap (λ j. child (vm.entry p j)) s1
          ∙ f)
      ∙ ap (written.entry t) s0
      ∙ at_entry
    where
      at_entry : written.entry t (vpn 0 va) ≡ pte
      at_entry = ground arith

  -- In another page that leads to the same table, the entry is another one.
  other_entry :
      (v u : ℕ)
      → same_page v va ≡ false
      → place u ≡ low (vpn 2 v) (vpn 1 v)
      → (u ≢ t) ⊎ (vpn 0 v ≢ vpn 0 va)
  other_entry v u other l = elim (ℕ_discrete u t) [
    | no w ↦ inl w
    | yes w ↦ inr (λ z. page_differs (sym l ∙ ap place w ∙ stands) z)
  ]
    where
      page_differs : low (vpn 2 v) (vpn 1 v) ≡ low (vpn 2 va) (vpn 1 va) → vpn 0 v ≢ vpn 0 va
      page_differs e z =
          let a : vpn 2 v ≡ vpn 2 va = cc in
          let b : vpn 1 v ≡ vpn 1 va = cc in absurd (ground (arith, vpn_same_page v va a b z))

  -- The addresses of the page get the new entry, all others keep theirs.
  pub pte_at-written :
      (v : ℕ) → pte_at written root v ≡ (if same_page v va then pte else pte_at vm root v)
  pte_at-written v = elim (Bool-cases (same_page v va)) [
    | inl same ↦ rw same (in_page v same)
    | inr other ↦ rw other (
        pte_at-same vm written root v (kept root (vpn 2 v) (inl not_root))
          (λ a e. kept a (vpn 1 v) (inl (not_mid a (vpn 2 v) (mid_at vm root place tree v a e))))
          (λ a u e f.
            kept u (vpn 0 v) (other_entry v u other (low_at vm root place tree v a u e f))))
  ]
