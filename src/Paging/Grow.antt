-- ===== src/Paging/Grow.antt =====
-- A table that is linked into the tree: the larger tree says the same of every address.
use thunderos.Prelude.{
  ℕ, ◌<◌, ◌≡◌, ◌≢◌, ◌⊎◌, inl, inr, ◌∙◌, sym, ap, ap₂, none, some, ℕ_discrete, arith,
}
use thunderos.Paging.{Vm, vpn, pt_entries}
use thunderos.Paging.Entry.{child}
use thunderos.Paging.Tree.{
  Place, nowhere, mid, low, IsTree, pte_at, pte_at-no_mid, pte_at-no_low, pte_at-low,
}
use thunderos.Paging.Fresh.{Fresh, pte_at-same}
use thunderos.Paging.Link.{
  Link, linked, elsewhere, at_link, in_new, mid_top, low_top, low_mid, mid_nowhere, low_nowhere,
  top_nowhere,
}

pub vpn-lt : (l va : ℕ) → vpn l va < pt_entries
vpn-lt l va = omega arith

module _ (vm : Vm) (root : ℕ) (place : ℕ → Place) (tree : IsTree vm root place) (va : ℕ) where
  pub mid_at : (t : ℕ) → child (vm.entry root (vpn 2 va)) ≡ some t → place t ≡ mid (vpn 2 va)
  mid_at t e = tree.below_root (vpn 2 va) t (vpn-lt 2 va) e

  pub low_at :
      (t u : ℕ)
      → child (vm.entry root (vpn 2 va)) ≡ some t
      → child (vm.entry t (vpn 1 va)) ≡ some u
      → place u ≡ low (vpn 2 va) (vpn 1 va)
  low_at t u e f = tree.below_mid t (vpn 2 va) (vpn 1 va) u (vpn-lt 1 va) (mid_at t e) f

-- A table linked below the table `p`.
module _ (vm : Vm) (root : ℕ) (place : ℕ → Place) (n : ℕ) (vm' : Vm) (tree : IsTree vm root place)
    (fresh : Fresh vm place n vm') (p i : ℕ) (ib : i < pt_entries) (q : Place)
    (link : Link i (place p) q) (va : ℕ) where
  abbrev grown : Vm
  grown = linked vm root place n vm' tree fresh p i ib q link

  away : (a j : ℕ) → place a ≢ nowhere → (a ≢ p) ⊎ (j ≢ i) → grown.entry a j ≡ vm.entry a j
  away = elsewhere vm root place n vm' tree fresh p i ib q link

  root_away : (j : ℕ) → (root ≢ p) ⊎ (j ≢ i) → grown.entry root j ≡ vm.entry root j
  root_away j d = away root j (λ e. top_nowhere (sym tree.at_root ∙ e)) d

  pub root_kept : (h j : ℕ) → place p ≡ mid h → grown.entry root j ≡ vm.entry root j
  root_kept h j e = root_away j (inl (λ w. mid_top (sym e ∙ sym (ap place w) ∙ tree.at_root)))

  -- Nothing changes for an address whose way does not lead through the new entry.
  pte_at-grown :
      (root ≢ p) ⊎ (vpn 2 va ≢ i)
      → ((t : ℕ) → place t ≡ mid (vpn 2 va) → (t ≢ p) ⊎ (vpn 1 va ≢ i))
      → ((u : ℕ) → place u ≡ low (vpn 2 va) (vpn 1 va) → u ≢ p)
      → pte_at grown root va ≡ pte_at vm root va
  pte_at-grown d2 d1 d0 =
      pte_at-same vm grown root va (root_away (vpn 2 va) d2)
        (λ t e.
          let m = mid_at vm root place tree va t e in
          away t (vpn 1 va) (λ w. mid_nowhere (sym m ∙ w)) (d1 t m))
        (λ t u e f.
          let l = low_at vm root place tree va t u e f in
          away u (vpn 0 va) (λ w. low_nowhere (sym l ∙ w)) (inl (d0 u l)))

  new_empty : (j : ℕ) → j < pt_entries → child (grown.entry n j) ≡ none
  new_empty j lt = ap child (in_new vm root place n vm' tree fresh p i ib q link j lt)

  link_child : child (grown.entry p i) ≡ some n
  link_child = at_link vm root place n vm' tree fresh p i ib q link

  -- Below the root.
  pub pte_at-linked_top :
      p ≡ root → child (vm.entry root i) ≡ none → pte_at grown root va ≡ pte_at vm root va
  pte_at-linked_top e empty = elim (ℕ_discrete (vpn 2 va) i) [
    | yes here ↦
        pte_at-no_low grown root va n
          (ap₂ (λ a j. child (grown.entry a j)) (sym e) here ∙ link_child)
          (new_empty (vpn 1 va) (vpn-lt 1 va))
        ∙ sym (pte_at-no_mid vm root va (ap (λ j. child (vm.entry root j)) here ∙ empty))
    | no away ↦
        pte_at-grown (inr away)
          (λ t m. inl (λ w. mid_top (sym m ∙ ap place (w ∙ e) ∙ tree.at_root)))
          (λ u l w. low_top (sym l ∙ ap place (w ∙ e) ∙ tree.at_root))
  ]

  -- Below a table of level 1.
  pub pte_at-linked_mid :
      (h : ℕ)
      → h < pt_entries
      → child (vm.entry root h) ≡ some p
      → child (vm.entry p i) ≡ none
      → pte_at grown root va ≡ pte_at vm root va
  pte_at-linked_mid h hb e empty = elim (ℕ_discrete (vpn 2 va) h) [
    | yes top_here ↦ elim (ℕ_discrete (vpn 1 va) i) [
      | yes here ↦
          pte_at-low grown root va p n
            (ap child (root_away (vpn 2 va) (inl apart))
              ∙ ap (λ j. child (vm.entry root j)) top_here
              ∙ e)
            (ap (λ j. child (grown.entry p j)) here ∙ link_child)
          ∙ in_new vm root place n vm' tree fresh p i ib q link (vpn 0 va) (vpn-lt 0 va)
          ∙ sym (
              pte_at-no_low vm root va p (ap (λ j. child (vm.entry root j)) top_here ∙ e)
                (ap (λ j. child (vm.entry p j)) here ∙ empty))
      | no ne ↦ pte_at-grown (inl apart) (λ t m. inr ne) below
    ]
    | no ne ↦ pte_at-grown (inl apart) (λ t m. inl (λ w. ne (same_mid t m w))) below
  ]
    where
      at_p : place p ≡ mid h
      at_p = tree.below_root h p hb e

      apart : root ≢ p
      apart w = mid_top (sym at_p ∙ sym (ap place w) ∙ tree.at_root)

      same_mid : (t : ℕ) → place t ≡ mid (vpn 2 va) → t ≡ p → vpn 2 va ≡ h
      same_mid t m w = ground (arith, sym m ∙ ap place w ∙ at_p)

      below : (u : ℕ) → place u ≡ low (vpn 2 va) (vpn 1 va) → u ≢ p
      below u l w = low_mid (sym l ∙ ap place w ∙ at_p)
