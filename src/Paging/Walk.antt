-- ===== src/Paging/Walk.antt =====
-- `walk_page_table` when it creates tables: where it ends, and what it leaves.
use thunderos.Prelude.{
  ℕ, suc, ◌≡◌, inl, inr, ◌∙◌, sym, refl, ap, subst, Option, none, some, true, false, Bool-cases,
}
use thunderos.Paging.{
  Vm, vpn, is_valid, is_leaf, pte_to_pa, pa_to_pte, pte_v, set_entry, alloc_page_table,
  walk_page_table,
}
use thunderos.Paging.Entry.{child}
use thunderos.Paging.Tree.{Place, mid, low, IsTree, table_at, pte_at}
use thunderos.Paging.Fresh.{IsFull, alloc_page_table-Fresh}
use thunderos.Paging.Link.{Link, from_top, from_mid, linked, placed, at_link, linked-IsTree}
use thunderos.Paging.Grow.{vpn-lt, root_kept, pte_at-linked_top, pte_at-linked_mid}

-- Why there is no table for an address: no page is free, or a leaf is in the way in the root or in the
-- table below it.
pub data Blocked (vm : Vm) (root va : ℕ) : Type 0 where
  no_page : IsFull vm → Blocked vm root va
  leaf_in_root :
      is_valid (vm.entry root (vpn 2 va)) ≡ true
      → is_leaf (vm.entry root (vpn 2 va)) ≡ true
      → Blocked vm root va
  leaf_below :
      (p : ℕ)
      → child (vm.entry root (vpn 2 va)) ≡ some p
      → is_valid (vm.entry p (vpn 1 va)) ≡ true
      → is_leaf (vm.entry p (vpn 1 va)) ≡ true
      → Blocked vm root va

-- What a walk leaves: a tree that says the same of every address, and the table that it found; NULL
-- where a leaf was in the way or there was no page for a table.
pub data Walked (vm : Vm) (root va : ℕ) (r : Option ℕ × Vm) : Type 0 where
  stuck :
      (place : ℕ → Place)
      → Blocked r.1 root va
      → r.0 ≡ none
      → IsTree r.1 root place
      → ((v : ℕ) → pte_at r.1 root v ≡ pte_at vm root v)
      → Walked vm root va r
  arrived :
      (place : ℕ → Place) (t : ℕ)
      → r.0 ≡ some t
      → IsTree r.1 root place
      → table_at r.1 root va ≡ some t
      → ((v : ℕ) → pte_at r.1 root v ≡ pte_at vm root v)
      → Walked vm root va r

-- The four ways of one round of the loop.
module _ (vm : Vm) (pt va l : ℕ) where
  walk-leaf :
      is_valid (vm.entry pt (vpn (suc l) va)) ≡ true
      → is_leaf (vm.entry pt (vpn (suc l) va)) ≡ true
      → walk_page_table vm pt va true (suc l) ≡ (none, vm)
  unfolding walk_page_table
  walk-leaf v f = rw (v, f) refl

  walk-inner :
      is_valid (vm.entry pt (vpn (suc l) va)) ≡ true
      → is_leaf (vm.entry pt (vpn (suc l) va)) ≡ false
      → walk_page_table vm pt va true (suc l)
        ≡ walk_page_table vm (pte_to_pa (vm.entry pt (vpn (suc l) va))) va true l
  unfolding walk_page_table
  walk-inner v f = rw (v, f) refl

  walk-no_page :
      is_valid (vm.entry pt (vpn (suc l) va)) ≡ false
      → alloc_page_table vm ≡ (none, vm)
      → walk_page_table vm pt va true (suc l) ≡ (none, vm)
  unfolding walk_page_table
  walk-no_page v f = rw (v, ap (λ r. r.0) f) (ap (λ r. (none, r.1)) f)

  walk-new :
      (n : ℕ) (vm' : Vm)
      → is_valid (vm.entry pt (vpn (suc l) va)) ≡ false
      → alloc_page_table vm ≡ (some n, vm')
      → walk_page_table vm pt va true (suc l)
        ≡ walk_page_table
            (record vm' { entry = set_entry vm'.entry pt (vpn (suc l) va) (pa_to_pte n pte_v) })
            n
            va
            true
            l
  unfolding walk_page_table
  walk-new n vm' v f =
      rw (v, ap (λ r. r.0) f)
        (ap
          (λ (w : Vm).
            walk_page_table
              (record w { entry = set_entry w.entry pt (vpn (suc l) va) (pa_to_pte n pte_v) }) n va
              true l)
          (ap (λ r. r.1) f))

child-inner :
    (pte : ℕ) → is_valid pte ≡ true → is_leaf pte ≡ false → child pte ≡ some (pte_to_pa pte)
child-inner pte v f = rw (v, f) refl

child-invalid : (pte : ℕ) → is_valid pte ≡ false → child pte ≡ none
child-invalid pte v = rw v refl

-- At level 0 the walk is over.
walk-end : (vm : Vm) (t va : ℕ) → walk_page_table vm t va true 0 ≡ (some t, vm)
unfolding walk_page_table
walk-end vm t va = refl

table_at-low :
    (vm : Vm) (root va p t : ℕ)
    → child (vm.entry root (vpn 2 va)) ≡ some p
    → child (vm.entry p (vpn 1 va)) ≡ some t
    → table_at vm root va ≡ some t
table_at-low vm root va p t e f = rw (table_at, e, f) refl

-- A walk in a larger tree that says the same.
Walked-grown :
    (vm grown : Vm) (root va : ℕ) {r : Option ℕ × Vm}
    → ((v : ℕ) → pte_at grown root v ≡ pte_at vm root v)
    → Walked grown root va r
    → Walked vm root va r
Walked-grown vm grown root va same (stuck place b e tree s) =
    stuck place b e tree (λ v. s v ∙ same v)
Walked-grown vm grown root va same (arrived place t e tree h s) =
    arrived place t e tree h (λ v. s v ∙ same v)

-- The last round, from a table of level 1.
walk_mid :
    (vm : Vm) (root : ℕ) (place : ℕ → Place) (p va : ℕ)
    → IsTree vm root place
    → child (vm.entry root (vpn 2 va)) ≡ some p
    → Walked vm root va (walk_page_table vm p va true 1)
walk_mid vm root place p va tree e = elim (Bool-cases (is_valid (vm.entry p (vpn 1 va)))) [
  | inl valid ↦ elim (Bool-cases (is_leaf (vm.entry p (vpn 1 va)))) [
    | inl leaf ↦
        rw (walk-leaf vm p va 0 valid leaf)
          (stuck place (leaf_below p e valid leaf) refl tree (λ v. refl))
    | inr inner ↦
        let t = pte_to_pa (vm.entry p (vpn 1 va)) in
        rw (walk-inner vm p va 0 valid inner ∙ walk-end vm t va) (
          arrived place t refl tree
            (table_at-low vm root va p t e (child-inner (vm.entry p (vpn 1 va)) valid inner))
            (λ v. refl))
  ]
  | inr invalid ↦ elim (alloc_page_table-Fresh vm root place tree) [
    | inl (full, f) ↦
        rw (walk-no_page vm p va 0 invalid f) (stuck place (no_page full) refl tree (λ v. refl))
    | inr (n, vm', f, fresh) ↦
        let h = vpn 2 va in
        let i = vpn 1 va in
        let link : Link i (place p) (low h i) =
          subst (λ q. Link i q (low h i)) (sym (tree.below_root h p (vpn-lt 2 va) e)) from_mid in
        let grown = linked vm root place n vm' tree fresh p i (vpn-lt 1 va) (low h i) link in
        rw (walk-new vm p va 0 n vm' invalid f ∙ walk-end grown n va) (
          arrived (placed vm root place n vm' tree fresh p i (vpn-lt 1 va) (low h i) link) n refl
            (linked-IsTree vm root place n vm' tree fresh p i (vpn-lt 1 va) (low h i) link)
            (table_at-low grown root va p n
              (ap child (
                  root_kept vm root place n vm' tree fresh p i (vpn-lt 1 va) (low h i) link va h h
                    (tree.below_root h p (vpn-lt 2 va) e))
                ∙ e)
              (at_link vm root place n vm' tree fresh p i (vpn-lt 1 va) (low h i) link))
            (λ v.
              pte_at-linked_mid vm root place n vm' tree fresh p i (vpn-lt 1 va) (low h i) link v h
                (vpn-lt 2 va) e (child-invalid (vm.entry p i) invalid)))
  ]
]

-- From the root.
pub walk_page_table-Walked :
    (vm : Vm) (root : ℕ) (place : ℕ → Place) (va : ℕ)
    → IsTree vm root place
    → Walked vm root va (walk_page_table vm root va true 2)
walk_page_table-Walked vm root place va tree =
    elim (Bool-cases (is_valid (vm.entry root (vpn 2 va)))) [
      | inl valid ↦ elim (Bool-cases (is_leaf (vm.entry root (vpn 2 va)))) [
        | inl leaf ↦
            rw (walk-leaf vm root va 1 valid leaf)
              (stuck place (leaf_in_root valid leaf) refl tree (λ v. refl))
        | inr inner ↦ rw (walk-inner vm root va 1 valid inner) (
            walk_mid vm root place (pte_to_pa (vm.entry root (vpn 2 va))) va tree
              (child-inner (vm.entry root (vpn 2 va)) valid inner))
      ]
      | inr invalid ↦ elim (alloc_page_table-Fresh vm root place tree) [
        | inl (full, f) ↦
            rw (walk-no_page vm root va 1 invalid f)
              (stuck place (no_page full) refl tree (λ v. refl))
        | inr (n, vm', f, fresh) ↦
            let i = vpn 2 va in
            let link : Link i (place root) (mid i) =
              subst (λ q. Link i q (mid i)) (sym tree.at_root) from_top in
            let grown = linked vm root place n vm' tree fresh root i (vpn-lt 2 va) (mid i) link in
            rw (walk-new vm root va 1 n vm' invalid f) (
              Walked-grown vm grown root va
                (λ v.
                  pte_at-linked_top vm root place n vm' tree fresh root i (vpn-lt 2 va) (mid i) link
                    v refl (child-invalid (vm.entry root i) invalid))
                (walk_mid grown root _ n va
                  (linked-IsTree vm root place n vm' tree fresh root i (vpn-lt 2 va) (mid i) link)
                  (at_link vm root place n vm' tree fresh root i (vpn-lt 2 va) (mid i) link)))
      ]
    ]
