-- ===== src/Paging/Link.antt =====
-- A fresh table is linked below a table of the tree: the tree with it says the same of every address.
use thunderos.Prelude.{
  ℕ, ◌<◌, ◌≡◌, ◌≢◌, ◌⊎◌, inl, inr, ◌∙◌, sym, refl, ap, ap₂, subst, some, ◌==◌, if◌then◌else◌,
  ℕ_discrete, arith,
}
use thunderos.Paging.{Vm, pa_to_pte, pte_v, pt_entries, set_entry}
use thunderos.Paging.Entry.{child, child-pa_to_pte}
use thunderos.Paging.Tree.{Place, top, nowhere, mid, low, IsTaken, IsTree}
use thunderos.Paging.Fresh.{Fresh}

-- Which place stands below the entry `i` of a place.
pub data Link (i : ℕ) : Place → Place → Type 0 where
  from_top : Link i top (mid i)
  from_mid : {h : ℕ} → Link i (mid h) (low h i)

Link-top : {i : ℕ} {p q : Place} → Link i p q → p ≡ top → q ≡ mid i
Link-top from_top e = refl
Link-top from_mid e = cc

Link-mid : {i : ℕ} {p q : Place} (h : ℕ) → Link i p q → p ≡ mid h → q ≡ low h i
Link-mid h from_top e = cc
Link-mid h from_mid e = ground arith

pub top_nowhere : top ≢ nowhere
top_nowhere e = cc

pub mid_nowhere : {i : ℕ} → mid i ≢ nowhere
mid_nowhere e = cc

pub low_nowhere : {i j : ℕ} → low i j ≢ nowhere
low_nowhere e = cc

pub mid_top : {i : ℕ} → mid i ≢ top
mid_top e = cc

pub low_top : {i j : ℕ} → low i j ≢ top
low_top e = cc

pub low_mid : {i j k : ℕ} → low i j ≢ mid k
low_mid e = cc

Link-child : {i : ℕ} {p q : Place} → Link i p q → (q ≢ top) × (q ≢ nowhere) × (p ≢ nowhere)
Link-child from_top = (λ e. cc, λ e. cc, λ e. cc)
Link-child from_mid = (λ e. cc, λ e. cc, λ e. cc)

module _ (vm : Vm) (root : ℕ) (place : ℕ → Place) (n : ℕ) (vm' : Vm) (tree : IsTree vm root place)
    (fresh : Fresh vm place n vm') (p i : ℕ) (ib : i < pt_entries) (q : Place)
    (link : Link i (place p) q) where
  abbrev pub linked : Vm
  linked = record vm' { entry = set_entry vm'.entry p i (pa_to_pte n pte_v) }

  abbrev pub placed : ℕ → Place
  placed a = if a == n then q else place a

  -- A table of the tree is another one than the new table.
  pub other : (a : ℕ) → place a ≢ nowhere → a ≢ n
  other a h e = h (ap place e ∙ fresh.was_nowhere)

  pub elsewhere :
      (a j : ℕ) → place a ≢ nowhere → (a ≢ p) ⊎ (j ≢ i) → linked.entry a j ≡ vm.entry a j
  elsewhere a j h d = rw fresh.cleared (ground (arith, other a h, d))

  here : linked.entry p i ≡ pa_to_pte n pte_v
  here = ground arith

  pub at_link : child (linked.entry p i) ≡ some n
  at_link = rw here (child-pa_to_pte n fresh.page)

  pub in_new : (j : ℕ) → j < pt_entries → linked.entry n j ≡ 0
  in_new j lt = rw fresh.cleared (ground (arith, other p (Link-child link).2))

  placed_old : (a : ℕ) → place a ≢ nowhere → placed a ≡ place a
  placed_old a h = ground (arith, other a h)

  -- Below a place there is the table that was there, or the new one.
  below :
      (a j c : ℕ)
      → place a ≢ nowhere
      → child (linked.entry a j) ≡ some c
      → ((a ≡ p) × (j ≡ i) × (c ≡ n)) ⊎ (child (vm.entry a j) ≡ some c)
  below a j c h e = elim (ℕ_discrete a p) [
    | no x ↦ inr (ap child (sym (elsewhere a j h (inl x))) ∙ e)
    | yes x ↦ elim (ℕ_discrete j i) [
      | no y ↦ inr (ap child (sym (elsewhere a j h (inr y))) ∙ e)
      | yes y ↦ inl (x, y, cc (ap₂ (λ u v. child (linked.entry u v)) x y, at_link, e))
    ]
  ]

  root_stands : place root ≢ nowhere
  root_stands e = absurd (top_nowhere (sym tree.at_root ∙ e))

  placed_new : placed n ≡ q
  placed_new = ground arith

  below_root : (k a : ℕ) → k < pt_entries → child (linked.entry root k) ≡ some a → placed a ≡ mid k
  below_root k a kb e = elim (below root k a root_stands e) [
    | inl (x, y, z) ↦
        ap placed z ∙ placed_new ∙ Link-top link (sym (ap place x) ∙ tree.at_root) ∙ ap mid (sym y)
    | inr e' ↦
        let at : place a ≡ mid k = tree.below_root k a kb e' in
        placed_old a (λ w. mid_nowhere (sym at ∙ w)) ∙ at
  ]

  below_mid :
      (t h k a : ℕ)
      → k < pt_entries
      → placed t ≡ mid h
      → child (linked.entry t k) ≡ some a
      → placed a ≡ low h k
  below_mid t h k a kb th e = elim (ℕ_discrete t n) [
    | yes new ↦ cc (ap (λ u. child (linked.entry u k)) new, ap child (in_new k kb), e)
    | no old ↦
        let at : place t ≡ mid h = ground arith in
        elim (below t k a (λ w. mid_nowhere (sym at ∙ w)) e) [
          | inl (x, y, z) ↦
              ap placed z
              ∙ placed_new
              ∙ Link-mid h link (sym (ap place x) ∙ at)
              ∙ ap (low h) (sym y)
          | inr e' ↦
              let there : place a ≡ low h k = tree.below_mid t h k a kb at e' in
              placed_old a (λ w. low_nowhere (sym there ∙ w)) ∙ there
        ]
  ]

  only_root : (a : ℕ) → placed a ≡ top → a ≡ root
  only_root a e = elim (ℕ_discrete a n) [
    | yes new ↦ absurd ((Link-child link).0 (sym placed_new ∙ ap placed (sym new) ∙ e))
    | no old ↦ tree.only_root a (ground arith)
  ]

  taken : (a : ℕ) → IsTaken linked a ⊎ (placed a ≡ nowhere)
  taken a = elim (ℕ_discrete a n) [
    | yes new ↦ inl (subst (IsTaken linked) (sym new) fresh.now_taken)
    | no old ↦ elim (tree.taken a) [ inl t ↦ inl (fresh.keeps a t) | inr w ↦ inr (ground arith) ]
  ]

  pub linked-IsTree : IsTree linked root placed
  linked-IsTree = record {
    pages = fresh.pages;
    in_reach = fresh.in_reach;
    at_root = placed_old root root_stands ∙ tree.at_root;
    below_root = below_root;
    below_mid = below_mid;
    only_root = only_root;
    taken = taken;
  }
