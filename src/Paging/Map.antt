-- ===== src/Paging/Map.antt =====
-- `map_page` and `unmap_page` of kernel/mm/paging.c by what `virt_to_phys` answers afterwards.
use thunderos.Prelude.{
  ℕ, ◌+◌, ◌%◌, ◌^◌, ◌<◌, ◌≡◌, ◌≢◌, ◌⊎◌, inl, inr, ◌∙◌, sym, refl, ap, Option, none, some, Bool,
  true, false, not, ◌||◌, if◌then◌else◌, Bool-cases, arith,
}
use thunderos.Errno.{Reply, ok, err, einval, enomem, eexist, efault}
use thunderos.Pmm.{page_size}
use thunderos.Paging.{
  Vm, vpn, is_valid, is_aligned, pte_to_pa, pa_to_pte, with_v, walk_page_table, map_page,
  virt_to_phys,
}
use thunderos.Paging.Entry.{
  IsPage, pte_to_pa-pa_to_pte, is_valid-pa_to_pte, with_v-lt, is_valid-with_v,
}
use thunderos.Paging.Tree.{Place, IsTree, table_at, pte_at, pte_at-table_at, virt_to_phys-pte_at}
use thunderos.Paging.Walk.{Blocked, stuck, arrived, walk_page_table-Walked}
use thunderos.Paging.Write.{same_page, written, written-IsTree, pte_at-written}

-- The same answers at every address.
abbrev pub SameAnswers : Vm → Vm → ℕ → Type 0
SameAnswers vm vm' root = (v : ℕ) → virt_to_phys vm' root v ≡ virt_to_phys vm root v

-- The ends of `map_page`.
pub data MapEnds (vm : Vm) (root va pa flags : ℕ) (r : Reply × Vm) : Type 0 where
  misaligned :
      (is_aligned va ≡ false) ⊎ (is_aligned pa ≡ false)
      → r ≡ (err einval, vm)
      → MapEnds vm root va pa flags r
  no_table :
      (place : ℕ → Place)
      → is_aligned va ≡ true
      → Blocked r.1 root va
      → r.0 ≡ err enomem
      → IsTree r.1 root place
      → SameAnswers vm r.1 root
      → MapEnds vm root va pa flags r
  exists_already :
      (place : ℕ → Place)
      → is_aligned va ≡ true
      → r.0 ≡ err eexist
      → virt_to_phys vm root va ≢ err efault
      → IsTree r.1 root place
      → SameAnswers vm r.1 root
      → MapEnds vm root va pa flags r
  mapped :
      (place : ℕ → Place)
      → r.0 ≡ ok 0
      → is_aligned va ≡ true
      → virt_to_phys vm root va ≡ err efault
      → pte_at r.1 root va ≡ pa_to_pte pa (with_v flags)
      → IsTree r.1 root place
      → ((v : ℕ)
          → virt_to_phys r.1 root v
            ≡ (if same_page v va then ok (pa + v % page_size) else virt_to_phys vm root v))
      → MapEnds vm root va pa flags r

-- Equal entries give equal answers.
pub answers-same :
    (vm vm' : Vm) (root v : ℕ)
    → pte_at vm' root v ≡ pte_at vm root v
    → virt_to_phys vm' root v ≡ virt_to_phys vm root v
answers-same vm vm' root v e =
    virt_to_phys-pte_at vm' root v
    ∙ ap (λ (x : ℕ). if is_valid x then ok ((pte_to_pa x + v % page_size) % 2 ^ 64) else err efault)
        e
    ∙ sym (virt_to_phys-pte_at vm root v)

pub answer-valid :
    (vm : Vm) (root v x : ℕ)
    → pte_at vm root v ≡ x
    → is_valid x ≡ true
    → virt_to_phys vm root v ≡ ok ((pte_to_pa x + v % page_size) % 2 ^ 64)
answer-valid vm root v x e h = virt_to_phys-pte_at vm root v ∙ rw (e, h) refl

pub answer-invalid :
    (vm : Vm) (root v x : ℕ)
    → pte_at vm root v ≡ x
    → is_valid x ≡ false
    → virt_to_phys vm root v ≡ err efault
answer-invalid vm root v x e h = virt_to_phys-pte_at vm root v ∙ rw (e, h) refl

module _ (vm : Vm) (root : ℕ) (place : ℕ → Place) (tree : IsTree vm root place) (va pa flags : ℕ)
    (page : IsPage pa) (few : flags < 1024) where
  new_pte : ℕ
  new_pte = pa_to_pte pa (with_v flags)

  new_pte-flags : new_pte ≡ pa_to_pte pa (with_v flags)
  unfolding new_pte
  new_pte-flags = refl

  answer-new :
      (vm' : Vm) (v : ℕ)
      → pte_at vm' root v ≡ new_pte
      → virt_to_phys vm' root v ≡ ok (pa + v % page_size)
  unfolding new_pte
  answer-new vm' v e =
      answer-valid vm' root v new_pte e
        (is_valid-pa_to_pte pa page (with_v flags) (with_v-lt flags few) ∙ is_valid-with_v flags)
      ∙ rw (pte_to_pa-pa_to_pte pa page (with_v flags) (with_v-lt flags few))
          (ap ok (omega (arith, page.small)))

  walk : Option ℕ × Vm
  walk = walk_page_table vm root va true 2

  bad : Bool
  bad = not (is_aligned va) || not (is_aligned pa)

  good : bad ≡ false → is_aligned va ≡ true
  unfolding bad
  good h = ground arith

  map-misaligned : bad ≡ true → map_page vm root va pa flags ≡ (err einval, vm)
  unfolding map_page bad
  map-misaligned h = rw h refl

  map-no_table : bad ≡ false → walk.0 ≡ none → map_page vm root va pa flags ≡ (err enomem, walk.1)
  unfolding map_page bad walk
  map-no_table h e = rw (h, e) refl

  map-exists :
      (t : ℕ)
      → bad ≡ false
      → walk.0 ≡ some t
      → is_valid (walk.1.entry t (vpn 0 va)) ≡ true
      → map_page vm root va pa flags ≡ (err eexist, walk.1)
  unfolding map_page bad walk
  map-exists t h e valid = rw (h, e, valid) refl

  map-new :
      (t : ℕ) (place' : ℕ → Place) (tree' : IsTree walk.1 root place')
      (at : table_at walk.1 root va ≡ some t)
      → bad ≡ false
      → walk.0 ≡ some t
      → is_valid (walk.1.entry t (vpn 0 va)) ≡ false
      → map_page vm root va pa flags ≡ (ok 0, written walk.1 root place' tree' va t at new_pte)
  unfolding map_page bad walk new_pte
  map-new t place' tree' at h e invalid = rw (h, e, invalid) refl

  -- The walk has found a table.
  at_table :
      (place' : ℕ → Place) (t : ℕ)
      → bad ≡ false
      → walk.0 ≡ some t
      → IsTree walk.1 root place'
      → table_at walk.1 root va ≡ some t
      → ((v : ℕ) → pte_at walk.1 root v ≡ pte_at vm root v)
      → MapEnds vm root va pa flags (map_page vm root va pa flags)
  at_table place' t h e tree' at same = elim (Bool-cases (is_valid (walk.1.entry t (vpn 0 va)))) [
    | inl valid ↦ rw (map-exists t h e valid) (
        exists_already place' (good h) refl (λ w. cc (answer-valid vm root va _ old valid, w)) tree'
          (λ v. answers-same vm walk.1 root v (same v)))
    | inr invalid ↦ rw (map-new t place' tree' at h e invalid) (
        mapped place' refl (good h) (answer-invalid vm root va _ old invalid)
          (entry va (ground arith) ∙ new_pte-flags)
          (written-IsTree walk.1 root place' tree' va t at new_pte) (λ v. answer v))
  ]
    where
      old : pte_at vm root va ≡ walk.1.entry t (vpn 0 va)
      old = sym (same va) ∙ pte_at-table_at walk.1 root va t at

      entry :
          (v : ℕ)
          → same_page v va ≡ true
          → pte_at (written walk.1 root place' tree' va t at new_pte) root v ≡ new_pte
      entry v s = pte_at-written walk.1 root place' tree' va t at new_pte v ∙ rw s refl

      answer :
          (v : ℕ)
          → virt_to_phys (written walk.1 root place' tree' va t at new_pte) root v
            ≡ (if same_page v va then ok (pa + v % page_size) else virt_to_phys vm root v)
      answer v =
          let w = pte_at-written walk.1 root place' tree' va t at new_pte v in
          elim (Bool-cases (same_page v va)) [
            | inl s ↦ rw s (answer-new _ v (entry v s))
            | inr s ↦ rw s (answers-same vm _ root v (w ∙ rw s (same v)))
          ]

  -- `map_page` of a page of physical memory, with fewer than 1024 flags and on a tree of tables: it
  -- fails with EINVAL for an address that is not aligned and changes nothing; with ENOMEM when no
  -- page is free for a table or a leaf is in the way of the walk, or with EEXIST where the address
  -- is mapped, and then every address has the answer that it had; or it maps the page: its entry
  -- has the page, the flags and the valid bit, and `virt_to_phys` answers the new physical address
  -- for every address of that page and what it answered before for every other one. The tables are
  -- a tree still.
  pub map_page-MapEnds : MapEnds vm root va pa flags (map_page vm root va pa flags)
  unfolding bad walk
  map_page-MapEnds = elim (Bool-cases bad) [
    | inl h ↦ misaligned (sides h) (map-misaligned h)
    | inr h ↦ elim (walk_page_table-Walked vm root place va tree) [
      | stuck place' b e tree' same ↦
          rw (map-no_table h e)
            (no_table place' (good h) b refl tree' (λ v. answers-same vm walk.1 root v (same v)))
      | arrived place' t e tree' at same ↦ at_table place' t h e tree' at same
    ]
  ]
    where
      sides : bad ≡ true → (is_aligned va ≡ false) ⊎ (is_aligned pa ≡ false)
      sides h = ground arith
