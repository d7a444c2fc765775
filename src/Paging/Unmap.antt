-- ===== src/Paging/Unmap.antt =====
-- `unmap_page` of kernel/mm/paging.c by what `virt_to_phys` answers afterwards, and the round trip with
-- `map_page`.
use thunderos.Prelude.{
  ℕ, ◌+◌, ◌%◌, ◌<◌, ◌≡◌, ◌≢◌, ◌⊎◌, inl, inr, ◌∙◌, sym, refl, ap, none, some, true, false,
  if◌then◌else◌, Bool-cases, Option-cases, arith,
}
use thunderos.Errno.{Reply, ok, err, einval, efault}
use thunderos.Pmm.{page_size}
use thunderos.Paging.{Vm, vpn, is_valid, is_aligned, map_page, unmap_page, virt_to_phys}
use thunderos.Paging.Entry.{IsPage}
use thunderos.Paging.Tree.{
  Place, IsTree, table_at, pte_at, pte_at-table_at, pte_at-no_table, walk_page_table-table_at,
}
use thunderos.Paging.Write.{same_page, written, written-IsTree, pte_at-written, pte_at-same_page}
use thunderos.Paging.Map.{
  misaligned, no_table, exists_already, mapped, map_page-MapEnds, SameAnswers, answers-same,
  answer-valid, answer-invalid,
}

-- The ends of `unmap_page`.
pub data UnmapEnds (vm : Vm) (root : ℕ) (place : ℕ → Place) (va : ℕ) (r : Reply × Vm) : Type 0 where
  refused :
      (is_aligned va ≡ false) ⊎ (virt_to_phys vm root va ≡ err efault)
      → r ≡ (err einval, vm)
      → UnmapEnds vm root place va r
  unmapped :
      r.0 ≡ ok 0
      → is_aligned va ≡ true
      → virt_to_phys vm root va ≢ err efault
      → IsTree r.1 root place
      → ((v : ℕ)
          → virt_to_phys r.1 root v
            ≡ (if same_page v va then err efault else virt_to_phys vm root v))
      → UnmapEnds vm root place va r

module _ (vm : Vm) (root : ℕ) (place : ℕ → Place) (tree : IsTree vm root place) (va : ℕ) where
  unmap-misaligned : is_aligned va ≡ false → unmap_page vm root va ≡ (err einval, vm)
  unfolding unmap_page
  unmap-misaligned h = rw h refl

  unmap-no_table :
      is_aligned va ≡ true → table_at vm root va ≡ none → unmap_page vm root va ≡ (err einval, vm)
  unfolding unmap_page
  unmap-no_table h e = rw (h, walk_page_table-table_at vm root va, e) refl

  unmap-invalid :
      (t : ℕ)
      → is_aligned va ≡ true
      → table_at vm root va ≡ some t
      → is_valid (vm.entry t (vpn 0 va)) ≡ false
      → unmap_page vm root va ≡ (err einval, vm)
  unfolding unmap_page
  unmap-invalid t h e invalid = rw (h, walk_page_table-table_at vm root va, e, invalid) refl

  unmap-valid :
      (t : ℕ)
      → (at : table_at vm root va ≡ some t) → is_aligned va ≡ true
      → is_valid (vm.entry t (vpn 0 va)) ≡ true
      → unmap_page vm root va ≡ (ok 0, written vm root place tree va t at 0)
  unfolding unmap_page
  unmap-valid t at h valid = rw (h, walk_page_table-table_at vm root va, at, valid) refl

  unmap_at :
      (t : ℕ)
      → is_aligned va ≡ true
      → table_at vm root va ≡ some t
      → UnmapEnds vm root place va (unmap_page vm root va)
  unmap_at t h at = elim (Bool-cases (is_valid (vm.entry t (vpn 0 va)))) [
    | inr invalid ↦
        refused (inr (answer-invalid vm root va _ old invalid)) (unmap-invalid t h at invalid)
    | inl valid ↦ rw (unmap-valid t at h valid) (
        unmapped refl h (λ w. cc (answer-valid vm root va _ old valid, w))
          (written-IsTree vm root place tree va t at 0) answer)
  ]
    where
      old : pte_at vm root va ≡ vm.entry t (vpn 0 va)
      old = pte_at-table_at vm root va t at

      answer :
          (v : ℕ)
          → virt_to_phys (written vm root place tree va t at 0) root v
            ≡ (if same_page v va then err efault else virt_to_phys vm root v)
      answer v =
          let w = pte_at-written vm root place tree va t at 0 v in
          elim (Bool-cases (same_page v va)) [
            | inl s ↦ rw s (answer-invalid _ root v 0 (w ∙ rw s refl) refl)
            | inr s ↦ rw s (answers-same vm _ root v (w ∙ rw s refl))
          ]

  -- `unmap_page` on a tree of tables: it fails with EINVAL and changes nothing for an address that
  -- is not aligned or not mapped; otherwise no address of that page is mapped any more, every other
  -- address has the answer that it had, and the tables are a tree still.
  pub unmap_page-UnmapEnds : UnmapEnds vm root place va (unmap_page vm root va)
  unmap_page-UnmapEnds = elim (Bool-cases (is_aligned va)) [
    | inr h ↦ refused (inl h) (unmap-misaligned h)
    | inl h ↦ elim (Option-cases (table_at vm root va)) [
      | inl e ↦
          refused (inr (answer-invalid vm root va 0 (pte_at-no_table vm root va e) refl))
            (unmap-no_table h e)
      | inr (t, e) ↦ unmap_at t h e
    ]
  ]

same_page_self : (v : ℕ) → same_page v v ≡ true
same_page_self v = ground arith

-- An address that is not mapped has an entry that is not valid.
unmapped-invalid :
    (vm : Vm) (root va : ℕ)
    → virt_to_phys vm root va ≡ err efault
    → is_valid (pte_at vm root va) ≡ false
unmapped-invalid vm root va h = elim (Bool-cases (is_valid (pte_at vm root va))) [
  | inr invalid ↦ invalid
  | inl valid ↦ cc (answer-valid vm root va _ refl valid, h)
]

module _ (vm : Vm) (root : ℕ) (place : ℕ → Place) (tree : IsTree vm root place) (va pa flags : ℕ)
    (page : IsPage pa) (few : flags < 1024) (done : (map_page vm root va pa flags).0 ≡ ok 0) where
  between : Vm
  between = (map_page vm root va pa flags).1

  -- Both calls leave the answers at every address as they were.
  restored :
      (w : Vm)
      → virt_to_phys vm root va ≡ err efault
      → ((v : ℕ)
          → virt_to_phys between root v
            ≡ (if same_page v va then ok (pa + v % page_size) else virt_to_phys vm root v))
      → ((v : ℕ)
          → virt_to_phys w root v
            ≡ (if same_page v va then err efault else virt_to_phys between root v))
      → SameAnswers vm w root
  restored w free a b v = elim (Bool-cases (same_page v va)) [
    | inr s ↦ b v ∙ rw s (a v ∙ rw s refl)
    | inl s ↦
        b v
        ∙ rw s (
            sym (
              answer-invalid vm root v _ (pte_at-same_page vm root v va s)
                (unmapped-invalid vm root va free)))
  ]

  -- Unmapping the page that `map_page` has just mapped succeeds, and every address has the answer again
  -- that it had before both.
  pub unmap_page-map_page :
      let (reply, vm') = unmap_page (map_page vm root va pa flags).1 root va in
      (reply ≡ ok 0) × SameAnswers vm vm' root
  unfolding between
  unmap_page-map_page = elim (map_page-MapEnds vm root place tree va pa flags page few) [
    | misaligned s e ↦ cc (ap (λ r. r.0) e, done)
    | no_table p a b e t s ↦ cc (e, done)
    | exists_already p a e n t s ↦ cc (e, done)
    | mapped p e aligned free entry tree' answers ↦
        elim (unmap_page-UnmapEnds between root p tree' va) [
          | unmapped r h n t gone ↦ (r, restored _ free answers gone)
          | refused s r ↦ absurd (elim s [
            | inl crooked ↦ cc (crooked, aligned)
            | inr lost ↦
                let here : virt_to_phys between root va ≡ ok (pa + va % page_size) =
                  answers va
                  ∙ ap (λ b. if b then ok (pa + va % page_size) else virt_to_phys vm root va)
                      (same_page_self va) in
                cc (lost, here)
          ])
        ]
  ]
