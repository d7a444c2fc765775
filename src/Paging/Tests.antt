-- ===== src/Paging/Tests.antt =====
-- The theorems on the page tables, over an allocator of four pages and an empty root table.
use thunderos.Prelude.{ℕ, ◌≡◌, ◌⊎◌, inl, inr, refl, ◌==◌, if◌then◌else◌, ℕ_discrete, arith}
use thunderos.Errno.{ok}
use thunderos.Pmm.Tests.{small, small-IsValid, small-size, alloc-small, alloc_second-small}
use thunderos.Paging.{Vm, alloc_page_table, walk_page_table, map_page, unmap_page}
use thunderos.Paging.Entry.{IsPage}
use thunderos.Paging.Tree.{Place, top, nowhere, IsTree, IsTaken}
use thunderos.Paging.Map.{MapEnds, SameAnswers, map_page-MapEnds}
use thunderos.Paging.Unmap.{UnmapEnds, unmap_page-UnmapEnds, unmap_page-map_page}

abbrev root_page : ℕ
root_page = 0x8010_0000

abbrev blank : Vm
blank = record { pmm = small; entry = λ _ _. 0 }

abbrev blank_place : ℕ → Place
blank_place a = if a == root_page then top else nowhere

root_page-IsTaken : IsTaken blank root_page
root_page-IsTaken k _ e = absurd (omega (arith, e, small-size.1))

blank-only_root : (a : ℕ) → blank_place a ≡ top → a ≡ root_page
blank-only_root a e = ground (arith, e)

blank-taken : (a : ℕ) → IsTaken blank a ⊎ (blank_place a ≡ nowhere)
blank-taken a = elim (ℕ_discrete a root_page) [
  | yes e ↦ inl (rw e root_page-IsTaken)
  | no n ↦ inr (ground (arith, n))
]

blank-IsTree : IsTree blank root_page blank_place
blank-IsTree = record {
  pages = small-IsValid;
  in_reach = omega (arith, small-size.0, small-size.1);
  at_root = refl;
  below_root = λ i a _ e. cc e;
  below_mid = λ t i j a _ _ e. cc e;
  only_root = blank-only_root;
  taken = blank-taken;
}

console-IsPage : IsPage 0x8800_3000
console-IsPage = record { aligned = refl; small = omega arith }

mapped-ok : (map_page blank root_page 0x4000_0000 0x8800_3000 6).0 ≡ ok 0
unfolding map_page walk_page_table alloc_page_table
mapped-ok = ground (arith, alloc-small, alloc_second-small)

map_page-MapEnds_example :
    MapEnds blank root_page 0x4000_0000 0x8800_3000 6
      (map_page blank root_page 0x4000_0000 0x8800_3000 6)
map_page-MapEnds_example =
    map_page-MapEnds blank root_page blank_place blank-IsTree 0x4000_0000 0x8800_3000 6
      console-IsPage (omega arith)

unmap_page-UnmapEnds_example :
    UnmapEnds blank root_page blank_place 0x4000_0000 (unmap_page blank root_page 0x4000_0000)
unmap_page-UnmapEnds_example =
    unmap_page-UnmapEnds blank root_page blank_place blank-IsTree 0x4000_0000

unmap_page-map_page_example :
    let (reply, vm) =
      unmap_page (map_page blank root_page 0x4000_0000 0x8800_3000 6).1 root_page 0x4000_0000 in
    (reply ≡ ok 0) × SameAnswers blank vm root_page
unmap_page-map_page_example =
    unmap_page-map_page blank root_page blank_place blank-IsTree 0x4000_0000 0x8800_3000 6
      console-IsPage (omega arith) mapped-ok
