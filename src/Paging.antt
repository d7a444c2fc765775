-- ===== src/Paging.antt =====
-- kernel/mm/paging.c: Sv39 page tables of three levels. Memory is seen as page tables: the entries at
-- the address of a page. A `pte_t *` is the address of a table and an index. The TLB, the register
-- satp and the messages to the UART are left out, and so is what the pages hold besides tables.
pub mod Entry
pub mod Tree
pub mod Fresh
pub mod Link
pub mod Grow
pub mod Walk
pub mod Write
pub mod Map
pub mod Unmap
pub mod Tests
use thunderos.Prelude.{
  ℕ, zero, suc, ◌+◌, ◌-◌, ◌*◌, ◌/◌, ◌%◌, ◌^◌, Option, none, some, List, [], ◌∷◌, Bool, true, false,
  ◌==◌, not, ltb, leb, ◌&&◌, ◌||◌, if◌then◌else◌, bit_or,
}
use thunderos.Errno.{Reply, ok, err, einval, enomem, eexist, efault}
use thunderos.Pmm.{Pmm, alloc_page, free_page, page_size}

abbrev pub pt_entries : ℕ
pt_entries = 512

-- The page tables in memory, and the allocator of their pages.
pub record Vm : Type 0 where
  pub pmm : Pmm
  pub entry : ℕ → ℕ → ℕ

-- `VPN_2`, `VPN_1` and `VPN_0`, by their level.
abbrev pub vpn : ℕ → ℕ → ℕ
vpn level va = va / 2 ^ (12 + 9 * level) % pt_entries

abbrev pub pte_v : ℕ
pte_v = 1

-- `pte & PTE_V`, and `PTE_IS_LEAF`, which tests the bits 1 to 3.
abbrev pub is_valid : ℕ → Bool
is_valid pte = pte % 2 == 1

abbrev pub is_leaf : ℕ → Bool
is_leaf pte = not (pte / 2 % 8 == 0)

-- `PTE_TO_PA` and `PA_TO_PTE`.
abbrev pub pte_to_pa : ℕ → ℕ
pte_to_pa pte = pte / 2 ^ 10 % 2 ^ 44 * page_size

abbrev pub pa_to_pte : ℕ → ℕ → ℕ
pa_to_pte pa flags = bit_or (pa / page_size * 2 ^ 10) flags

-- `*pte = value`, and a table of zeros.
abbrev pub set_entry : (ℕ → ℕ → ℕ) → ℕ → ℕ → ℕ → ℕ → ℕ → ℕ
set_entry f pt i value a j = if a == pt && j == i then value else f a j

abbrev pub clear_table : (ℕ → ℕ → ℕ) → ℕ → ℕ → ℕ → ℕ
clear_table f pt a j = if a == pt && ltb j pt_entries then 0 else f a j

-- `alloc_page_table`: `none` for NULL.
pub alloc_page_table : Vm → Option ℕ × Vm
alloc_page_table vm =
    let (page, pmm) = alloc_page vm.pmm in
    if page == 0
    then (none, record vm { pmm = pmm })
    else (some page, record { pmm = pmm; entry = clear_table vm.entry page })

-- The loop of `walk_page_table`, at the table `pt` of the level `level`: the table of level 0.
pub walk_page_table : Vm → ℕ → ℕ → Bool → ℕ → Option ℕ × Vm
walk_page_table vm pt vaddr create zero = (some pt, vm)
walk_page_table vm pt vaddr create (suc l) =
    let i = vpn (suc l) vaddr in
    let pte = vm.entry pt i in
    let down = walk_page_table vm (pte_to_pa pte) vaddr create l in
    let (page, vm') = alloc_page_table vm in
    if is_valid pte
    then if is_leaf pte then (none, vm) else down
    else if not create
    then (none, vm)
    else elim page [
      | none ↦ (none, vm')
      | some new_pt ↦
          walk_page_table (record vm' { entry = set_entry vm'.entry pt i (pa_to_pte new_pt pte_v) })
            new_pt vaddr create l
    ]

abbrev pub is_aligned : ℕ → Bool
is_aligned a = a % page_size == 0

-- `flags | PTE_V`.
abbrev pub with_v : ℕ → ℕ
with_v flags = bit_or flags pte_v

pub map_page : Vm → ℕ → ℕ → ℕ → ℕ → Reply × Vm
map_page vm root vaddr paddr flags =
    if not (is_aligned vaddr) || not (is_aligned paddr)
    then (err einval, vm)
    else let (found, vm') = walk_page_table vm root vaddr true 2 in
      elim found [
        | none ↦ (err enomem, vm')
        | some pt ↦ if is_valid (vm'.entry pt (vpn 0 vaddr)) then (err eexist, vm') else (
          ok 0,
          record vm' {
            entry = set_entry vm'.entry pt (vpn 0 vaddr) (pa_to_pte paddr (with_v flags));
          },
        )
      ]

pub unmap_page : Vm → ℕ → ℕ → Reply × Vm
unmap_page vm root vaddr =
    if not (is_aligned vaddr)
    then (err einval, vm)
    else elim (walk_page_table vm root vaddr false 2).0 [
      | none ↦ (err einval, vm)
      | some pt ↦
          if is_valid (vm.entry pt (vpn 0 vaddr))
          then (ok 0, record vm { entry = set_entry vm.entry pt (vpn 0 vaddr) 0 })
          else (err einval, vm)
    ]

-- `virt_to_phys`: `ok` has the physical address that goes out through the pointer.
pub virt_to_phys : Vm → ℕ → ℕ → Reply
virt_to_phys vm root vaddr = elim (walk_page_table vm root vaddr false 2).0 [
  | none ↦ err efault
  | some pt ↦
      let pte = vm.entry pt (vpn 0 vaddr) in
      if is_valid pte then ok ((pte_to_pa pte + vaddr % page_size) % 2 ^ 64) else err efault
]

-- `translate_virt_to_phys`, with the kernel's own root table.
pub translate_virt_to_phys : Vm → ℕ → ℕ → ℕ
unfolding virt_to_phys
translate_virt_to_phys vm kernel_root vaddr = elim (virt_to_phys vm kernel_root vaddr) [
  | ok paddr ↦ paddr
  | err _ ↦ vaddr
]
