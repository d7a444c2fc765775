-- ===== src/Process.antt =====
-- The memory areas of a process in kernel/core/process.c: the list of areas, and the check of the
-- pointers that user programs pass to the kernel. The pointer to a process is not NULL. Addresses
-- have 64 bits.
pub mod Areas
pub mod Pointer
pub mod Groups
pub mod Tests
use thunderos.Prelude.{
  ℕ, ◌+◌, ◌^◌, ◌%◌, Option, none, some, List, [], ◌∷◌, Bool, true, false, ◌==◌, ltb, leb, not, ◌&&◌,
  ◌||◌, if◌then◌else◌, bit_and,
}
use thunderos.Errno.{Reply, ok, err, einval, enomem}
use thunderos.Kernel.{Kernel, kernel_kmalloc, kernel_kfree}

-- `vm_area_t`, with the address where it stands. The list is `proc->vm_areas` along `next`.
pub record VmArea : Type 0 where
  pub address : ℕ
  pub start : ℕ
  pub end : ℕ
  pub flags : ℕ

-- The areas of a process, and the kernel with the heap that they come from.
pub record Space : Type 0 where
  pub vm_areas : List VmArea
  pub kernel : Kernel

abbrev pub kernel_virt_base : ℕ
kernel_virt_base = 0xFFFFFFFF80000000

abbrev pub contains : VmArea → ℕ → Bool
contains vma addr = leb vma.start addr && ltb addr vma.end

pub process_find_vma : List VmArea → ℕ → Option VmArea
process_find_vma [] addr = none
process_find_vma (vma ∷ next) addr =
    if contains vma addr then some vma else process_find_vma next addr

-- `process_add_vma`, by the size of a `vm_area_t`.
pub process_add_vma : Space → ℕ → ℕ → ℕ → ℕ → Reply × Space
process_add_vma s sizeof_vma start end flags =
    if leb end start
    then (err einval, s)
    else let (vma, kernel) = kernel_kmalloc s.kernel sizeof_vma in
      if vma == 0 then (err enomem, record s { kernel = kernel }) else (
        ok 0,
        record {
          vm_areas = record { address = vma; start = start; end = end; flags = flags } ∷ s.vm_areas;
          kernel = kernel;
        },
      )

-- The list without the area at an address.
abbrev pub unlink : List VmArea → ℕ → List VmArea
unlink [] vma = []
unlink (a ∷ next) vma = if a.address == vma then next else a ∷ unlink next vma

abbrev pub is_linked : List VmArea → ℕ → Bool
is_linked [] vma = false
is_linked (a ∷ next) vma = (a.address == vma) || is_linked next vma

-- `process_remove_vma` of the area at an address, 0 for NULL.
pub process_remove_vma : Space → ℕ → Space
process_remove_vma s vma =
    if not (vma == 0) && is_linked s.vm_areas vma
    then record { vm_areas = unlink s.vm_areas vma; kernel = kernel_kfree s.kernel vma }
    else s

abbrev pub free_areas : List VmArea → Kernel → Kernel
free_areas [] k = k
free_areas (vma ∷ next) k = free_areas next (kernel_kfree k vma.address)

pub process_cleanup_vmas : Space → Space
process_cleanup_vmas s = record { vm_areas = []; kernel = free_areas s.vm_areas s.kernel }

-- The checks of `process_validate_user_ptr` on the area that contains the start.
abbrev pub is_covered : Option VmArea → ℕ → ℕ → Bool
is_covered none end required_flags = false
is_covered (some vma) end required_flags =
    leb end vma.end && (bit_and vma.flags required_flags == required_flags)

pub process_validate_user_ptr : List VmArea → ℕ → ℕ → ℕ → Bool
process_validate_user_ptr vm_areas ptr size required_flags =
    let end = (ptr + size) % 2 ^ 64 in
    if (ptr == 0) || (size == 0)
    then false
    else if leb kernel_virt_base ptr || leb kernel_virt_base end
    then false
    else if ltb end ptr
    then false
    else is_covered (process_find_vma vm_areas ptr) end required_flags
