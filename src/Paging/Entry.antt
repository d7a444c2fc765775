-- ===== src/Paging/Entry.antt =====
-- What a page table entry of kernel/mm/paging.c holds.
use thunderos.Prelude.{
  ℕ, ◌+◌, ◌*◌, ◌/◌, ◌%◌, ◌^◌, ◌<◌, ◌≡◌, refl, Option, none, some, true, not, ◌&&◌, if◌then◌else◌,
  arith,
}
use thunderos.Prelude.Digits.{bit_or-apart, bit_or-one}
use thunderos.Paging.{is_valid, is_leaf, pte_to_pa, pa_to_pte, pte_v, with_v}
use thunderos.Pmm.{page_size}

-- The table below an entry.
abbrev pub child : ℕ → Option ℕ
child pte = if is_valid pte && not (is_leaf pte) then some (pte_to_pa pte) else none

-- The address of a page that an entry can hold: Sv39 has 56 bits of physical address.
pub record IsPage (pa : ℕ) : Type 0 where
  pub aligned : pa % page_size ≡ 0
  pub small : pa < 2 ^ 56

module _ (pa : ℕ) (p : IsPage pa) (flags : ℕ) (few : flags < 1024) where
  pa_to_pte_lem : pa_to_pte pa flags ≡ pa / page_size * 1024 + flags
  pa_to_pte_lem = bit_or-apart (pa / page_size) flags few

  pub pte_to_pa-pa_to_pte : pte_to_pa (pa_to_pte pa flags) ≡ pa
  pte_to_pa-pa_to_pte = rw pa_to_pte_lem (omega (arith, p.aligned, p.small))

  pub is_valid-pa_to_pte : is_valid (pa_to_pte pa flags) ≡ is_valid flags
  is_valid-pa_to_pte =
      rw pa_to_pte_lem
        (let e : (pa / page_size * 1024 + flags) % 2 ≡ flags % 2 = omega arith in rw e refl)

  pub is_leaf-pa_to_pte : is_leaf (pa_to_pte pa flags) ≡ is_leaf flags
  is_leaf-pa_to_pte =
      rw pa_to_pte_lem
        (let e : (pa / page_size * 1024 + flags) / 2 % 8 ≡ flags / 2 % 8 = omega arith in rw e refl)

pub child-pa_to_pte : (pa : ℕ) → IsPage pa → child (pa_to_pte pa pte_v) ≡ some pa
child-pa_to_pte pa p =
    rw
      (
        is_valid-pa_to_pte pa p pte_v (omega arith),
        is_leaf-pa_to_pte pa p pte_v (omega arith),
        pte_to_pa-pa_to_pte pa p pte_v (omega arith),
      )
      refl

pub with_v-lt : (flags : ℕ) → flags < 1024 → with_v flags < 1024
with_v-lt flags h = omega (arith, bit_or-one flags)

pub is_valid-with_v : (flags : ℕ) → is_valid (with_v flags) ≡ true
is_valid-with_v flags = ground (arith, bit_or-one flags)
