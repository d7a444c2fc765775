-- ===== src/Process/Pointer.antt =====
-- What `process_validate_user_ptr` accepts.
use thunderos.Prelude.{
  ℕ, ◌+◌, ◌≤◌, ◌<◌, ◌^◌, ◌%◌, ◌≡◌, ◌≢◌, inl, inr, refl, ap, sym, ◌∙◌, ◌↔◌, some, List, Bool, true,
  false, ◌==◌, ltb, leb, not, ◌&&◌, ◌||◌, Bool-cases, bit_and, arith,
}
use thunderos.Process.{
  VmArea, contains, process_find_vma, process_validate_user_ptr, is_covered, kernel_virt_base,
}
use thunderos.Process.Areas.{IsIn, unmapped, found, process_find_vma-FindEnds}

-- No address is in two areas.
abbrev pub AreApart : List VmArea → Type 0
AreApart areas =
    (a b : VmArea) (addr : ℕ)
    → IsIn a areas
    → IsIn b areas
    → contains a addr ≡ true
    → contains b addr ≡ true
    → a ≡ b

-- A range of user addresses that lies in one area with all the flags.
pub record Covers (areas : List VmArea) (ptr size required_flags : ℕ) (vma : VmArea) : Type 0 where
  pub listed : IsIn vma areas
  pub not_null : ptr ≢ 0
  pub some_bytes : size ≢ 0
  pub from : vma.start ≤ ptr
  pub to : ptr + size ≤ vma.end
  pub in_user : ptr + size < kernel_virt_base
  pub allowed : bit_and vma.flags required_flags ≡ required_flags

module _ (areas : List VmArea) (ptr size required_flags : ℕ) (word : ptr < 2 ^ 64)
    (words : size < 2 ^ 64) where
  -- The tests before the search.
  abbrev in_range : Bool
  in_range =
      not ((ptr == 0) || (size == 0))
      && not (leb kernel_virt_base ptr)
      && ltb (ptr + size) kernel_virt_base

  validate-in_range :
      in_range ≡ true
      → process_validate_user_ptr areas ptr size required_flags
        ≡ is_covered (process_find_vma areas ptr) (ptr + size) required_flags
  unfolding process_validate_user_ptr
  validate-in_range h =
      let nothing : ((ptr == 0) || (size == 0)) ≡ false = ground (arith, h) in
      let sum : (ptr + size) % 2 ^ 64 ≡ ptr + size = ground (arith, h) in
      let user : (leb kernel_virt_base ptr || leb kernel_virt_base (ptr + size)) ≡ false =
        ground (arith, h) in
      let grows : ltb (ptr + size) ptr ≡ false = ground arith in rw (nothing, sum, user, grows) refl

  validate-out_of_range :
      in_range ≡ false → process_validate_user_ptr areas ptr size required_flags ≡ false
  unfolding process_validate_user_ptr
  validate-out_of_range h =
      let end = (ptr + size) % 2 ^ 64 in
      elim (Bool-cases ((ptr == 0) || (size == 0))) [
        | inl a ↦ rw a refl
        | inr a ↦ elim (Bool-cases (leb kernel_virt_base ptr || leb kernel_virt_base end)) [
          | inl b ↦ rw (a, b) refl
          | inr b ↦ elim (Bool-cases (ltb end ptr)) [
            | inl c ↦ rw (a, b, c) refl
            | inr c ↦ absurd (within a b c)
          ]
        ]
      ]
    where
      within :
          ((ptr == 0) || (size == 0)) ≡ false
          → (leb kernel_virt_base ptr || leb kernel_virt_base ((ptr + size) % 2 ^ 64)) ≡ false
          → ltb ((ptr + size) % 2 ^ 64) ptr ≡ false
          → ⊥
      within a b c =
          let low : ptr < kernel_virt_base = ground (arith, b) in
          let end_low : (ptr + size) % 2 ^ 64 < kernel_virt_base = ground (arith, b) in
          let up : ptr ≤ (ptr + size) % 2 ^ 64 = ground (arith, c) in
          let sum : ptr + size < kernel_virt_base = omega (arith, low, end_low, up, word, words) in
          ground (arith, h, a, low, sum)

  covered-all :
      (vma : VmArea)
      → (is_covered (some vma) (ptr + size) required_flags ≡ true)
      → (ptr + size ≤ vma.end) × (bit_and vma.flags required_flags ≡ required_flags)
  covered-all vma h = (ground (arith, h), ground (arith, h))

  accepted :
      in_range ≡ true
      → is_covered (process_find_vma areas ptr) (ptr + size) required_flags ≡ true
      → (vma : VmArea) × Covers areas ptr size required_flags vma
  accepted range h = elim (process_find_vma-FindEnds areas ptr) [
    | unmapped f e ↦ cc (ap (λ r. is_covered r (ptr + size) required_flags) (sym e) ∙ h)
    | found vma i c e ↦
        let (to, allowed) =
          covered-all vma (ap (λ r. is_covered r (ptr + size) required_flags) (sym e) ∙ h) in
        (
          vma,
          record {
            listed = i;
            not_null = ground (arith, range);
            some_bytes = ground (arith, range);
            from = ground (arith, c);
            to = to;
            in_user = ground (arith, range);
            allowed = allowed;
          },
        )
  ]

  accepts_covered :
      AreApart areas
      → (vma : VmArea) → Covers areas ptr size required_flags vma
      → is_covered (process_find_vma areas ptr) (ptr + size) required_flags ≡ true
  accepts_covered apart vma c = elim (process_find_vma-FindEnds areas ptr) [
    | unmapped f e ↦ cc (f vma c.listed, inside)
    | found other i d e ↦
        let same : other ≡ vma = apart other vma ptr i c.listed d inside in
        ap (λ r. is_covered r (ptr + size) required_flags) (e ∙ ap some same) ∙ whole
  ]
    where
      inside : contains vma ptr ≡ true
      inside = ground (arith, c.from, c.to, c.some_bytes)

      whole : is_covered (some vma) (ptr + size) required_flags ≡ true
      whole = ground (arith, c.to, c.allowed)

  -- For a process whose areas do not overlap, `process_validate_user_ptr` accepts a pointer and a
  -- size of 64 bits exactly when the pointer is not NULL, the size is not 0, and all the bytes from
  -- the pointer on, which end below the kernel's base without wrapping round, lie in one area of
  -- the process that has all the flags that are asked for.
  pub process_validate_user_ptr-Covers :
      AreApart areas
      → (process_validate_user_ptr areas ptr size required_flags ≡ true)
        ↔ ((vma : VmArea) × Covers areas ptr size required_flags vma)
  process_validate_user_ptr-Covers apart = (forth, back)
    where
      forth :
          process_validate_user_ptr areas ptr size required_flags ≡ true
          → (vma : VmArea) × Covers areas ptr size required_flags vma
      forth h = elim (Bool-cases in_range) [
        | inr r ↦ cc (validate-out_of_range r, h)
        | inl r ↦ accepted r (sym (validate-in_range r) ∙ h)
      ]

      back :
          (vma : VmArea) × Covers areas ptr size required_flags vma
          → process_validate_user_ptr areas ptr size required_flags ≡ true
      back (vma, c) =
          let range : in_range ≡ true = ground (arith, c.not_null, c.some_bytes, c.in_user) in
          validate-in_range range ∙ accepts_covered apart vma c
