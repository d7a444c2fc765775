-- ===== src/Process/Areas.antt =====
-- `process_find_vma` finds the first area of the list that contains the address.
use thunderos.Prelude.{
  ℕ, ◌≡◌, ◌⊎◌, inl, inr, refl, ap, ◌∙◌, Option, none, some, List, [], ◌∷◌, true, false, Bool-cases,
}
use thunderos.Process.{VmArea, contains, process_find_vma}

abbrev pub IsIn : VmArea → List VmArea → Type 0
IsIn a [] = true ≡ false
IsIn a (b ∷ bs) = (a ≡ b) ⊎ IsIn a bs

-- The ends of `process_find_vma`.
pub data FindEnds (areas : List VmArea) (addr : ℕ) (r : Option VmArea) : Type 0 where
  unmapped :
      ((a : VmArea) → IsIn a areas → contains a addr ≡ false) → r ≡ none → FindEnds areas addr r
  found : (a : VmArea) → IsIn a areas → contains a addr ≡ true → r ≡ some a → FindEnds areas addr r

FindEnds-next :
    (b : VmArea) (areas : List VmArea) (addr : ℕ) (r : Option VmArea)
    → contains b addr ≡ false
    → FindEnds areas addr r
    → FindEnds (b ∷ areas) addr r
FindEnds-next b areas addr r h (unmapped f e) =
    unmapped (λ a i. elim i [ inl s ↦ ap (λ x. contains x addr) s ∙ h | inr j ↦ f a j ]) e
FindEnds-next b areas addr r h (found a i c e) = found a (inr i) c e

pub process_find_vma-FindEnds :
    (areas : List VmArea) (addr : ℕ) → FindEnds areas addr (process_find_vma areas addr)
unfolding process_find_vma
process_find_vma-FindEnds [] addr = unmapped (λ a i. cc i) refl
process_find_vma-FindEnds (b ∷ areas) addr = elim (Bool-cases (contains b addr)) [
  | inl h ↦ rw h (found b (inl refl) h refl)
  | inr h ↦ rw h (FindEnds-next b areas addr _ h (process_find_vma-FindEnds areas addr))
]
