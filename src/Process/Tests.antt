-- ===== src/Process/Tests.antt =====
-- The theorems on memory areas, groups and sessions at small processes.
use thunderos.Prelude.{
  ℕ, ◌+◌, ◌≤◌, ◌<◌, ◌≡◌, ◌≢◌, inl, inr, refl, sym, subst, ◌∙◌, ◌↔◌, none, some, List, [], ◌∷◌, true,
  ltb, ◌==◌, if◌then◌else◌, arith,
}
use thunderos.Errno.{ok}
use thunderos.Kernel.{ready, unused}
use thunderos.Process.{VmArea, contains, process_validate_user_ptr, process_find_vma}
use thunderos.Process.Pointer.{AreApart, Covers, process_validate_user_ptr-Covers}
use thunderos.Process.Groups.{Procs, is_live, max_procs, process_setpgid, process_setsid}
use thunderos.Process.Groups.Sessions.{
  IsOrderly, SetEnds, process_setpgid-SetEnds, process_setsid-IsOrderly,
}

-- Code that can be read, and data that can be written too.
abbrev code_area : VmArea
code_area = record { address = 64; start = 0x10000; end = 0x12000; flags = 13 }

abbrev data_area : VmArea
data_area = record { address = 128; start = 0x20000; end = 0x21000; flags = 11 }

abbrev two_areas : List VmArea
two_areas = code_area ∷ data_area ∷ []

two_areas-apart : AreApart two_areas
two_areas-apart a b x i j c d = elim i [
  | inl ea ↦ elim j [
    | inl eb ↦ ea ∙ sym eb
    | inr (inl eb) ↦ absurd (omega (arith, low a x ea c, high b x eb d))
    | inr (inr n) ↦ cc n
  ]
  | inr (inl ea) ↦ elim j [
    | inl eb ↦ absurd (omega (arith, low b x eb d, high a x ea c))
    | inr (inl eb) ↦ ea ∙ sym eb
    | inr (inr n) ↦ cc n
  ]
  | inr (inr n) ↦ cc n
]
  where
    low : (v : VmArea) (x : ℕ) → v ≡ code_area → contains v x ≡ true → x < 0x12000
    low v x e c =
        let h : contains code_area x ≡ true = subst (λ w. contains w x ≡ true) e c in
        ground (arith, h)

    high : (v : VmArea) (x : ℕ) → v ≡ data_area → contains v x ≡ true → 0x20000 ≤ x
    high v x e c =
        let h : contains data_area x ≡ true = subst (λ w. contains w x ≡ true) e c in
        ground (arith, h)

validate-data : process_validate_user_ptr two_areas 0x20ff0 16 2 ≡ true
unfolding process_validate_user_ptr process_find_vma
validate-data = refl

process_validate_user_ptr-Covers_example :
    (process_validate_user_ptr two_areas 0x20ff0 16 2 ≡ true)
    ↔ ((vma : VmArea) × Covers two_areas 0x20ff0 16 2 vma)
process_validate_user_ptr-Covers_example =
    process_validate_user_ptr-Covers two_areas 0x20ff0 16 2 (omega arith) (omega arith)
      two_areas-apart

-- Slot 0 has the process 1, which leads its session; slot 1 its child 2.
abbrev two_procs : Procs
two_procs = record {
  state = λ i. if ltb i 2 then ready else unused;
  pid = λ i. i + 1;
  pgid = λ _. 1;
  sid = λ _. 1;
  controlling_tty = λ _. 0;
  parent = λ i. if i == 1 then some 0 else none;
  current = some 0;
}

two_procs-IsOrderly : IsOrderly two_procs
two_procs-IsOrderly = record {
  own_pid = λ i j _ _ _ _ e. omega (arith, e);
  one_session = λ _ _ _ _ _ _ _. refl;
  named = λ _ _ _ _ _ _ _. refl;
}

process_setpgid-SetEnds_example : SetEnds two_procs (process_setpgid two_procs 2 0)
process_setpgid-SetEnds_example = process_setpgid-SetEnds two_procs 2 0 two_procs-IsOrderly

-- Processes 1, 2 and 3 are in one session; 2 has left the group with its number, where 3 still is.
abbrev left_group : Procs
left_group = record two_procs {
  state = λ i. if ltb i 3 then ready else unused;
  pgid = λ i. if i == 2 then 2 else 1;
  current = some 1;
}

left_group-IsOrderly : IsOrderly left_group
left_group-IsOrderly = record {
  own_pid = λ i j _ _ _ _ e. omega (arith, e);
  one_session = λ _ _ _ _ _ _ _. refl;
  named = λ _ _ _ _ _ _ _. refl;
}

process_setsid-IsOrderly_example :
    let (reply, q) = process_setsid left_group in
    (reply ≡ ok 2)
    × (IsOrderly q
        ↔ ((j : ℕ) → j < max_procs → is_live left_group j ≡ true → 1 ≢ j → left_group.pgid j ≢ 2))
process_setsid-IsOrderly_example =
    process_setsid-IsOrderly left_group 1 left_group-IsOrderly refl (omega arith) refl (omega arith)
      (omega arith)
