-- ===== src/Vfs/Path/Split.antt =====
-- The components of a path: the text between its slashes. The loop of
-- `normalize_resolve_components` goes over them.
use thunderos.Prelude.{
  ℕ, zero, suc, ◌≤◌, ◌≡◌, ◌⊎◌, inl, inr, ◌∙◌, sym, refl, ap, some, List, [], ◌∷◌, ◌==◌,
  if◌then◌else◌, length, Bool-cases, arith,
}
use thunderos.Vfs.{Text}
use thunderos.Vfs.Path.{slash, scan, skip_slash, step_component, resolve_loop}

abbrev pub cons_first : ℕ → List Text → List Text
cons_first c [] = (c ∷ []) ∷ []
cons_first c (w ∷ ws) = (c ∷ w) ∷ ws

abbrev pub split : Text → List Text
split [] = [] ∷ []
split (c ∷ cs) = if c == slash then [] ∷ split cs else cons_first c (split cs)

-- The components after the first one, by where `scan` stops.
abbrev pub later : Text → List Text
later [] = []
later (c ∷ cs) = split cs

pub split-scan : (cs : Text) → split cs ≡ (scan cs).0 ∷ later (scan cs).1
split-scan [] = refl
split-scan (c ∷ cs) = elim (Bool-cases (c == slash)) [
  | inl h ↦ rw h refl
  | inr h ↦ rw (h, split-scan cs) refl
]

pub scan-stops : (cs : Text) → ((scan cs).1 ≡ []) ⊎ ((rest : Text) × ((scan cs).1 ≡ slash ∷ rest))
scan-stops [] = inl refl
scan-stops (c ∷ cs) = elim (Bool-cases (c == slash)) [
  | inl h ↦ rw h (inr (cs, ap (λ x. x ∷ cs) (ground (arith, h))))
  | inr h ↦ rw h (scan-stops cs)
]

length-scan : (cs : Text) → length (scan cs).1 ≤ length cs
length-scan [] = omega arith
length-scan (c ∷ cs) = elim (Bool-cases (c == slash)) [
  | inl h ↦ rw h (omega arith)
  | inr h ↦ rw h (omega (arith, length-scan cs))
]

length-skip_slash : (cs : Text) → length (skip_slash cs) ≤ length cs
length-skip_slash [] = omega arith
length-skip_slash (c ∷ cs) = elim (Bool-cases (c == slash)) [
  | inl h ↦ rw h (omega arith)
  | inr h ↦ rw h (omega arith)
]

-- The loop makes progress.
pub scan-shorter : (c : ℕ) (cs : Text) → length (skip_slash (scan (c ∷ cs)).1) ≤ length cs
scan-shorter c cs = elim (Bool-cases (c == slash)) [
  | inl h ↦ rw (h, h) (omega arith)
  | inr h ↦ rw h (omega (arith, length-scan cs, length-skip_slash (scan cs).1))
]

-- The components one after the other.
abbrev pub steps : List Text → List Text → List Text
steps stored [] = stored
steps stored (w ∷ ws) = steps (step_component stored w) ws

steps-later :
    (stored : List Text) (rest : Text)
    → (rest ≡ []) ⊎ ((r : Text) × (rest ≡ slash ∷ r))
    → steps stored (split (skip_slash rest)) ≡ steps stored (later rest)
unfolding step_component
steps-later stored rest stops = elim stops [ inl e ↦ rw e refl | inr (r, e) ↦ rw e refl ]

-- As many rounds as there are characters suffice, and the loop takes the components in their order.
pub resolve_loop-steps :
    (rounds : ℕ) (stored : List Text) (cs : Text)
    → length cs ≤ rounds
    → resolve_loop rounds stored cs ≡ some (steps stored (split cs))
unfolding resolve_loop step_component
resolve_loop-steps rounds stored [] h = refl
resolve_loop-steps zero stored (c ∷ cs) h = absurd (omega (arith, h))
resolve_loop-steps (suc rounds) stored (c ∷ cs) h =
    let w = (scan (c ∷ cs)).0 in
    let rest = (scan (c ∷ cs)).1 in
    let next = step_component stored w in
    resolve_loop-steps rounds next (skip_slash rest) (omega (arith, h, scan-shorter c cs))
    ∙ ap some (
        steps-later next rest (scan-stops (c ∷ cs)) ∙ sym (ap (steps stored) (split-scan (c ∷ cs))))
