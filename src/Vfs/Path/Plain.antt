-- ===== src/Vfs/Path/Plain.antt =====
-- The components that a normalised path may have, and that the loop of `normalize_resolve_components`
-- stores no others.
use thunderos.Prelude.{
  ℕ, zero, suc, ◌+◌, ◌-◌, ◌≤◌, ◌<◌, ◌≡◌, inl, inr, ◌∙◌, sym, refl, ap, List, [], ◌∷◌, ◌++◌, Bool,
  true, false, ◌==◌, ltb, ◌||◌, length, length-append, take, append_assoc, append-nil, subst,
  Bool-cases, arith,
}
use thunderos.Vfs.{Text}
use thunderos.Vfs.Path.{slash, is_skipped, is_parent, step_component, max_path_components}
use thunderos.Vfs.Path.Split.{steps}

abbrev pub has_slash : Text → Bool
has_slash [] = false
has_slash (c ∷ cs) = (c == slash) || has_slash cs

-- A component without a slash that fits in a slot of the storage.
pub record IsPiece (w : Text) : Type 0 where
  pub whole : has_slash w ≡ false
  pub short : length w < 256

-- A component that stands for itself.
pub record IsPlain (w : Text) : Type 0 where
  pub piece : IsPiece w
  pub named : is_skipped w ≡ false
  pub down : is_parent w ≡ false

abbrev pub AreAll : (Text → Type 0) → List Text → Type 0
AreAll P [] = Unit {0}
AreAll P (w ∷ ws) = P w × AreAll P ws

-- The characters of the components, each with a slash.
abbrev pub total : List Text → ℕ
total [] = 0
total (w ∷ ws) = suc (length w) + total ws

module _ (P : Text → Type 0) where
  AreAll-take : (n : ℕ) (ws : List Text) → AreAll P ws → AreAll P (take n ws)
  AreAll-take zero ws h = tt
  AreAll-take (suc n) [] h = tt
  AreAll-take (suc n) (w ∷ ws) h = (h.0, AreAll-take n ws h.1)

  pub AreAll-append : (ws : List Text) (w : Text) → AreAll P ws → P w → AreAll P (ws ++ (w ∷ []))
  AreAll-append [] w h p = (p, tt)
  AreAll-append (v ∷ ws) w h p = (h.0, AreAll-append ws w h.1 p)

total-take : (n : ℕ) (ws : List Text) → total (take n ws) ≤ total ws
total-take zero ws = omega arith
total-take (suc n) [] = omega arith
total-take (suc n) (w ∷ ws) = omega (arith, total-take n ws)

pub total-append : (ws vs : List Text) → total (ws ++ vs) ≡ total ws + total vs
total-append [] vs = omega arith
total-append (w ∷ ws) vs = omega (arith, total-append ws vs)

pub take_all : {A : Type 0} (n : ℕ) (ws : List A) → length ws ≤ n → take n ws ≡ ws
take_all zero [] h = refl
take_all (suc n) [] h = refl
take_all zero (w ∷ ws) h = absurd (omega (arith, h))
take_all (suc n) (w ∷ ws) h = ap (◌∷◌ w) (take_all n ws (omega (arith, h)))

pub length-take_le : {A : Type 0} (n : ℕ) (ws : List A) → length (take n ws) ≤ length ws
length-take_le zero ws = omega arith
length-take_le (suc n) [] = omega arith
length-take_le (suc n) (w ∷ ws) = omega (arith, length-take_le n ws)

-- What the loop keeps of the stored components.
pub record Stored (ws : List Text) (most : ℕ) : Type 0 where
  pub plain : AreAll IsPlain ws
  pub few : length ws ≤ max_path_components
  pub size : total ws ≤ most

-- A component is skipped, or takes the last one away, or is stored, or there is no slot for it.
module _ (ws : List Text) (w : Text) where
  pub step-skipped : is_skipped w ≡ true → step_component ws w ≡ ws
  unfolding step_component
  step-skipped h = rw h refl

  pub step-parent :
      is_skipped w ≡ false → is_parent w ≡ true → step_component ws w ≡ take (length ws - 1) ws
  unfolding step_component
  step-parent h g = rw (h, g) refl

  pub step-plain :
      IsPlain w → length ws < max_path_components → step_component ws w ≡ ws ++ (w ∷ [])
  unfolding step_component
  step-plain p h =
      let e : ltb (length ws) max_path_components ≡ true = ground (arith, h) in
      rw (p.named, p.down, e)
        (ap (λ v. ws ++ (v ∷ [])) (take_all 255 w (omega (arith, p.piece.short))))

  pub step-full :
      is_skipped w ≡ false
      → is_parent w ≡ false
      → ltb (length ws) max_path_components ≡ false
      → step_component ws w ≡ ws
  unfolding step_component
  step-full h g e = rw (h, g, e) refl

  step_component-Stored :
      (most : ℕ) → IsPiece w → Stored ws most → Stored (step_component ws w) (most + suc (length w))
  step_component-Stored most piece s = elim (Bool-cases (is_skipped w)) [
    | inl h ↦ rw (step-skipped h) wider
    | inr h ↦ elim (Bool-cases (is_parent w)) [
      | inl g ↦ rw (step-parent h g) popped
      | inr g ↦ elim (Bool-cases (ltb (length ws) max_path_components)) [
        | inr e ↦ rw (step-full h g e) wider
        | inl e ↦
            let p : IsPlain w = record { piece = piece; named = h; down = g } in
            rw (step-plain p (ground (arith, e))) (record {
              plain = AreAll-append IsPlain ws w s.plain p;
              few = ground (arith, e, length-append ws (w ∷ []));
              size = omega (arith, s.size, total-append ws (w ∷ []));
            })
      ]
    ]
  ]
    where
      wider : Stored ws (most + suc (length w))
      wider = record { plain = s.plain; few = s.few; size = omega (arith, s.size) }

      popped : Stored (take (length ws - 1) ws) (most + suc (length w))
      popped = record {
        plain = AreAll-take IsPlain (length ws - 1) ws s.plain;
        few = omega (arith, s.few, length-take_le (length ws - 1) ws);
        size = omega (arith, s.size, total-take (length ws - 1) ws);
      }

pub steps-Stored :
    (ws vs : List Text) (most : ℕ)
    → AreAll IsPiece vs
    → Stored ws most
    → Stored (steps ws vs) (most + total vs)
steps-Stored ws [] most h s = subst (Stored ws) (omega arith) s
steps-Stored ws (v ∷ vs) most h s = subst (Stored (steps ws (v ∷ vs))) (omega arith) (
    steps-Stored (step_component ws v) vs (most + suc (length v)) h.1
      (step_component-Stored ws v most h.0 s))

-- Plain components are all stored, while there is room.
pub steps-plain :
    (ws vs : List Text)
    → AreAll IsPlain vs
    → length ws + length vs ≤ max_path_components
    → steps ws vs ≡ ws ++ vs
steps-plain ws [] h e = sym (append-nil ws)
steps-plain ws (v ∷ vs) h e =
    ap (λ x. steps x vs) (step-plain ws v h.0 (omega (arith, e)))
    ∙ steps-plain (ws ++ (v ∷ [])) vs h.1 (omega (arith, e, length-append ws (v ∷ [])))
    ∙ append_assoc ws (v ∷ []) vs
