-- ===== src/Vfs/Path/Reference.antt =====
-- `vfs_normalize_path` against a reference that has no buffers.
use thunderos.Prelude.{
  ℕ, suc, ◌+◌, ◌-◌, ◌≤◌, ◌<◌, ◌≡◌, inl, inr, ◌∙◌, sym, refl, ap, subst, Option, some, List, [], ◌∷◌,
  ◌++◌, true, if◌then◌else◌, length, length-append, take, Bool-cases, arith,
}
use thunderos.Vfs.{Text, found}
use thunderos.Vfs.Path.{
  slash, is_skipped, is_parent, skip_slash, vfs_max_path, max_path_components, vfs_normalize_path,
  step_component,
}
use thunderos.Vfs.Path.Split.{split, steps}
use thunderos.Vfs.Path.Plain.{
  AreAll, IsPlain, IsPiece, Stored, steps-Stored, steps-plain, total, total-append, length-take_le,
  AreAll-append, step-skipped, step-parent, step-plain, step-full,
}
use thunderos.Vfs.Path.Render.{render, split-IsPiece, total-split}
use thunderos.Vfs.Path.Working.{
  is_rooted, absolute, normalize_build_absolute-absolute, normalize_build_absolute-IsHeaded,
}
use thunderos.Vfs.Path.Normalize.{normalize-working, normalize-render}

-- The names that are left of a path, without a limit on their number: an empty component and `.` are
-- nothing, and `..` takes the last name away.
abbrev pub names : List Text → List Text → List Text
names left [] = left
names left (w ∷ ws) =
    if is_skipped w
    then names left ws
    else if is_parent w
    then names (take (length left - 1) left) ws
    else names (left ++ (w ∷ [])) ws

steps-names :
    (left ws : List Text)
    → AreAll IsPiece ws
    → length left + length ws ≤ max_path_components
    → steps left ws ≡ names left ws
steps-names left [] h e = refl
steps-names left (w ∷ ws) h e = elim (Bool-cases (is_skipped w)) [
  | inl s ↦
      rw s
        (ap (λ x. steps x ws) (step-skipped left w s) ∙ steps-names left ws h.1 (omega (arith, e)))
  | inr s ↦ elim (Bool-cases (is_parent w)) [
    | inl p ↦
        rw (s, p)
          (ap (λ x. steps x ws) (step-parent left w s p)
            ∙ steps-names (take (length left - 1) left) ws h.1
                (omega (arith, e, length-take_le (length left - 1) left)))
    | inr p ↦
        let plain : IsPlain w = record { piece = h.0; named = s; down = p } in
        rw (s, p)
          (ap (λ x. steps x ws) (step-plain left w plain (omega (arith, e)))
            ∙ steps-names (left ++ (w ∷ [])) ws h.1 (omega (arith, e, length-append left (w ∷ []))))
  ]
]

-- The steps over 64 plain components leave no slot for another one.
steps-append : (left ws vs : List Text) → steps left (ws ++ vs) ≡ steps (steps left ws) vs
steps-append left [] vs = refl
steps-append left (w ∷ ws) vs = steps-append (step_component left w) ws vs

steps-full :
    (ws : List Text) (w : Text)
    → AreAll IsPlain ws
    → length ws ≡ max_path_components
    → IsPlain w
    → steps [] (ws ++ (w ∷ [])) ≡ ws
steps-full ws w plain full last =
    steps-append [] ws (w ∷ [])
    ∙ ap (λ x. step_component x w) (steps-plain [] ws plain (omega (arith, full)))
    ∙ step-full ws w last.named last.down (ground (arith, full))

-- `vfs_normalize_path` is the reference on every path whose absolute form has less than 256
-- characters and at most 64 components: the text of the names that are left of its components. The
-- working directory is absolute or missing, and the output buffer has at least 256 bytes.
pub vfs_normalize_path-names :
    (cwd : Option Text) (path : Text) (size : ℕ)
    → is_rooted cwd ≡ true
    → vfs_max_path ≤ size
    → length (absolute cwd path) < vfs_max_path
    → length (split (skip_slash (absolute cwd path))) ≤ max_path_components
    → vfs_normalize_path cwd (some path) size
      ≡ some (found (render (names [] (split (skip_slash (absolute cwd path))))))
vfs_normalize_path-names cwd path size rooted large short few =
    let w = normalize_build_absolute-IsHeaded cwd path rooted in
    let built = normalize_build_absolute-absolute cwd path short in
    let e : absolute cwd path ≡ slash ∷ w.tail = sym built ∙ w.head in
    let here : suc (length w.tail) < vfs_max_path = subst (λ x. length x < vfs_max_path) e short in
    let pieces = split-IsPiece w.tail (omega (arith, here)) in
    let start : Stored [] 0 = record { plain = tt; few = omega arith; size = omega arith } in
    let kept = steps-Stored [] (split w.tail) 0 pieces start in
    let same : steps [] (split w.tail) ≡ names [] (split w.tail) =
      steps-names [] (split w.tail) pieces
        (omega (arith, subst (λ x. length (split (skip_slash x)) ≤ max_path_components) e few)) in
    rw e (
      normalize-working size large cwd path w.tail w.head
        (omega (arith, kept.size, total-split w.tail, here))
      ∙ ap (λ x. some (found (render x))) same)

-- The component that comes after 64 others is lost without an error: `vfs_normalize_path` gives
-- the path without it, a directory above. All 65 are plain, their text has less than 256
-- characters, and the output buffer has at least 256 bytes.
pub vfs_normalize_path-loses :
    (cwd : Option Text) (ws : List Text) (w : Text) (size : ℕ)
    → AreAll IsPlain ws
    → length ws ≡ max_path_components
    → IsPlain w
    → total (ws ++ (w ∷ [])) < vfs_max_path
    → vfs_max_path ≤ size
    → vfs_normalize_path cwd (some (render (ws ++ (w ∷ [])))) size ≡ some (found (render ws))
vfs_normalize_path-loses cwd ws w size plain full last fits large =
    let e = steps-full ws w plain full last in
    normalize-render cwd (ws ++ (w ∷ [])) size (AreAll-append IsPlain ws w plain last) fits
      (subst (λ x. total x < vfs_max_path) (sym e) (omega (arith, fits, total-append ws (w ∷ []))))
      large
    ∙ ap (λ x. some (found (render x))) e
