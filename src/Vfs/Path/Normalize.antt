-- ===== src/Vfs/Path/Normalize.antt =====
-- What `vfs_normalize_path` returns.
use thunderos.Prelude.{
  ℕ, suc, ◌≤◌, ◌<◌, ◌≡◌, ◌∙◌, sym, refl, ap, subst, Option, some, List, [], ◌∷◌, ◌++◌, true, false,
  ◌==◌, length, arith,
}
use thunderos.Vfs.{Text, found}
use thunderos.Vfs.Path.{
  slash, vfs_max_path, max_path_components, normalize_build_absolute, normalize_resolve_components,
  vfs_normalize_path, step_component,
}
use thunderos.Vfs.Path.Split.{split, steps, resolve_loop-steps}
use thunderos.Vfs.Path.Plain.{AreAll, IsPlain, IsPiece, Stored, steps-Stored, steps-plain, total}
use thunderos.Vfs.Path.Render.{
  render, slashed, length-render, split-slashed, split-IsPiece, total-split, copy_while-fits,
  write_components-render,
}
use thunderos.Vfs.Path.Working.{is_rooted, normalize_build_absolute-IsHeaded}

-- An absolute path of at most 64 plain components and at most 255 characters.
pub record IsCanonical (s : Text) : Type 0 where
  pub components : List Text
  pub text : s ≡ render components
  pub plain : AreAll IsPlain components
  pub few : length components ≤ max_path_components
  pub fits : total components < vfs_max_path

module _ (size : ℕ) (large : vfs_max_path ≤ size) where
  resolve-render :
      (t : Text)
      → total (steps [] (split t)) < vfs_max_path
      → normalize_resolve_components (slash ∷ t) size ≡ some (render (steps [] (split t)))
  unfolding normalize_resolve_components
  resolve-render t h =
      rw (normalize_resolve_components, resolve_loop-steps (suc (length t)) [] t (omega arith))
        (ap some (write_components-render size (steps [] (split t)) (omega (arith, h, large))))

  pub normalize-working :
      (cwd : Option Text) (path t : Text)
      → normalize_build_absolute cwd path vfs_max_path ≡ slash ∷ t
      → total (steps [] (split t)) < vfs_max_path
      → vfs_normalize_path cwd (some path) size ≡ some (found (render (steps [] (split t))))
  unfolding vfs_normalize_path
  normalize-working cwd path t e h =
      let some_room : (size == 0) ≡ false = ground (arith, large) in
      rw (some_room, e, resolve-render t h) refl

-- For a working directory that is absolute or missing and an output buffer of at least 256 bytes,
-- `vfs_normalize_path` returns, for every path, an absolute path of at most 255 characters and 64
-- components, none of which is empty, `.` or `..` or has a slash.
pub vfs_normalize_path-IsCanonical :
    (cwd : Option Text) (path : Text) (size : ℕ)
    → is_rooted cwd ≡ true
    → vfs_max_path ≤ size
    → (s : Text) × (vfs_normalize_path cwd (some path) size ≡ some (found s)) × IsCanonical s
vfs_normalize_path-IsCanonical cwd path size h large =
    let w = normalize_build_absolute-IsHeaded cwd path h in
    let short : suc (length w.tail) < vfs_max_path =
      subst (λ x. length x < vfs_max_path) w.head w.fits in
    let start : Stored [] 0 = record { plain = tt; few = omega arith; size = omega arith } in
    let kept =
      steps-Stored [] (split w.tail) 0 (split-IsPiece w.tail (omega (arith, short))) start in
    let fits : total (steps [] (split w.tail)) < vfs_max_path =
      omega (arith, kept.size, total-split w.tail, short) in
    (
      render (steps [] (split w.tail)),
      normalize-working size large cwd path w.tail w.head fits,
      record {
        components = steps [] (split w.tail);
        text = refl;
        plain = kept.plain;
        few = kept.few;
        fits = fits;
      },
    )

-- An absolute path that has the components `ws` is built as it is, and the loop goes over `ws`.
module _ (cwd : Option Text) (ws : List Text) (plain : AreAll IsPlain ws)
    (fits : total ws < vfs_max_path) where
  build-render :
      (t : Text)
      → render ws ≡ slash ∷ t
      → normalize_build_absolute cwd (render ws) vfs_max_path ≡ slash ∷ t
  unfolding normalize_build_absolute
  build-render t e = rw e (
      copy_while-fits 255 [] (slash ∷ t) (
        omega (
          arith,
          subst (λ x. length x ≤ 255) e (length-render ws 255 (omega (arith, fits)) (omega arith)),
        )))

AreAll-IsPiece : (ws : List Text) → AreAll IsPlain ws → AreAll IsPiece ws
AreAll-IsPiece [] h = tt
AreAll-IsPiece (w ∷ ws) h = (h.0.piece, AreAll-IsPiece ws h.1)

-- Every text of plain components is normalised by the steps over them.
pub normalize-render :
    (cwd : Option Text) (ws : List Text) (size : ℕ)
    → AreAll IsPlain ws
    → total ws < vfs_max_path
    → total (steps [] ws) < vfs_max_path
    → vfs_max_path ≤ size
    → vfs_normalize_path cwd (some (render ws)) size ≡ some (found (render (steps [] ws)))
unfolding step_component
normalize-render cwd [] size plain fits less large =
    normalize-working size large cwd (render []) [] (build-render cwd [] plain fits [] refl)
      (omega arith)
normalize-render cwd (w ∷ ws) size plain fits less large =
    let e = split-slashed w ws (AreAll-IsPiece (w ∷ ws) plain) in
    let f = ap (steps []) e in
    normalize-working size large cwd (render (w ∷ ws)) (w ++ slashed ws)
      (build-render cwd (w ∷ ws) plain fits (w ++ slashed ws) refl)
      (subst (λ x. total x < vfs_max_path) (sym f) less)
    ∙ ap (λ x. some (found (render x))) f

-- `vfs_normalize_path` leaves a path of the form that it returns as it is, whatever the working
-- directory, for an output buffer of at least 256 bytes.
pub vfs_normalize_path-canonical :
    (cwd : Option Text) (s : Text) (size : ℕ)
    → IsCanonical s
    → vfs_max_path ≤ size
    → vfs_normalize_path cwd (some s) size ≡ some (found s)
vfs_normalize_path-canonical cwd s size c large =
    let e : steps [] c.components ≡ c.components =
      steps-plain [] c.components c.plain (omega (arith, c.few)) in
    ap (λ x. vfs_normalize_path cwd (some x) size) c.text
    ∙ normalize-render cwd c.components size c.plain c.fits
        (subst (λ x. total x < vfs_max_path) (sym e) c.fits) large
    ∙ ap (λ x. some (found (render x))) e
    ∙ ap (λ x. some (found x)) (sym c.text)
