-- ===== src/Vfs/Path/Render.antt =====
-- The text of a list of components, and that the writing loop of `normalize_resolve_components`
-- gives it.
use thunderos.Prelude.{
  ℕ, suc, ◌+◌, ◌-◌, ◌≤◌, ◌<◌, ◌≡◌, ◌⊎◌, inl, inr, ◌∙◌, sym, refl, ap, List, [], ◌∷◌, ◌++◌, true,
  false, ◌==◌, ltb, length, length-append, append-nil, append_assoc, Bool-cases, arith,
}
use thunderos.Vfs.{Text}
use thunderos.Vfs.Path.{slash, copy_while, write_components}
use thunderos.Vfs.Path.Split.{split, later, cons_first}
use thunderos.Vfs.Path.Plain.{AreAll, IsPiece, has_slash, total}

-- Every component after a slash.
abbrev pub slashed : List Text → Text
slashed [] = []
slashed (w ∷ ws) = slash ∷ (w ++ slashed ws)

-- The absolute path with these components.
abbrev pub render : List Text → Text
render [] = slash ∷ []
render (w ∷ ws) = slashed (w ∷ ws)

length-slashed : (ws : List Text) → length (slashed ws) ≡ total ws
length-slashed [] = refl
length-slashed (w ∷ ws) = omega (arith, length-append w (slashed ws), length-slashed ws)

pub length-render :
    (ws : List Text) (most : ℕ) → total ws ≤ most → 0 < most → length (render ws) ≤ most
length-render [] most h p = p
length-render (w ∷ ws) most h p = omega (arith, length-slashed (w ∷ ws), h)

split_first :
    (w rest : Text)
    → has_slash w ≡ false
    → (rest ≡ []) ⊎ ((r : Text) × (rest ≡ slash ∷ r))
    → split (w ++ rest) ≡ w ∷ later rest
split_first [] rest h e = elim e [ inl n ↦ rw n refl | inr (r, s) ↦ rw s refl ]
split_first (c ∷ w) rest h e = elim (Bool-cases (c == slash)) [
  | inl g ↦ ground (arith, h, g)
  | inr g ↦ rw (g, split_first w rest (ground (arith, h, g)) e) refl
]

pub slashed-stops : (ws : List Text) → (slashed ws ≡ []) ⊎ ((r : Text) × (slashed ws ≡ slash ∷ r))
slashed-stops [] = inl refl
slashed-stops (w ∷ ws) = inr (w ++ slashed ws, refl)

-- The components of the text of components.
pub split-slashed :
    (w : Text) (ws : List Text) → AreAll IsPiece (w ∷ ws) → split (w ++ slashed ws) ≡ w ∷ ws
split-slashed w [] h = split_first w [] h.0.whole (slashed-stops [])
split-slashed w (v ∷ vs) h =
    split_first w (slashed (v ∷ vs)) h.0.whole (slashed-stops (v ∷ vs))
    ∙ ap (◌∷◌ w) (split-slashed v vs h.1)

-- The components of a text have no slash, and have its characters.
total-cons_first :
    (c : ℕ) (w : Text) (ws : List Text) → total (cons_first c (w ∷ ws)) ≡ suc (total (w ∷ ws))
total-cons_first c w ws = omega arith

AreAll-cons_first :
    (c : ℕ) (ws : List Text)
    → (c == slash) ≡ false
    → AreAll IsPiece ws
    → total ws < 256
    → AreAll IsPiece (cons_first c ws)
AreAll-cons_first c [] g h few = (record { whole = rw g refl; short = omega arith }, tt)
AreAll-cons_first c (w ∷ ws) g h few =
    (record { whole = rw (g, h.0.whole) refl; short = omega (arith, few) }, h.1)

pub total-split : (cs : Text) → total (split cs) ≡ suc (length cs)
total-split [] = refl
total-split (c ∷ cs) = elim (Bool-cases (c == slash)) [
  | inl h ↦ rw h (omega (arith, total-split cs))
  | inr h ↦ rw h (first (split cs) (total-split cs))
]
  where
    first :
        (ws : List Text)
        → total ws ≡ suc (length cs)
        → total (cons_first c ws) ≡ suc (suc (length cs))
    first [] e = absurd (omega (arith, e))
    first (w ∷ ws) e = omega (arith, e)

pub split-IsPiece : (cs : Text) → length cs < 256 → AreAll IsPiece (split cs)
split-IsPiece [] h = (record { whole = refl; short = omega arith }, tt)
split-IsPiece (c ∷ cs) h = elim (Bool-cases (c == slash)) [
  | inl g ↦ rw g (record { whole = refl; short = omega arith }, split-IsPiece cs (omega (arith, h)))
  | inr g ↦ rw g (
      AreAll-cons_first c (split cs) g (split-IsPiece cs (omega (arith, h)))
        (omega (arith, h, total-split cs)))
]

-- The copying loop.
pub copy_while-fits :
    (limit : ℕ) (out src : Text)
    → length out + length src ≤ limit
    → copy_while limit out src ≡ out ++ src
unfolding copy_while
copy_while-fits limit out [] h = sym (append-nil out)
copy_while-fits limit out (c ∷ src) h =
    let more : ltb (length out) limit ≡ true = ground (arith, h) in
    rw more (
      copy_while-fits limit (out ++ (c ∷ [])) src (omega (arith, h, length-append out (c ∷ [])))
      ∙ append_assoc out (c ∷ []) src)

pub length-copy_while :
    (limit : ℕ) (out src : Text) → length out ≤ limit → length (copy_while limit out src) ≤ limit
unfolding copy_while
length-copy_while limit out [] h = h
length-copy_while limit out (c ∷ src) h = elim (Bool-cases (ltb (length out) limit)) [
  | inr full ↦ rw full h
  | inl more ↦ rw more (
      length-copy_while limit (out ++ (c ∷ [])) src
        (ground (arith, more, length-append out (c ∷ []))))
]

pub copy_while-starts :
    (limit : ℕ) (out src : Text) → (more : Text) × (copy_while limit out src ≡ out ++ more)
unfolding copy_while
copy_while-starts limit out [] = ([], sym (append-nil out))
copy_while-starts limit out (c ∷ src) = elim (Bool-cases (ltb (length out) limit)) [
  | inr full ↦ rw full ([], sym (append-nil out))
  | inl more ↦
      let (rest, e) = copy_while-starts limit (out ++ (c ∷ [])) src in
      rw more (c ∷ rest, e ∙ append_assoc out (c ∷ []) rest)
]

pub write_components-slashed :
    (size : ℕ) (out w : Text) (ws : List Text)
    → length out + length w + total ws ≤ size - 1
    → write_components size out (w ∷ ws) ≡ out ++ (w ++ slashed ws)
unfolding write_components
write_components-slashed size out w [] h =
    copy_while-fits (size - 1) out w (omega (arith, h)) ∙ sym (ap (◌++◌ out) (append-nil w))
write_components-slashed size out w (v ∷ vs) h =
    let fits = copy_while-fits (size - 1) out w (omega (arith, h)) in
    let room : ltb (length (out ++ w)) (size - 1) ≡ true = ground (arith, h, length-append out w) in
    rw (fits, room)
      (write_components-slashed size ((out ++ w) ++ (slash ∷ [])) v vs
          (omega (arith, h, length-append (out ++ w) (slash ∷ []), length-append out w))
        ∙ append_assoc (out ++ w) (slash ∷ []) (v ++ slashed vs)
        ∙ append_assoc out w (slashed (v ∷ vs)))

-- The writing loop gives the text of the components, when it fits.
pub write_components-render :
    (size : ℕ) (ws : List Text)
    → total ws ≤ size - 1
    → write_components size (slash ∷ []) ws ≡ render ws
unfolding write_components
write_components-render size [] h = refl
write_components-render size (w ∷ ws) h =
    write_components-slashed size (slash ∷ []) w ws (omega (arith, h))
