-- ===== src/Vfs/Path/Walk.antt =====
-- `vfs_resolve_path` goes through the directories that a path names.
use thunderos.Prelude.{
  ℕ, zero, suc, ◌≤◌, ◌≡◌, ◌⊎◌, inl, inr, ◌∙◌, refl, ap, Option, some, List, [], ◌∷◌, ◌++◌, true,
  false, ◌==◌, ◌&&◌, if◌then◌else◌, length, length-append, take, drop, Bool-cases, arith,
}
use thunderos.Vfs.{Text, Outcome, found, failed}
use thunderos.Vfs.Path.{
  slash, is_empty, scan, skip_slash, starts_with_slash, vfs_max_path, vfs_normalize_path, lookup_in,
  walk_loop, vfs_resolve_path,
}
use thunderos.Vfs.Path.Plain.{AreAll, IsPlain, has_slash, take_all}
use thunderos.Vfs.Path.Render.{render, slashed, slashed-stops}
use thunderos.Vfs.Path.Working.{is_rooted}
use thunderos.Vfs.Path.Normalize.{vfs_normalize_path-IsCanonical}

scan-first :
    (w rest : Text)
    → has_slash w ≡ false
    → (rest ≡ []) ⊎ ((r : Text) × (rest ≡ slash ∷ r))
    → scan (w ++ rest) ≡ (w, rest)
scan-first [] rest h e = elim e [ inl n ↦ rw n refl | inr (r, s) ↦ rw s refl ]
scan-first (c ∷ w) rest h e = elim (Bool-cases (c == slash)) [
  | inl g ↦ ground (arith, h, g)
  | inr g ↦ rw (g, scan-first w rest (ground (arith, h, g)) e) refl
]

module _ {N : Type 0} (ops : N → Option (Text → Outcome N)) where
  -- The node that the names lead to, one directory after the other.
  abbrev pub lookup_all : N → List Text → Outcome N
  lookup_all node [] = found node
  lookup_all node (w ∷ ws) = elim (lookup_in ops node w) [
    | failed e ↦ failed e
    | found next ↦ lookup_all next ws
  ]

  -- What follows a lookup.
  abbrev next_or : (N → Option (Outcome N)) → Outcome N → Option (Outcome N)
  next_or go (failed e) = some (failed e)
  next_or go (found next) = go next

  -- A round of the walk, from what `scan` has found.
  abbrev round : ℕ → N → Text × Text → Option (Outcome N)
  round rounds node (name, rest) =
      let go : N → Option (Outcome N) = λ next. walk_loop ops rounds next (skip_slash rest) in
      if is_empty name then go node else next_or go (lookup_in ops node (take 255 name))

  walk_loop-round :
      (rounds : ℕ) (node : N) (c : ℕ) (cs : Text)
      → walk_loop ops (suc rounds) node (c ∷ cs) ≡ round rounds node (scan (c ∷ cs))
  unfolding walk_loop
  walk_loop-round rounds node c cs =
      let (name, rest) = scan (c ∷ cs) in
      ap (λ x. if is_empty name then walk_loop ops rounds node (skip_slash rest) else x)
        (answer rest (lookup_in ops node (take 255 name)))
    where
      answer :
          (rest : Text) (r : Outcome N)
          → (elim r [
            | failed e ↦ some (failed e)
            | found next ↦ walk_loop ops rounds next (skip_slash rest)
          ])
            ≡ next_or (λ next. walk_loop ops rounds next (skip_slash rest)) r
      answer rest (failed e) = refl
      answer rest (found next) = refl

  walk_round :
      (rounds : ℕ) (node : N) (w rest : Text)
      → IsPlain w
      → (rest ≡ []) ⊎ ((r : Text) × (rest ≡ slash ∷ r))
      → walk_loop ops (suc rounds) node (w ++ rest)
        ≡ next_or (λ next. walk_loop ops rounds next (skip_slash rest)) (lookup_in ops node w)
  walk_round rounds node [] rest p stops = cc p.named
  walk_round rounds node (c ∷ cs) rest p stops =
      walk_loop-round rounds node c (cs ++ rest)
      ∙ ap (round rounds node) (scan-first (c ∷ cs) rest p.piece.whole stops)
      ∙ ap
          (λ x.
            next_or (λ next. walk_loop ops rounds next (skip_slash rest)) (lookup_in ops node x))
          (take_all 255 (c ∷ cs) (omega (arith, p.piece.short)))

  next_all :
      (go : N → Option (Outcome N)) (vs : List Text)
      → ((next : N) → go next ≡ some (lookup_all next vs))
      → (r : Outcome N)
      → next_or go r ≡ some (elim r [ failed e ↦ failed e | found next ↦ lookup_all next vs ])
  next_all go vs h (failed e) = refl
  next_all go vs h (found next) = h next

  walk_loop-end : (rounds : ℕ) (node : N) → walk_loop ops rounds node [] ≡ some (found node)
  unfolding walk_loop
  walk_loop-end zero node = refl
  walk_loop-end (suc rounds) node = refl

  -- As many rounds as there are characters suffice.
  pub walk_loop-lookup_all :
      (rounds : ℕ) (node : N) (w : Text) (ws : List Text)
      → AreAll IsPlain (w ∷ ws)
      → length (w ++ slashed ws) ≤ rounds
      → walk_loop ops rounds node (w ++ slashed ws) ≡ some (lookup_all node (w ∷ ws))
  walk_loop-lookup_all zero node [] ws h l = cc h.0.named
  walk_loop-lookup_all zero node (c ∷ cs) ws h l = absurd (omega (arith, l))
  walk_loop-lookup_all (suc rounds) node w [] h l =
      walk_round rounds node w [] h.0 (inl refl)
      ∙ next_all (λ next. walk_loop ops rounds next []) [] (walk_loop-end rounds)
          (lookup_in ops node w)
  walk_loop-lookup_all (suc rounds) node w (v ∷ vs) h l =
      walk_round rounds node w (slashed (v ∷ vs)) h.0 (slashed-stops (v ∷ vs))
      ∙ next_all (λ next. walk_loop ops rounds next (v ++ slashed vs)) (v ∷ vs)
          (λ next.
            walk_loop-lookup_all rounds next v vs h.1
              (omega (arith, l, length-append w (slashed (v ∷ vs)))))
          (lookup_in ops node w)

  walk_render :
      (root : N) (ws : List Text)
      → AreAll IsPlain ws
      → (if starts_with_slash (render ws) && (length (render ws) == 1)
          then some (found root)
          else walk_loop ops (length (render ws)) root (drop 1 (render ws)))
        ≡ some (lookup_all root ws)
  walk_render root [] h = refl
  walk_render root ([] ∷ ws) h = cc h.0.named
  walk_render root ((c ∷ cs) ∷ ws) h =
      let more : (length (render ((c ∷ cs) ∷ ws)) == 1) ≡ false = ground arith in
      rw more
        (walk_loop-lookup_all (length (render ((c ∷ cs) ∷ ws))) root (c ∷ cs) ws h (omega arith))

  -- `vfs_resolve_path` on a mounted root, for every path and a working directory that is absolute or
  -- missing: it looks up one after the other, from the root, the components of the path that
  -- `vfs_normalize_path` gives, all of them plain names, and it returns the node at the end or the
  -- first failure.
  pub vfs_resolve_path-lookup_all :
      (root : N) (cwd : Option Text) (path : Text)
      → is_rooted cwd ≡ true
      → (ws : List Text) × AreAll IsPlain ws
        × (vfs_normalize_path cwd (some path) vfs_max_path ≡ some (found (render ws)))
        × (vfs_resolve_path ops (some root) cwd (some path) ≡ some (lookup_all root ws))
  unfolding vfs_resolve_path
  vfs_resolve_path-lookup_all root cwd path h =
      let (s, e, c) = vfs_normalize_path-IsCanonical cwd path vfs_max_path h (omega arith) in
      let f = e ∙ ap (λ x. some (found x)) c.text in
      (c.components, c.plain, f, rw (vfs_resolve_path, f) (walk_render root c.components c.plain))
