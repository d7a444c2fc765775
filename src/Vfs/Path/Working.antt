-- ===== src/Vfs/Path/Working.antt =====
-- `normalize_build_absolute`: the path that it makes is absolute and fits its buffer.
use thunderos.Prelude.{
  ◌+◌, ◌-◌, ◌≤◌, ◌<◌, ◌≡◌, inl, inr, ◌∙◌, refl, ap, Option, none, some, [], ◌∷◌, ◌++◌, Bool, true,
  ◌==◌, not, ltb, ◌&&◌, ◌||◌, if◌then◌else◌, length, length-append, get_or, Bool-cases, arith,
}
use thunderos.Vfs.{Text}
use thunderos.Vfs.Path.{
  slash, is_empty, starts_with_slash, vfs_max_path, copy_while, cwd_prefix, with_slash,
  normalize_build_absolute,
}
use thunderos.Vfs.Path.Render.{copy_while-fits, copy_while-starts, length-copy_while}

-- A working directory that is an absolute path, or none.
abbrev pub is_rooted : Option Text → Bool
is_rooted none = true
is_rooted (some cwd) = is_empty cwd || starts_with_slash cwd

-- An absolute path that fits the buffer.
pub record IsHeaded (out : Text) : Type 0 where
  pub tail : Text
  pub head : out ≡ slash ∷ tail
  pub fits : length out < vfs_max_path

pub starts_with_slash-tail :
    (path : Text) → starts_with_slash path ≡ true → (t : Text) × (path ≡ slash ∷ t)
starts_with_slash-tail [] h = absurd (ground (arith, h))
starts_with_slash-tail (c ∷ cs) h = (cs, ap (λ x. x ∷ cs) (ground (arith, h)))

copy_while-IsHeaded : (out src : Text) → IsHeaded out → IsHeaded (copy_while 255 out src)
copy_while-IsHeaded out src h =
    let (more, e) = copy_while-starts 255 out src in
    record {
      tail = h.tail ++ more;
      head = e ∙ ap (λ x. x ++ more) h.head;
      fits = omega (arith, length-copy_while 255 out src (omega (arith, h.fits)));
    }

slash-IsHeaded : IsHeaded (slash ∷ [])
slash-IsHeaded = record { tail = []; head = refl; fits = omega arith }

copy_path-IsHeaded :
    (path : Text) → starts_with_slash path ≡ true → IsHeaded (copy_while 255 [] path)
unfolding copy_while
copy_path-IsHeaded path h =
    let (t, e) = starts_with_slash-tail path h in
    rw e (copy_while-IsHeaded (slash ∷ []) t slash-IsHeaded)

cwd_prefix-IsHeaded : (cwd : Option Text) → is_rooted cwd ≡ true → IsHeaded (cwd_prefix cwd 256)
cwd_prefix-IsHeaded none h = slash-IsHeaded
cwd_prefix-IsHeaded (some []) h = slash-IsHeaded
cwd_prefix-IsHeaded (some (c ∷ cs)) h = copy_path-IsHeaded (c ∷ cs) h

with_slash-IsHeaded : (out : Text) → IsHeaded out → IsHeaded (with_slash out 256)
with_slash-IsHeaded out h =
    elim (Bool-cases (
      not (is_empty out) && not (get_or out (length out - 1) 0 == slash) && ltb (length out) 255)) [
        | inr e ↦ rw e h
        | inl e ↦ rw e (record {
          tail = h.tail ++ (slash ∷ []);
          head = ap (λ x. x ++ (slash ∷ [])) h.head;
          fits = ground (arith, e, length-append out (slash ∷ []));
        })
      ]

pub normalize_build_absolute-IsHeaded :
    (cwd : Option Text) (path : Text)
    → is_rooted cwd ≡ true
    → IsHeaded (normalize_build_absolute cwd path vfs_max_path)
unfolding normalize_build_absolute
normalize_build_absolute-IsHeaded cwd path h = elim (Bool-cases (starts_with_slash path)) [
  | inl e ↦ rw e (copy_path-IsHeaded path e)
  | inr e ↦ rw e (
      copy_while-IsHeaded (with_slash (cwd_prefix cwd 256) 256) path
        (with_slash-IsHeaded (cwd_prefix cwd 256) (cwd_prefix-IsHeaded cwd h)))
]

-- The absolute path that a path means: its own text, or the working directory's and its own with one
-- slash between them.
abbrev pub directory : Option Text → Text
directory none = slash ∷ []
directory (some cwd) =
    if is_empty cwd
    then slash ∷ []
    else if get_or cwd (length cwd - 1) 0 == slash
    then cwd
    else cwd ++ (slash ∷ [])

abbrev pub absolute : Option Text → Text → Text
absolute cwd path = if starts_with_slash path then path else directory cwd ++ path

with_slash-directory :
    (cwd : Option Text)
    → length (directory cwd) < vfs_max_path
    → with_slash (cwd_prefix cwd 256) 256 ≡ directory cwd
with_slash-directory none h = refl
with_slash-directory (some []) h = refl
with_slash-directory (some (c ∷ cs)) h =
    elim (Bool-cases (get_or (c ∷ cs) (length (c ∷ cs) - 1) 0 == slash)) [
      | inl e ↦
          let fits : 0 + length (c ∷ cs) ≤ 255 = ground (arith, h, e) in
          rw (copy_while-fits 255 [] (c ∷ cs) fits, e) refl
      | inr e ↦
          let more : length (c ∷ cs) < 255 =
            ground (arith, h, e, length-append (c ∷ cs) (slash ∷ [])) in
          let room : ltb (length (c ∷ cs)) 255 ≡ true = ground (arith, more) in
          rw (copy_while-fits 255 [] (c ∷ cs) (omega (arith, more)), e, room) refl
    ]

pub normalize_build_absolute-absolute :
    (cwd : Option Text) (path : Text)
    → length (absolute cwd path) < vfs_max_path
    → normalize_build_absolute cwd path vfs_max_path ≡ absolute cwd path
unfolding normalize_build_absolute
normalize_build_absolute-absolute cwd path h = elim (Bool-cases (starts_with_slash path)) [
  | inl e ↦ rw e (copy_while-fits 255 [] path (ground (arith, h, e)))
  | inr e ↦
      let l : length (directory cwd ++ path) < vfs_max_path = ground (arith, h, e) in
      let len = length-append (directory cwd) path in
      rw e (
        ap (λ start. copy_while 255 start path) (with_slash-directory cwd (omega (arith, l, len)))
        ∙ copy_while-fits 255 (directory cwd) path (omega (arith, l, len)))
]
