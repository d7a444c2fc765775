-- ===== src/Vfs/Path.antt =====
-- Paths in kernel/fs/vfs.c: how a path is made absolute, freed of `.` and `..`, and walked.
pub mod Split
pub mod Plain
pub mod Render
pub mod Working
pub mod Normalize
pub mod Reference
pub mod Walk
pub mod Tests
use thunderos.Prelude.{
  ℕ, zero, suc, ◌-◌, Option, none, some, List, [], ◌∷◌, ◌++◌, Bool, true, false, ◌==◌, not, ltb,
  ◌&&◌, ◌||◌, if◌then◌else◌, length, get_or, take, drop,
}
use thunderos.Errno.{einval, eio, efs_notmnt}
use thunderos.Vfs.{Text, Outcome, found, failed}

abbrev pub slash : ℕ
slash = b'/'

abbrev pub dot : ℕ
dot = b'.'

-- VFS_MAX_PATH, MAX_PATH_COMPONENTS, MAX_PATH_COMPONENT_LEN.
abbrev pub vfs_max_path : ℕ
vfs_max_path = 256

abbrev pub max_path_components : ℕ
max_path_components = 64

abbrev pub max_path_component_len : ℕ
max_path_component_len = 256

-- `while (*src && pos < limit) out[pos++] = *src++`.
pub copy_while : ℕ → Text → Text → Text
copy_while limit out [] = out
copy_while limit out (c ∷ src) =
    let rest = copy_while limit (out ++ (c ∷ [])) src in
    if ltb (length out) limit then rest else out

abbrev pub is_empty : Text → Bool
is_empty [] = true
is_empty (c ∷ cs) = false

abbrev pub starts_with_slash : Text → Bool
starts_with_slash path = get_or path 0 0 == slash

-- What stands before a relative path: the working directory, none of them for no process, then a slash.
abbrev cwd_prefix : Option Text → ℕ → Text
cwd_prefix none size = slash ∷ []
cwd_prefix (some cwd) size = if is_empty cwd then slash ∷ [] else copy_while (size - 1) [] cwd

abbrev with_slash : Text → ℕ → Text
with_slash out size =
    if not (is_empty out)
      && not (get_or out (length out - 1) 0 == slash)
      && ltb (length out) (size - 1)
    then out ++ (slash ∷ [])
    else out

pub normalize_build_absolute : Option Text → Text → ℕ → Text
normalize_build_absolute cwd path size =
    let start = if starts_with_slash path then [] else with_slash (cwd_prefix cwd size) size in
    copy_while (size - 1) start path

-- The inner loop: the characters up to the next slash or the end, and the cursor after them.
abbrev pub scan : Text → Text × Text
scan [] = ([], [])
scan (c ∷ cs) = if c == slash then ([], c ∷ cs) else (c ∷ (scan cs).0, (scan cs).1)

abbrev pub skip_slash : Text → Text
skip_slash [] = []
skip_slash (c ∷ cs) = if c == slash then cs else c ∷ cs

abbrev pub is_skipped : Text → Bool
is_skipped w = is_empty w || ((length w == 1) && (get_or w 0 0 == dot))

abbrev pub is_parent : Text → Bool
is_parent w = (length w == 2) && (get_or w 0 0 == dot) && (get_or w 1 0 == dot)

-- The body of the loop on the components that are stored.
pub step_component : List Text → Text → List Text
step_component stored w =
    if is_skipped w
    then stored
    else if is_parent w
    then take (length stored - 1) stored
    else if ltb (length stored) max_path_components
    then stored ++ (take (max_path_component_len - 1) w ∷ [])
    else stored

-- `while (*cursor)`, on rounds; `none` when they do not suffice.
pub resolve_loop : ℕ → List Text → Text → Option (List Text)
resolve_loop rounds stored [] = some stored
resolve_loop zero stored (c ∷ cs) = none
resolve_loop (suc rounds) stored (c ∷ cs) =
    let (w, rest) = scan (c ∷ cs) in resolve_loop rounds (step_component stored w) (skip_slash rest)

-- The loop that writes the stored components, from the output so far.
pub write_components : ℕ → Text → List Text → Text
write_components size out [] = out
write_components size out (w ∷ []) = copy_while (size - 1) out w
write_components size out (w ∷ v ∷ ws) =
    let out' = copy_while (size - 1) out w in
    write_components size (if ltb (length out') (size - 1) then out' ++ (slash ∷ []) else out')
      (v ∷ ws)

normalize_resolve_components : Text → ℕ → Option Text
normalize_resolve_components working size =
    elim (resolve_loop (length working) [] (skip_slash working)) [
      | none ↦ none
      | some stored ↦ some (write_components size (slash ∷ []) stored)
    ]

-- `vfs_normalize_path`: `none` for a NULL path, and the outcome `none` when the rounds do not suffice.
pub vfs_normalize_path : Option Text → Option Text → ℕ → Option (Outcome Text)
vfs_normalize_path cwd none size = some (failed einval)
vfs_normalize_path cwd (some path) size =
    if size == 0
    then some (failed einval)
    else elim (normalize_resolve_components (normalize_build_absolute cwd path vfs_max_path) size) [
      | none ↦ none
      | some normalized ↦ some (found normalized)
    ]

-- The walk of `vfs_resolve_path` from a node. `ops` gives the lookup of a node's operations, if
-- there is one, which returns a node or fails with an error number.
module _ {N : Type 0} (ops : N → Option (Text → Outcome N)) where
  abbrev pub lookup_in : N → Text → Outcome N
  lookup_in node w = elim (ops node) [ none ↦ failed eio | some lookup ↦ lookup w ]

  pub walk_loop : ℕ → N → Text → Option (Outcome N)
  walk_loop rounds node [] = some (found node)
  walk_loop zero node (c ∷ cs) = none
  walk_loop (suc rounds) node (c ∷ cs) =
      let (name, rest) = scan (c ∷ cs) in
      if is_empty name
      then walk_loop rounds node (skip_slash rest)
      else elim (lookup_in node (take (max_path_component_len - 1) name)) [
        | failed e ↦ some (failed e)
        | found next ↦ walk_loop rounds next (skip_slash rest)
      ]

  pub vfs_resolve_path : Option N → Option Text → Option Text → Option (Outcome N)
  vfs_resolve_path none cwd path = some (failed efs_notmnt)
  vfs_resolve_path (some root) cwd path = elim (vfs_normalize_path cwd path vfs_max_path) [
    | none ↦ none
    | some (failed e) ↦ some (failed e)
    | some (found normalized) ↦
        if starts_with_slash normalized && (length normalized == 1)
        then some (found root)
        else walk_loop (length normalized) root (drop 1 normalized)
  ]
