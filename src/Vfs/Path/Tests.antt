-- ===== src/Vfs/Path/Tests.antt =====
-- Runs of the path functions, and the theorems on them at paths.
use thunderos.Prelude.{
  ℕ, zero, suc, ◌≡◌, refl, Option, none, some, List, [], ◌∷◌, ◌++◌, ◌==◌, if◌then◌else◌, replicate,
  length-replicate, arith,
}
use thunderos.Errno.{enoent}
use thunderos.Vfs.{Text, Outcome, found, failed}
use thunderos.Vfs.Path.{
  slash, dot, vfs_normalize_path, vfs_resolve_path, copy_while, normalize_build_absolute,
  resolve_loop, step_component, write_components, normalize_resolve_components, walk_loop,
  vfs_max_path, skip_slash,
}
use thunderos.Vfs.Path.Split.{split}
use thunderos.Vfs.Path.Plain.{AreAll, IsPlain}
use thunderos.Vfs.Path.Render.{render}
use thunderos.Vfs.Path.Working.{absolute}
use thunderos.Vfs.Path.Normalize.{
  IsCanonical, vfs_normalize_path-IsCanonical, vfs_normalize_path-canonical,
}
use thunderos.Vfs.Path.Reference.{names, vfs_normalize_path-names, vfs_normalize_path-loses}
use thunderos.Vfs.Path.Walk.{lookup_all, vfs_resolve_path-lookup_all}

abbrev name_a : Text
name_a = b'a' ∷ []

abbrev name_bin : Text
name_bin = b'b' ∷ b'i' ∷ b'n' ∷ []

-- `/bin`, `../a//.`, `/a`.
abbrev cwd_bin : Option Text
cwd_bin = some (slash ∷ name_bin)

abbrev up_and_a : Text
up_and_a = dot ∷ dot ∷ slash ∷ b'a' ∷ slash ∷ slash ∷ dot ∷ []

abbrev path_a : Text
path_a = slash ∷ name_a

up_and_a-normalized : vfs_normalize_path cwd_bin (some up_and_a) 256 ≡ some (found path_a)
unfolding vfs_normalize_path normalize_build_absolute copy_while normalize_resolve_components
    resolve_loop step_component write_components
up_and_a-normalized = refl

vfs_normalize_path-IsCanonical_example :
    (s : Text) × (vfs_normalize_path cwd_bin (some up_and_a) 256 ≡ some (found s)) × IsCanonical s
vfs_normalize_path-IsCanonical_example =
    vfs_normalize_path-IsCanonical cwd_bin up_and_a 256 refl (omega arith)

name_a-IsPlain : IsPlain name_a
name_a-IsPlain = record {
  piece = record { whole = refl; short = omega arith };
  named = refl;
  down = refl;
}

name_bin-IsPlain : IsPlain name_bin
name_bin-IsPlain = record {
  piece = record { whole = refl; short = omega arith };
  named = refl;
  down = refl;
}

path_a-IsCanonical : IsCanonical path_a
path_a-IsCanonical = record {
  components = name_a ∷ [];
  text = refl;
  plain = (name_a-IsPlain, tt);
  few = omega arith;
  fits = omega arith;
}

vfs_normalize_path-canonical_example :
    vfs_normalize_path cwd_bin (some path_a) 256 ≡ some (found path_a)
vfs_normalize_path-canonical_example =
    vfs_normalize_path-canonical cwd_bin path_a 256 path_a-IsCanonical (omega arith)

vfs_normalize_path-names_example :
    vfs_normalize_path cwd_bin (some up_and_a) 256
    ≡ some (found (render (names [] (split (skip_slash (absolute cwd_bin up_and_a))))))
vfs_normalize_path-names_example =
    vfs_normalize_path-names cwd_bin up_and_a 256 refl (omega arith) (omega arith) (omega arith)

replicate-IsPlain : (n : ℕ) → AreAll IsPlain (replicate n name_a)
replicate-IsPlain zero = tt
replicate-IsPlain (suc n) = (name_a-IsPlain, replicate-IsPlain n)

vfs_normalize_path-loses_example :
    vfs_normalize_path none (some (render (replicate 64 name_a ++ (name_bin ∷ [])))) 256
    ≡ some (found (render (replicate 64 name_a)))
vfs_normalize_path-loses_example =
    vfs_normalize_path-loses none (replicate 64 name_a) name_bin 256 (replicate-IsPlain 64)
      (length-replicate 64 name_a) name_bin-IsPlain (omega arith) (omega arith)

-- A root directory 0 with the one directory `a`, which is 1 and empty.
abbrev two_nodes : ℕ → Option (Text → Outcome ℕ)
two_nodes node = some (λ name.
    if node == 0
    then (elim name [ [] ↦ failed enoent | c ∷ cs ↦ if c == b'a' then found 1 else failed enoent ])
    else failed enoent)

resolved-up_and_a : vfs_resolve_path two_nodes (some 0) cwd_bin (some up_and_a) ≡ some (found 1)
unfolding vfs_resolve_path walk_loop vfs_normalize_path normalize_build_absolute copy_while
    normalize_resolve_components resolve_loop step_component write_components
resolved-up_and_a = refl

vfs_resolve_path-lookup_all_example :
    (ws : List Text) × AreAll IsPlain ws
    × (vfs_normalize_path cwd_bin (some up_and_a) vfs_max_path ≡ some (found (render ws)))
    × (vfs_resolve_path two_nodes (some 0) cwd_bin (some up_and_a)
        ≡ some (lookup_all two_nodes 0 ws))
vfs_resolve_path-lookup_all_example = vfs_resolve_path-lookup_all two_nodes 0 cwd_bin up_and_a refl
