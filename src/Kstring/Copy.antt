-- ===== src/Kstring/Copy.antt =====
-- What the copying routines leave in the destination array.
use thunderos.Prelude.{
  ℕ, zero, suc, ◌+◌, ◌-◌, ◌%◌, ◌≤◌, ◌<◌, ◌≡◌, ◌≢◌, refl, none, some, List, [], ◌∷◌, ◌++◌, arith,
  ltb, leb, ◌&&◌, if◌then◌else◌, length, get_or, set, replicate, length-set, get_or-set, ap,
}
use thunderos.Kstring.{
  kstrlen_from, kstrlen, kstrcpy_from, kstrcpy, kmemset, kmemcpy, pad, kstrncpy_from, kstrncpy,
}

pub length-kmemcpy :
    (dest : List ℕ) (d : ℕ) (src : List ℕ) (s n : ℕ) → length (kmemcpy dest d src s n) ≡ length dest
unfolding kmemcpy
length-kmemcpy dest d src s zero = refl
length-kmemcpy dest d src s (suc n) = omega (
  arith,
  length-kmemcpy (set dest d (get_or src s 0)) (d + 1) src (s + 1) n,
  length-set dest d (get_or src s 0),
)

-- `kmemcpy` copies exactly the bytes asked for that fit: byte `j` of the destination is the
-- source's from index `s` on where `d ≤ j < d + n`, and unchanged elsewhere.
pub get_or-kmemcpy :
    (dest : List ℕ) (d : ℕ) (src : List ℕ) (s n j : ℕ)
    → d + n ≤ length dest
    → get_or (kmemcpy dest d src s n) j 0
      ≡ (if leb d j && ltb j (d + n) then get_or src (s + (j - d)) 0 else get_or dest j 0)
unfolding kmemcpy
get_or-kmemcpy dest d src s zero j h = ground arith
get_or-kmemcpy dest d src s (suc n) j h = ground (
  arith,
  length-set dest d (get_or src s 0),
  get_or-kmemcpy (set dest d (get_or src s 0)) (d + 1) src (s + 1) n j,
  get_or-set dest d j (get_or src s 0) 0,
)

pub get_or-kmemset :
    (s : List ℕ) (p c n j : ℕ)
    → p + n ≤ length s
    → get_or (kmemset s p c n) j 0 ≡ (if leb p j && ltb j (p + n) then c % 256 else get_or s j 0)
unfolding kmemset
get_or-kmemset s p c zero j h = ground arith
get_or-kmemset s p c (suc n) j h = ground (
  arith,
  length-set s p (c % 256),
  get_or-kmemset (set s p (c % 256)) (p + 1) c n j,
  get_or-set s p j (c % 256) 0,
)

-- The array of a C string: its characters, none of them NUL, a NUL, and whatever follows.
abbrev pub NoNul : List ℕ → Type 0
NoNul [] = Unit {0}
NoNul (c ∷ cs) = (c ≢ 0) × NoNul cs

kstrlen_from_lem :
    (cs rest : List ℕ) (len : ℕ)
    → NoNul cs
    → kstrlen_from (cs ++ 0 ∷ rest) len ≡ some (len + length cs)
unfolding kstrlen_from
kstrlen_from_lem [] rest len h = ground arith
kstrlen_from_lem (c ∷ cs) rest len h = ground (arith, kstrlen_from_lem cs rest (len + 1))

-- `kstrlen` returns the number of characters before the NUL.
pub kstrlen-length : (cs rest : List ℕ) → NoNul cs → kstrlen (cs ++ 0 ∷ rest) ≡ some (length cs)
unfolding kstrlen
kstrlen-length cs rest h = ground (arith, kstrlen_from_lem cs rest 0)

-- Writing the list `xs` over `dest` from index `d` on.
abbrev pub overwrite : List ℕ → ℕ → List ℕ → List ℕ
overwrite dest d [] = dest
overwrite dest d (x ∷ xs) = overwrite (set dest d x) (d + 1) xs

kstrcpy_from_lem :
    (dest : List ℕ) (d : ℕ) (cs rest : List ℕ)
    → NoNul cs
    → d + length cs < length dest
    → kstrcpy_from dest d (cs ++ 0 ∷ rest) ≡ some (overwrite dest d (cs ++ 0 ∷ []))
unfolding kstrcpy_from
kstrcpy_from_lem dest d [] rest n h = ground arith
kstrcpy_from_lem dest d (c ∷ cs) rest n h =
    ground (arith, length-set dest d c, kstrcpy_from_lem (set dest d c) (d + 1) cs rest)

-- `kstrcpy` into an array that has room for the characters and the NUL writes exactly those.
pub kstrcpy-overwrite :
    (dest cs rest : List ℕ)
    → NoNul cs
    → length cs < length dest
    → kstrcpy dest (cs ++ 0 ∷ rest) ≡ some (overwrite dest 0 (cs ++ 0 ∷ []))
unfolding kstrcpy
kstrcpy-overwrite dest cs rest n h = kstrcpy_from_lem dest 0 cs rest n (omega arith)

-- Without room for the NUL, `kstrcpy` writes past the array.
kstrcpy_overrun :
    (dest : List ℕ) (d : ℕ) (cs rest : List ℕ)
    → NoNul cs
    → length dest ≤ d + length cs
    → kstrcpy_from dest d (cs ++ 0 ∷ rest) ≡ none
unfolding kstrcpy_from
kstrcpy_overrun dest d [] rest n h = ground arith
kstrcpy_overrun dest d (c ∷ cs) rest n h =
    ground (arith, length-set dest d c, kstrcpy_overrun (set dest d c) (d + 1) cs rest)

pad-overwrite : (dest : List ℕ) (i n : ℕ) → pad dest i n ≡ overwrite dest i (replicate n 0)
unfolding pad
pad-overwrite dest i zero = refl
pad-overwrite dest i (suc n) = pad-overwrite (set dest i 0) (i + 1) n

-- The first `n` of the characters, filled up to `n` bytes with NULs.
abbrev pub padded : ℕ → List ℕ → List ℕ
padded zero cs = []
padded (suc n) [] = 0 ∷ padded n []
padded (suc n) (c ∷ cs) = c ∷ padded n cs

padded-nil : (n : ℕ) → padded n [] ≡ replicate n 0
padded-nil zero = refl
padded-nil (suc n) = ap (◌∷◌ 0) (padded-nil n)

kstrncpy_from_lem :
    (dest : List ℕ) (i : ℕ) (cs rest : List ℕ) (n : ℕ)
    → NoNul cs
    → kstrncpy_from dest i (cs ++ 0 ∷ rest) n ≡ some (overwrite dest i (padded n cs))
unfolding kstrncpy_from
kstrncpy_from_lem dest i cs rest zero h = refl
kstrncpy_from_lem dest i [] rest (suc n) h =
    rw (padded-nil n) (ap some (pad-overwrite (set dest i 0) (i + 1) n))
kstrncpy_from_lem dest i (c ∷ cs) rest (suc n) h =
    ground (arith, kstrncpy_from_lem (set dest i c) (i + 1) cs rest n)

-- `kstrncpy` writes exactly `n` bytes: the first `n` characters, then NULs; for a string of `n`
-- characters or more it writes no NUL.
pub kstrncpy-padded :
    (dest cs rest : List ℕ) (n : ℕ)
    → NoNul cs
    → kstrncpy dest (cs ++ 0 ∷ rest) n ≡ some (overwrite dest 0 (padded n cs))
unfolding kstrncpy
kstrncpy-padded dest cs rest n h = kstrncpy_from_lem dest 0 cs rest n h
