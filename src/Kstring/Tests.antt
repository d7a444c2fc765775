-- ===== src/Kstring/Tests.antt =====
-- Runs of printing and copying at short texts.
use thunderos.Prelude.{◌≡◌, refl, some, [], ◌∷◌}
use thunderos.Kstring.{kprint_dec, dec_loop, kstrcpy, kstrcpy_from, kmemcpy, kstrlen, kstrlen_from}

kprint_dec-run : kprint_dec 407 ≡ some (b'4' ∷ b'0' ∷ b'7' ∷ [])
unfolding kprint_dec dec_loop
kprint_dec-run = refl

kstrlen-run : kstrlen (b'o' ∷ b'k' ∷ 0 ∷ 5 ∷ []) ≡ some 2
unfolding kstrlen kstrlen_from
kstrlen-run = refl

kstrcpy-run :
    kstrcpy (9 ∷ 9 ∷ 9 ∷ 9 ∷ []) (b'o' ∷ b'k' ∷ 0 ∷ 5 ∷ []) ≡ some (b'o' ∷ b'k' ∷ 0 ∷ 9 ∷ [])
unfolding kstrcpy kstrcpy_from
kstrcpy-run = refl

kmemcpy-run : kmemcpy (1 ∷ 2 ∷ 3 ∷ []) 1 (7 ∷ 8 ∷ []) 0 2 ≡ 1 ∷ 7 ∷ 8 ∷ []
unfolding kmemcpy
kmemcpy-run = refl
