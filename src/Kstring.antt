-- ===== src/Kstring.antt =====
-- kernel/utils/kstring.c: number printing and the byte-string routines. A byte array is the list of
-- its bytes, a pointer into it an index; what goes to the UART is the list of its characters.
-- `none` stands for an access outside an array.
pub mod Print
pub mod Copy
pub mod Tests
use thunderos.Prelude.{
  ℕ, zero, suc, ◌+◌, ◌-◌, ◌*◌, ◌/◌, ◌%◌, ◌^◌, Option, none, some, List, [], ◌∷◌, ◌==◌, ltb,
  if◌then◌else◌, length, get_or, set, Bool, true, false,
}

-- The loop of `kprint_dec`: the number of free slots of `buf`, `n`, and the digits stored so far,
-- the last one first, which is the order in which they are printed.
dec_loop : ℕ → ℕ → List ℕ → Option (List ℕ)
dec_loop slots zero acc = some acc
dec_loop zero (suc n) acc = none
dec_loop (suc slots) (suc n) acc = dec_loop slots (suc n / 10) ((b'0' + suc n % 10) ∷ acc)

pub kprint_dec : ℕ → Option (List ℕ)
kprint_dec n = if n == 0 then some (b'0' ∷ []) else dec_loop 20 n []

abbrev pub hex_digit : ℕ → ℕ
hex_digit digit = if ltb digit 10 then b'0' + digit else b'a' + digit - 10

-- The loop of `kprint_hex`, for the digits `i - 1` down to 0.
hex_loop : ℕ → ℕ → List ℕ
hex_loop zero val = []
hex_loop (suc i) val = hex_digit (val / 16 ^ i % 16) ∷ hex_loop i val

pub kprint_hex : ℕ → List ℕ
unfolding hex_loop
kprint_hex val = b'0' ∷ b'x' ∷ hex_loop 16 val

-- The list is what is left of the string's array.
kstrlen_from : List ℕ → ℕ → Option ℕ
kstrlen_from [] len = none
kstrlen_from (c ∷ str) len = if c == 0 then some len else kstrlen_from str (len + 1)

pub kstrlen : List ℕ → Option ℕ
unfolding kstrlen_from
kstrlen str = kstrlen_from str 0

-- `*d++ = c`, inside the array.
abbrev store : List ℕ → ℕ → ℕ → Option (List ℕ)
store dest d c = if ltb d (length dest) then some (set dest d c) else none

kstrcpy_from : List ℕ → ℕ → List ℕ → Option (List ℕ)
kstrcpy_from dest d [] = none
kstrcpy_from dest d (c ∷ src) = elim (store dest d c) [
  | none ↦ none
  | some dest' ↦ elim (c == 0) [ true ↦ some dest' | false ↦ kstrcpy_from dest' (d + 1) src ]
]

pub kstrcpy : List ℕ → List ℕ → Option (List ℕ)
unfolding kstrcpy_from
kstrcpy dest src = kstrcpy_from dest 0 src

-- `while (n--) *p++ = (unsigned char)c;` from index `p`.
pub kmemset : List ℕ → ℕ → ℕ → ℕ → List ℕ
kmemset s p c zero = s
kmemset s p c (suc n) = kmemset (set s p (c % 256)) (p + 1) c n

-- `while (n--) *d++ = *s++;` from index `s` of one array to index `d` of another.
pub kmemcpy : List ℕ → ℕ → List ℕ → ℕ → ℕ → List ℕ
kmemcpy dest d src s zero = dest
kmemcpy dest d src s (suc n) = kmemcpy (set dest d (get_or src s 0)) (d + 1) src (s + 1) n

-- The second loop of `kstrncpy`: `n` zero bytes from index `i` on.
pad : List ℕ → ℕ → ℕ → List ℕ
pad dest i zero = dest
pad dest i (suc n) = pad (set dest i 0) (i + 1) n

-- The first loop, with `n` bytes to go; `src` is read only while `i < n`.
kstrncpy_from : List ℕ → ℕ → List ℕ → ℕ → Option (List ℕ)
unfolding pad
kstrncpy_from dest i src zero = some dest
kstrncpy_from dest i [] (suc n) = none
kstrncpy_from dest i (c ∷ src) (suc n) = elim (c == 0) [
  | true ↦ some (pad dest i (suc n))
  | false ↦ kstrncpy_from (set dest i c) (i + 1) src n
]

pub kstrncpy : List ℕ → List ℕ → ℕ → Option (List ℕ)
unfolding kstrncpy_from
kstrncpy dest src n = kstrncpy_from dest 0 src n
