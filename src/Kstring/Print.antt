-- ===== src/Kstring/Print.antt =====
-- What `kprint_dec` and `kprint_hex` print reads back as the number printed.
use native.Mathlib.Nat.{pow-suc, div-div-eq-div-mul}
use thunderos.Prelude.{
  ℕ, zero, suc, ◌+◌, ◌-◌, ◌*◌, ◌/◌, ◌%◌, ◌^◌, ◌≤◌, ◌<◌, ◌≡◌, refl, some, List, [], ◌∷◌, arith, ltb,
  if◌then◌else◌, length, ap, ◌∙◌,
}
use thunderos.Kstring.{dec_loop, kprint_dec, hex_digit, hex_loop, kprint_hex}

-- Reading decimal digits after those that make `acc`.
abbrev pub parse_dec : ℕ → List ℕ → ℕ
parse_dec acc [] = acc
parse_dec acc (c ∷ cs) = parse_dec (acc * 10 + (c - b'0')) cs

abbrev pub AllDigits : List ℕ → Type 0
AllDigits [] = Unit {0}
AllDigits (c ∷ cs) = (b'0' ≤ c) × (c ≤ b'9') × AllDigits cs

-- The loop puts the digits of `n` in front of those it has, and never runs out of slots.
dec_loop_lem :
    (slots n : ℕ) (acc : List ℕ)
    → n < 10 ^ slots
    → AllDigits acc
    → (ds : List ℕ) × (dec_loop slots n acc ≡ some ds)
      × (parse_dec 0 ds ≡ parse_dec n acc)
      × (length ds ≤ slots + length acc)
      × AllDigits ds
unfolding dec_loop
dec_loop_lem slots zero acc h a = (acc, refl, refl, omega arith, a)
dec_loop_lem zero (suc n) acc h a = absurd (omega arith)
dec_loop_lem (suc slots) (suc n) acc h a =
    let (ds, e, p, l, all) =
      dec_loop_lem slots (suc n / 10) ((b'0' + suc n % 10) ∷ acc) (omega (arith, pow-suc 10 slots))
        (omega arith, omega arith, a) in
    (ds, e, p ∙ (λ i. parse_dec (digit i) acc), omega arith, all)
  where
    digit : suc n / 10 * 10 + (b'0' + suc n % 10 - b'0') ≡ suc n
    digit = omega arith

kprint_dec-suc : (n : ℕ) → kprint_dec (suc n) ≡ dec_loop 20 (suc n) []
unfolding kprint_dec
kprint_dec-suc n = ground arith

-- `kprint_dec` stays inside its 20-byte buffer for every 64-bit number, and prints only decimal
-- digits, at least one, that read back as that number.
pub kprint_dec-parse_dec :
    (n : ℕ)
    → n < 2 ^ 64
    → (ds : List ℕ) × (kprint_dec n ≡ some ds)
      × (parse_dec 0 ds ≡ n)
      × (1 ≤ length ds)
      × (length ds ≤ 20)
      × AllDigits ds
unfolding kprint_dec
kprint_dec-parse_dec zero h =
    (b'0' ∷ [], refl, refl, omega arith, omega arith, (omega arith, omega arith, tt))
kprint_dec-parse_dec (suc n) h =
    let (ds, e, p, l, all) = dec_loop_lem 20 (suc n) [] (omega arith) tt in
    (ds, kprint_dec-suc n ∙ e, p, nonempty ds p, omega arith, all)
  where
    nonempty : (cs : List ℕ) → parse_dec 0 cs ≡ suc n → 1 ≤ length cs
    nonempty [] e = absurd (omega arith)
    nonempty (c ∷ cs) e = omega arith

-- Reading a hexadecimal digit, and a row of them after those that make `acc`.
abbrev pub hex_value : ℕ → ℕ
hex_value c = if ltb c b'a' then c - b'0' else c - b'a' + 10

abbrev pub parse_hex : ℕ → List ℕ → ℕ
parse_hex acc [] = acc
parse_hex acc (c ∷ cs) = parse_hex (acc * 16 + hex_value c) cs

hex_value-hex_digit : (d : ℕ) → d < 16 → hex_value (hex_digit d) ≡ d
hex_value-hex_digit d h = ground arith

hex_loop_lem : (i val : ℕ) → parse_hex (val / 16 ^ i) (hex_loop i val) ≡ val
unfolding hex_loop
hex_loop_lem zero val = omega arith
hex_loop_lem (suc i) val = (λ k. parse_hex (step k) (hex_loop i val)) ∙ hex_loop_lem i val
  where
    step : val / 16 ^ suc i * 16 + hex_value (hex_digit (val / 16 ^ i % 16)) ≡ val / 16 ^ i
    step =
        let q = val / 16 ^ i in
        omega (
          arith,
          ap (λ m. val / m) (pow-suc 16 i),
          div-div-eq-div-mul val (16 ^ i) 16,
          hex_value-hex_digit (q % 16) (omega arith),
        )

length-hex_loop : (i val : ℕ) → length (hex_loop i val) ≡ i
unfolding hex_loop
length-hex_loop zero val = refl
length-hex_loop (suc i) val = omega (arith, length-hex_loop i val)

-- `kprint_hex` prints "0x" and exactly 16 characters that read back as the 64-bit number.
pub kprint_hex-parse_hex :
    (val : ℕ)
    → val < 2 ^ 64
    → (ds : List ℕ) × (kprint_hex val ≡ b'0' ∷ b'x' ∷ ds)
      × (length ds ≡ 16)
      × (parse_hex 0 ds ≡ val)
unfolding kprint_hex
kprint_hex-parse_hex val h = (
  hex_loop 16 val,
  refl,
  length-hex_loop 16 val,
  (λ i. parse_hex (top i) (hex_loop 16 val)) ∙ hex_loop_lem 16 val,
)
  where
    top : 0 ≡ val / 16 ^ 16
    top = omega arith
