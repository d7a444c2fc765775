-- ===== src/Prelude/Window.antt =====
-- What a circular buffer of `cap` slots holds: the `n` elements from index `h` on, going round.
use Prim.Native.Nat.{ℕ, zero, suc, ◌+◌, ◌-◌, ◌%◌, ◌≤◌, ◌<◌}
use mathlib.Core.Path.{◌≡◌, refl, sym, ap, ap₂, ◌∙◌}
use mathlib.Core.Logic.{◌≢◌}
use mathlib.Core.List.{List, [], ◌∷◌, ◌++◌}
use native.Mathlib.Nat.{mod-add-mod}
use native.Mathlib.Omega.{arith}
use thunderos.Prelude.Lists.{length, take, get_or, set, get_or-set_ne}

-- Indices less than a round apart name different slots.
pub mod-ne : (a b cap : ℕ) → a < b → b < a + cap → a % cap ≢ b % cap
mod-ne a b cap h k e = grind arith

module _ {ℓ} {A : Type ℓ} (d : A) (cap : ℕ) where
  abbrev pub window : List A → ℕ → ℕ → List A
  window buf h zero = []
  window buf h (suc n) = get_or buf (h % cap) d ∷ window buf (h + 1) n

  pub length-window : (buf : List A) (h n : ℕ) → length (window buf h n) ≡ n
  length-window buf h zero = refl
  length-window buf h (suc n) = ap suc (length-window buf (h + 1) n)

  -- Windows that agree slot by slot are equal.
  pub window_ext :
      (b c : List A) (h k n : ℕ)
      → ((i : ℕ) → i < n → get_or b ((h + i) % cap) d ≡ get_or c ((k + i) % cap) d)
      → window b h n ≡ window c k n
  window_ext b c h k zero e = refl
  window_ext b c h k (suc n) e = ap₂ ◌∷◌ first (window_ext b c (h + 1) (k + 1) n λ i lt. later i lt)
    where
      first : get_or b (h % cap) d ≡ get_or c (k % cap) d
      first =
          let p : h + 0 ≡ h = omega arith in
          let q : k + 0 ≡ k = omega arith in
          ap (λ j. get_or b (j % cap) d) (sym p)
          ∙ e 0 (omega arith)
          ∙ ap (λ j. get_or c (j % cap) d) q

      later : (i : ℕ) → i < n → get_or b ((h + 1 + i) % cap) d ≡ get_or c ((k + 1 + i) % cap) d
      later i lt =
          let p : h + 1 + i ≡ h + suc i = omega arith in
          let q : k + 1 + i ≡ k + suc i = omega arith in
          ap (λ j. get_or b (j % cap) d) p
          ∙ e (suc i) (omega arith)
          ∙ ap (λ j. get_or c (j % cap) d) (sym q)

  -- The start counts up to whole rounds.
  pub window-mod : (buf : List A) (h n : ℕ) → window buf (h % cap) n ≡ window buf h n
  window-mod buf h n = window_ext buf buf (h % cap) h n λ i lt. rw (mod-add-mod)

  pub window-append :
      (buf : List A) (h m n : ℕ) → window buf h (m + n) ≡ window buf h m ++ window buf (h + m) n
  window-append buf h zero n =
      let p : zero + n ≡ n = omega arith in
      let q : h ≡ h + zero = omega arith in rw p (ap (λ k. window buf k n) q)
  window-append buf h (suc m) n =
      let p : suc m + n ≡ suc (m + n) = omega arith in
      let q : h + 1 + m ≡ h + suc m = omega arith in
      rw p (
        ap (◌∷◌ (get_or buf (h % cap) d))
          (window-append buf (h + 1) m n ∙ ap (λ k. window buf (h + 1) m ++ window buf k n) q))

  -- A write past the window is not seen in it.
  pub window-set :
      (buf : List A) (h n k : ℕ) (v : A)
      → n ≤ k
      → k < cap
      → window (set buf ((h + k) % cap) v) h n ≡ window buf h n
  window-set buf h n k v le lt = window_ext _ buf h h n λ i less.
      get_or-set_ne buf ((h + k) % cap) ((h + i) % cap) v d
        λ e. mod-ne (h + i) (h + k) cap (omega arith) (omega arith) (sym e)

  -- The first element of a window that is not empty.
  pub window-cons :
      (buf : List A) (h n : ℕ)
      → n ≢ 0
      → window buf h n ≡ get_or buf (h % cap) d ∷ window buf (h + 1) (n - 1)
  window-cons buf h zero ne = absurd (ne refl)
  window-cons buf h (suc n) ne = ap (λ k. window buf h (suc k)) (omega arith)

  -- A list that begins with what the window holds.
  pub take-window :
      (xs buf : List A) (h n : ℕ)
      → n ≤ length xs
      → ((i : ℕ) → i < n → get_or xs i d ≡ get_or buf ((h + i) % cap) d)
      → take n xs ≡ window buf h n
  take-window xs buf h zero le e = refl
  take-window [] buf h (suc n) le e = absurd (omega arith)
  take-window (x ∷ xs) buf h (suc n) le e =
      ap₂ ◌∷◌ (e zero (omega arith) ∙ ap (λ k. get_or buf (k % cap) d) start) (
        take-window xs buf (h + 1) n (omega arith)
          λ i lt. e (suc i) (omega arith) ∙ ap (λ k. get_or buf (k % cap) d) (step i))
    where
      start : h + zero ≡ h
      start = omega arith

      step : (i : ℕ) → h + suc i ≡ h + 1 + i
      step i = omega arith
