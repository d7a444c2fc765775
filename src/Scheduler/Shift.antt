-- ===== src/Scheduler/Shift.antt =====
-- The shifting loop of `scheduler_dequeue` closes the gap and moves nothing else.
use thunderos.Prelude.{
  ℕ, zero, suc, ◌+◌, ◌%◌, ◌<◌, ◌≡◌, ◌≢◌, refl, sym, ap, ap₂, ◌∙◌, Option, none, List, ◌++◌, arith,
  ltb, leb, ◌&&◌, if◌then◌else◌, length, get_or, set, get_or-set_self, get_or-set_ne, length-set,
  window, window_ext, window-append, mod-ne, ℕ_discrete, dec_lt,
}
use thunderos.Scheduler.{ready_queue_size, shift}

abbrev pub slot : List (Option ℕ) → ℕ → Option ℕ
slot q i = get_or q (i % ready_queue_size) none

slot-set_ne :
    (q : List (Option ℕ)) (h a b : ℕ) (v : Option ℕ)
    → a ≢ b
    → a < ready_queue_size
    → b < ready_queue_size
    → slot (set q ((h + a) % ready_queue_size) v) (h + b) ≡ slot q (h + b)
slot-set_ne q h a b v ne la lb =
    get_or-set_ne q ((h + a) % ready_queue_size) ((h + b) % ready_queue_size) v none distinct
  where
    distinct : (h + a) % ready_queue_size ≢ (h + b) % ready_queue_size
    distinct e = elim (dec_lt a b) [
      | yes lt ↦ mod-ne (h + a) (h + b) ready_queue_size (omega arith) (omega arith) e
      | no ge ↦ mod-ne (h + b) (h + a) ready_queue_size (omega arith) (omega arith) (sym e)
    ]

pub length-shift : (q : List (Option ℕ)) (h n j : ℕ) → length (shift q h n j) ≡ length q
unfolding shift
length-shift q h zero j = refl
length-shift q h (suc n) j =
    length-shift (set q ((h + j) % ready_queue_size) (slot q (h + j + 1))) h n (j + 1)
    ∙ length-set q ((h + j) % ready_queue_size) (slot q (h + j + 1))

-- One round of the loop, for a reading `r` of the slot after the other rounds.
slot-shift_step :
    (q : List (Option ℕ)) (h n j k : ℕ) (r : Option ℕ)
    → length q ≡ ready_queue_size
    → j + suc n < ready_queue_size
    → k < ready_queue_size
    → let q' = set q ((h + j) % ready_queue_size) (slot q (h + j + 1)) in
      r ≡ (if leb (j + 1) k && ltb k (j + 1 + n) then slot q' (h + (k + 1)) else slot q' (h + k))
      → r ≡ (if leb j k && ltb k (j + suc n) then slot q (h + (k + 1)) else slot q (h + k))
slot-shift_step q h n j k r e b l ih = elim (ℕ_discrete j k) [
  | yes eq ↦
      let here : slot q' (h + k) ≡ slot q (h + (k + 1)) =
        rw (← eq)
          (get_or-set_self q ((h + j) % ready_queue_size) v none (omega (arith, e)) ∙ next) in
      ground (arith, here)
  | no ne ↦ ground (arith, slot-set_ne q h j k v ne, slot-set_ne q h j (k + 1) v)
]
  where
    v : Option ℕ
    v = slot q (h + j + 1)

    q' : List (Option ℕ)
    q' = set q ((h + j) % ready_queue_size) v

    next : v ≡ slot q (h + (j + 1))
    next = let p : h + j + 1 ≡ h + (j + 1) = omega arith in ap (slot q) p

-- Slot `k` holds what slot `k + 1` held, for `k` in the `n` rounds from `j`, and else what it held.
pub slot-shift :
    (q : List (Option ℕ)) (h n j k : ℕ)
    → length q ≡ ready_queue_size
    → j + n < ready_queue_size
    → k < ready_queue_size
    → slot (shift q h n j) (h + k)
      ≡ (if leb j k && ltb k (j + n) then slot q (h + (k + 1)) else slot q (h + k))
unfolding shift
slot-shift q h zero j k e b l = ground arith
slot-shift q h (suc n) j k e b l =
    let q' = set q ((h + j) % ready_queue_size) (slot q (h + j + 1)) in
    slot-shift_step q h n j k (slot (shift q' h n (j + 1)) (h + k)) e b l (
      slot-shift q' h n (j + 1) k (length-set q ((h + j) % ready_queue_size) _ ∙ e) (omega arith) l)

-- So the window before the gap stays, and the window after it moves up by one.
pub window-shift :
    (q : List (Option ℕ)) (h n j : ℕ)
    → length q ≡ ready_queue_size
    → j + n < ready_queue_size
    → window none ready_queue_size (shift q h n j) h (j + n)
      ≡ window none ready_queue_size q h j ++ window none ready_queue_size q (h + j + 1) n
window-shift q h n j e b =
    window-append none ready_queue_size (shift q h n j) h j n ∙ ap₂ ◌++◌ before after
  where
    before : window none ready_queue_size (shift q h n j) h j ≡ window none ready_queue_size q h j
    before =
        window_ext none ready_queue_size (shift q h n j) q h h j
          λ i lt. ground (arith, slot-shift q h n j i e b (omega arith))

    after :
        window none ready_queue_size (shift q h n j) (h + j) n
        ≡ window none ready_queue_size q (h + j + 1) n
    after = window_ext none ready_queue_size (shift q h n j) q (h + j) (h + j + 1) n λ i lt.
        let a : h + j + i ≡ h + (j + i) = omega arith in
        let c : h + j + 1 + i ≡ h + (j + i + 1) = omega arith in
        rw (a, c) (ground (arith, slot-shift q h n j (j + i) e b (omega arith)))
