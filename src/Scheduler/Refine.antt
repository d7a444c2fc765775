-- ===== src/Scheduler/Refine.antt =====
-- The circular array with its shifting loop behaves as the list of Fifo.
use native.Mathlib.Nat.{mod-eq_of_lt}
use thunderos.Prelude.{
  ℕ, zero, suc, ◌+◌, ◌-◌, ◌%◌, ◌<◌, ◌≡◌, sym, ap, ap₂, ◌∙◌, Option, none, some, List, [], ◌∷◌, ◌++◌,
  arith, Bool-cases, inl, inr, get_or, set, get_or-set_self, window, window-append, window-cons,
  window-set, window-mod, length-window, append-nil, append_assoc,
}
use thunderos.Scheduler.{
  Scheduler, ready_queue_size, same_proc, shift, dequeue_from, scheduler_enqueue, scheduler_dequeue,
  scheduler_pick_next,
}
use thunderos.Scheduler.Fifo
use thunderos.Scheduler.Invariant.{IsValid, contents}
use thunderos.Scheduler.Shift.{slot, length-shift, window-shift}

-- `scheduler_enqueue` appends the process, or changes nothing where 64 processes wait.
pub scheduler_enqueue_refines :
    (s : Scheduler) (proc : ℕ)
    → IsValid s
    → contents (scheduler_enqueue s (some proc)) ≡ Fifo.enqueue (contents s) proc
unfolding scheduler_enqueue Fifo.enqueue
scheduler_enqueue_refines s proc v =
    ground (arith, length-window none ready_queue_size q h n, appended)
  where
    open s use {ready_queue as q, queue_head as h, queue_count as n, queue_tail as tail}

    last : get_or (set q tail (some proc)) ((h + n) % ready_queue_size) none ≡ some proc
    last =
        rw (← v.tail_at)
          (get_or-set_self q tail (some proc) none (omega (arith, v.tail_at, v.size)))

    appended :
        n < ready_queue_size
        → window none ready_queue_size (set q tail (some proc)) h (n + 1)
          ≡ window none ready_queue_size q h n ++ (some proc ∷ [])
    appended lt =
        window-append none ready_queue_size (set q tail (some proc)) h n 1
        ∙ ap₂ ◌++◌
            (rw v.tail_at (window-set none ready_queue_size q h n n (some proc) (omega arith) lt))
            (ap (λ x. x ∷ []) last)

-- `scheduler_pick_next` takes the oldest process, or returns NULL where none waits.
pub scheduler_pick_next_refines :
    (s : Scheduler)
    → IsValid s
    → let (proc, s') = scheduler_pick_next s in (proc, contents s') ≡ Fifo.pick_next (contents s)
unfolding scheduler_pick_next Fifo.pick_next
scheduler_pick_next_refines s v = ground (
  arith,
  window-cons none ready_queue_size q h n,
  window-mod none ready_queue_size q (h + 1) (n - 1),
  mod-eq_of_lt v.head_in,
)
  where
    open s use {ready_queue as q, queue_head as h, queue_count as n}

module _ (s : Scheduler) (proc : ℕ) (v : IsValid s) where
  open s use {ready_queue as q, queue_head as h, queue_count as n}

  abbrev from : ℕ → ℕ → List (Option ℕ)
  from start k = window none ready_queue_size q start k

  -- The state after entry `i` has been taken out.
  abbrev without : ℕ → Scheduler
  without i = record s {
    ready_queue = shift q h (n - 1 - i) i;
    queue_tail = (s.queue_tail + ready_queue_size - 1) % ready_queue_size;
    queue_count = n - 1;
  }

  without-IsValid : (rounds i : ℕ) → i + suc rounds ≡ n → IsValid (without i)
  without-IsValid rounds i e = record {
    size = length-shift q h (n - 1 - i) i ∙ v.size;
    head_in = v.head_in;
    count_in = omega (arith, v.count_in);
    tail_at = omega (arith, v.tail_at);
  }

  contents-without :
      (rounds i : ℕ)
      → i + suc rounds ≡ n
      → contents (without i) ≡ from h i ++ from (h + i + 1) rounds
  contents-without rounds i e =
      let a : n - 1 - i ≡ rounds = omega arith in
      let b : n - 1 ≡ i + rounds = omega arith in
      rw (a, b) (window-shift q h rounds i v.size (omega (arith, v.count_in)))

  looked_at :
      (i : ℕ) (rest : List (Option ℕ))
      → from h (i + 1) ++ rest ≡ from h i ++ (slot q (h + i) ∷ rest)
  looked_at i rest =
      rw (window-append none ready_queue_size q h i 1)
        (append_assoc (from h i) (from (h + i) 1) rest)

  -- The outer loop: the `i` entries looked at stay, and the rest is searched.
  dequeue_from_refines :
      (rounds i : ℕ)
      → i + rounds ≡ n
      → IsValid (dequeue_from s proc rounds i)
        × (contents (dequeue_from s proc rounds i)
            ≡ from h i ++ Fifo.dequeue (from (h + i) rounds) proc)
  unfolding dequeue_from Fifo.dequeue
  dequeue_from_refines zero i e =
      let all : n ≡ i = omega arith in (v, ap (from h) all ∙ sym (append-nil (from h i)))
  dequeue_from_refines (suc rounds) i e = elim (Bool-cases (same_proc (slot q (h + i)) proc)) [
    | inl hit ↦ rw hit (without-IsValid rounds i e, contents-without rounds i e)
    | inr miss ↦
        let (valid, rest) = dequeue_from_refines rounds (i + 1) (omega arith) in
        let next : h + (i + 1) ≡ h + i + 1 = omega arith in
        rw miss (
          valid,
          rest
              ∙ looked_at i (Fifo.dequeue (from (h + (i + 1)) rounds) proc)
              ∙ ap (λ k. from h i ++ (slot q (h + i) ∷ Fifo.dequeue (from k rounds) proc)) next,
        )
  ]

-- `scheduler_dequeue` takes the first entry of that process out and keeps the order of the others;
-- the invariant holds afterwards.
pub scheduler_dequeue_refines :
    (s : Scheduler) (proc : ℕ)
    → IsValid s
    → IsValid (scheduler_dequeue s (some proc))
      × (contents (scheduler_dequeue s (some proc)) ≡ Fifo.dequeue (contents s) proc)
unfolding scheduler_dequeue Fifo.dequeue
scheduler_dequeue_refines s proc v =
    let start : s.queue_head + 0 ≡ s.queue_head = omega arith in
    let (valid, e) = dequeue_from_refines s proc v s.queue_count 0 (omega arith) in
    (
      valid,
      e
          ∙ ap (λ k. Fifo.dequeue (window none ready_queue_size s.ready_queue k s.queue_count) proc)
              start,
    )
