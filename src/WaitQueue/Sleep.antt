-- ===== src/WaitQueue/Sleep.antt =====
-- Going to sleep on a queue, leaving it, and the count of its entries.
use thunderos.Prelude.{
  ℕ, ◌+◌, ◌^◌, ◌<◌, ◌≡◌, ◌≢◌, refl, ap, ◌∙◌, sym, Option, none, some, List, [], ◌∷◌, ◌++◌, Bool,
  true, false, ◌==◌, if◌then◌else◌, arith, length, Bool-cases, inl, inr,
}
use thunderos.Scheduler.{scheduler_dequeue}
use thunderos.Scheduler.Fifo
use thunderos.Scheduler.Invariant.{IsValid, contents}
use thunderos.Scheduler.Refine.{scheduler_dequeue_refines}
use thunderos.Kernel.{Kernel, sleeping, set_state, schedule, kernel_kmalloc}
use thunderos.Kernel.Memory.{SameRest, kernel_kmalloc-SameRest}
use thunderos.Kernel.Schedule.{Switched, schedule_gives_up}
use thunderos.WaitQueue.{
  Entry, WaitQueue, entry_size, inc32, dec32, wait_queue_sleep, wait_queue_remove, remove_loop,
  fall_asleep,
}

-- `count` is the number of entries.
pub record IsCounted (wq : WaitQueue) : Type 0 where
  pub counted : wq.count ≡ length wq.entries
  pub fits : length wq.entries < 2 ^ 32

sleep-memory :
    (wq : WaitQueue) (k : Kernel) (p : ℕ)
    → k.current ≡ some p
    → (kernel_kmalloc k entry_size).0 ≢ 0
    → let m = kernel_kmalloc k entry_size in
      wait_queue_sleep wq k ≡ (
        true,
        record {
          entries = wq.entries ++ (record { proc = p; address = m.0 } ∷ []);
          count = inc32 wq.count;
        },
        fall_asleep m.1 p,
      )
unfolding wait_queue_sleep
sleep-memory wq k p c ne = ground arith

-- `wait_queue_sleep` with memory for the entry: the current process joins the end of the queue and
-- sleeps, it is taken off the ready queue, and the CPU goes to the process that has waited longest
-- among the others; no other state changes.
pub wait_queue_sleep-Switched :
    (wq : WaitQueue) (k : Kernel) (p q : ℕ) (rest : List (Option ℕ))
    → IsValid k.sched
    → k.current ≡ some p
    → (kernel_kmalloc k entry_size).0 ≢ 0
    → Fifo.dequeue (contents k.sched) p ≡ some q ∷ rest
    → p ≢ q
    → let (slept, wq', k') = wait_queue_sleep wq k in
      (slept ≡ true)
      × (wq'.entries
          ≡ wq.entries ++ (record { proc = p; address = (kernel_kmalloc k entry_size).0 } ∷ []))
      × Switched k p q sleeping rest k'
wait_queue_sleep-Switched wq k p q rest v c ne e pq = rw (sleep-memory wq k p c ne) (
  refl,
  refl,
  record {
    runs = t.runs;
    new_state = t.new_state;
    old_state = t.old_state ∙ ground arith;
    other_states = λ j a b. t.other_states j a b ∙ ground (arith, ap (λ f. f j) same.same_state);
    waits = t.waits;
  },
)
  where
    m : Kernel
    m = (kernel_kmalloc k entry_size).1

    same : SameRest k m
    same = kernel_kmalloc-SameRest k entry_size

    dozing : Kernel
    dozing = record m {
      sched = scheduler_dequeue m.sched (some p);
      state = set_state m.state p sleeping;
    }

    left :
        IsValid (scheduler_dequeue m.sched (some p))
        × (contents (scheduler_dequeue m.sched (some p)) ≡ Fifo.dequeue (contents m.sched) p)
    left = scheduler_dequeue_refines m.sched p (rw same.same_sched v)

    t : Switched dozing p q (dozing.state p) rest (schedule dozing)
    t =
        schedule_gives_up dozing p q rest left.0 (same.same_current ∙ c)
          (left.1 ∙ ap (λ s. Fifo.dequeue (contents s) p) same.same_sched ∙ e) (ground arith) pq

-- The entries without the first one of a process.
abbrev pub without_first : List Entry → ℕ → List Entry
without_first [] p = []
without_first (e ∷ es) p = if e.proc == p then es else e ∷ without_first es p

abbrev pub has_proc : List Entry → ℕ → Bool
has_proc [] p = false
has_proc (e ∷ es) p = if e.proc == p then true else has_proc es p

-- What the search finds.
abbrev Found : List Entry → ℕ → Option (Entry × List Entry) → Type 0
Found es p none = has_proc es p ≡ false
Found es p (some (e, rest)) =
    (has_proc es p ≡ true)
    × (e.proc ≡ p)
    × (rest ≡ without_first es p)
    × (length es ≡ length rest + 1)

Found-cons :
    (e : Entry) (es : List Entry) (p : ℕ) (o : Option (Entry × List Entry))
    → (e.proc == p) ≡ false
    → Found es p o
    → Found (e ∷ es) p (elim o [ none ↦ none | some (found, rest) ↦ some (found, e ∷ rest) ])
Found-cons e es p none h f = ground arith
Found-cons e es p (some (x, rest)) h f = ground arith

remove_loop-Found : (es : List Entry) (p : ℕ) → Found es p (remove_loop es p)
unfolding remove_loop
remove_loop-Found [] p = refl
remove_loop-Found (e ∷ es) p = elim (Bool-cases (e.proc == p)) [
  | inl h ↦ rw h (ground (arith, h), ground (arith, h), ground (arith, h), omega arith)
  | inr h ↦
      let f = Found-cons e es p (remove_loop es p) h (remove_loop-Found es p) in
      ground (arith, f, h)
]

without_first-none : (es : List Entry) (p : ℕ) → has_proc es p ≡ false → without_first es p ≡ es
without_first-none [] p h = refl
without_first-none (e ∷ es) p h = ground (arith, without_first-none es p)

-- A wait queue with some entry gone.
IsCounted-dec :
    (wq : WaitQueue) (rest : List Entry)
    → IsCounted wq
    → length wq.entries ≡ length rest + 1
    → IsCounted (record { entries = rest; count = dec32 wq.count })
IsCounted-dec wq rest v e = record {
  counted = omega (arith, v.counted, v.fits);
  fits = omega arith;
}

-- `wait_queue_remove` returns 1 exactly if the process has an entry, and then takes its first entry
-- out and keeps the others in their order; the count stays the number of entries.
pub wait_queue_remove-without_first :
    (wq : WaitQueue) (k : Kernel) (p : ℕ)
    → IsCounted wq
    → let (n, wq', k') = wait_queue_remove wq k p in
      (n ≡ (if has_proc wq.entries p then 1 else 0))
      × (wq'.entries ≡ without_first wq.entries p)
      × IsCounted wq'
unfolding wait_queue_remove
wait_queue_remove-without_first wq k p v = by_search (remove_loop wq.entries p) refl
  where
    by_search :
        (o : Option (Entry × List Entry))
        → remove_loop wq.entries p ≡ o
        → let (n, wq', k') = wait_queue_remove wq k p in
          (n ≡ (if has_proc wq.entries p then 1 else 0))
          × (wq'.entries ≡ without_first wq.entries p)
          × IsCounted wq'
    by_search none e =
        let h : has_proc wq.entries p ≡ false = rw e at (remove_loop-Found wq.entries p) in
        rw (e, wait_queue_remove, h) (refl, sym (without_first-none wq.entries p h), v)
    by_search (some (x, rest)) e =
        let f : Found wq.entries p (some (x, rest)) = rw e at (remove_loop-Found wq.entries p) in
        rw (e, wait_queue_remove, f.0) (refl, f.2, IsCounted-dec wq rest v f.3)
