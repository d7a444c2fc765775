-- ===== src/Kernel/Schedule.antt =====
-- What `schedule` does with the current process and the ready queue.
use thunderos.Prelude.{
  ℕ, ◌-◌, ◌≤◌, ◌<◌, ◌≡◌, ◌≢◌, refl, ap, ◌∙◌, Option, none, some, List, [], ◌∷◌, ◌++◌, arith, false,
  length, length-window,
}
use thunderos.Scheduler.{
  Scheduler, full_time_slice, ready_queue_size, scheduler_enqueue, scheduler_pick_next,
}
use thunderos.Scheduler.Fifo
use thunderos.Scheduler.Invariant.{
  IsValid, contents, scheduler_pick_next-IsValid, slice-scheduler_enqueue,
  slice-scheduler_pick_next,
}
use thunderos.Scheduler.Refine.{scheduler_enqueue_refines, scheduler_pick_next_refines}
use thunderos.Kernel.{Kernel, ProcState, running, ready, schedule, switch_to, is_running, set_state}

abbrev with_slice : Scheduler → ℕ → Scheduler
with_slice s n = record s { current_time_slice = n }

-- The oldest waiting process is picked.
module _ (s : Scheduler) (v : IsValid s) (p : Option ℕ) (rest : List (Option ℕ))
    (e : contents s ≡ p ∷ rest) where
  picked : (scheduler_pick_next s).0 ≡ p
  unfolding Fifo.pick_next
  picked = ap (λ r. r.0) (scheduler_pick_next_refines s v ∙ ap Fifo.pick_next e)

  left : contents (scheduler_pick_next s).1 ≡ rest
  unfolding Fifo.pick_next
  left = ap (λ r. r.1) (scheduler_pick_next_refines s v ∙ ap Fifo.pick_next e)

  short : length rest < ready_queue_size
  short = omega (
    arith,
    ap length e,
    length-window none ready_queue_size s.ready_queue s.queue_head s.queue_count,
    v.count_in,
  )

-- The preempted process goes to the end of the queue.
module _ (s : Scheduler) (v : IsValid s) (p : Option ℕ) (rest : List (Option ℕ))
    (e : contents s ≡ p ∷ rest) (old : ℕ) where
  requeued :
      contents (scheduler_enqueue (scheduler_pick_next s).1 (some old)) ≡ rest ++ (some old ∷ [])
  unfolding Fifo.enqueue
  requeued =
      scheduler_enqueue_refines (scheduler_pick_next s).1 old (scheduler_pick_next-IsValid s v)
      ∙ rw (left s v p rest e) (ground (arith, short s v p rest e))

-- Switching away from a process that runs, and from one that does not.
switch_to-running :
    (k : Kernel) (p q : ℕ)
    → k.current ≡ some p
    → k.state p ≡ running
    → p ≢ q
    → switch_to k (some q) ≡ record k {
      sched = scheduler_enqueue k.sched (some p);
      state = set_state (set_state k.state p ready) q running;
      current = some q;
    }
unfolding switch_to
switch_to-running k p q c r ne = ground arith

switch_to-blocked :
    (k : Kernel) (p q : ℕ)
    → k.current ≡ some p
    → is_running (k.state p) ≡ false
    → p ≢ q
    → switch_to k (some q) ≡ record k { state = set_state k.state q running; current = some q }
unfolding switch_to
switch_to-blocked k p q c r ne = ground arith

switch_to_self : (k : Kernel) (p : ℕ) → k.current ≡ some p → switch_to k (some p) ≡ k
unfolding switch_to
switch_to_self k p c = ground arith

-- The kernel after `scheduler_pick_next` on its queue with the slice `n`.
abbrev after_pick : Kernel → ℕ → Kernel
after_pick k n = record k { sched = (scheduler_pick_next (with_slice k.sched n)).1 }

schedule-preempts :
    (k : Kernel) (p : ℕ)
    → k.current ≡ some p
    → k.state p ≡ running
    → k.sched.current_time_slice ≤ 1
    → schedule k
      ≡ switch_to
          (after_pick k full_time_slice)
          (scheduler_pick_next (with_slice k.sched full_time_slice)).0
unfolding schedule
schedule-preempts k p c r le = ground arith

schedule-gives_up :
    (k : Kernel) (p : ℕ)
    → k.current ≡ some p
    → is_running (k.state p) ≡ false
    → let n = k.sched.current_time_slice - 1 in
      schedule k ≡ switch_to (after_pick k n) (scheduler_pick_next (with_slice k.sched n)).0
unfolding schedule
schedule-gives_up k p c r = ground arith

-- What a switch from `p` to `q` leaves: who runs, the states, and who waits.
pub record Switched (k : Kernel) (p q : ℕ) (st : ProcState) (waiting : List (Option ℕ))
    (k' : Kernel) : Type 0 where
  pub runs : k'.current ≡ some q
  pub new_state : k'.state q ≡ running
  pub old_state : k'.state p ≡ st
  pub other_states : (j : ℕ) → j ≢ p → j ≢ q → k'.state j ≡ k.state j
  pub waits : contents k'.sched ≡ waiting

module _ (k : Kernel) (p q : ℕ) (rest : List (Option ℕ)) (v : IsValid k.sched)
    (c : k.current ≡ some p) where
  -- Round robin: when the time slice of the running process is used up, `schedule` hands the CPU
  -- to the process that has waited longest, makes the old one ready, puts it at the end of the
  -- queue, starts a full time slice, and changes no other state.
  pub schedule_round_robin :
      contents k.sched ≡ some q ∷ rest
      → k.state p ≡ running
      → k.sched.current_time_slice ≤ 1
      → p ≢ q
      → Switched k p q ready (rest ++ (some p ∷ [])) (schedule k)
        × ((schedule k).sched.current_time_slice ≡ full_time_slice)
  schedule_round_robin e r le ne =
      rw
        (
          schedule-preempts k p c r le,
          picked (with_slice k.sched full_time_slice) w (some q) rest e,
          switch_to-running (after_pick k full_time_slice) p q c r ne,
        )
        (
          record {
            runs = refl;
            new_state = ground arith;
            old_state = ground arith;
            other_states = λ j a b. ground arith;
            waits = requeued (with_slice k.sched full_time_slice) w (some q) rest e p;
          },
          slice-scheduler_enqueue _ (some p)
              ∙ slice-scheduler_pick_next (with_slice k.sched full_time_slice),
        )
    where
      w : IsValid (with_slice k.sched full_time_slice)
      w = record { size = v.size; head_in = v.head_in; count_in = v.count_in; tail_at = v.tail_at }

  -- A current process that does not run (it sleeps, is stopped or has exited) is not put back:
  -- `schedule` hands the CPU to the process that has waited longest and leaves the old one's state.
  pub schedule_gives_up :
      contents k.sched ≡ some q ∷ rest
      → is_running (k.state p) ≡ false
      → p ≢ q
      → Switched k p q (k.state p) rest (schedule k)
  schedule_gives_up e r ne =
      let n = k.sched.current_time_slice - 1 in
      let w : IsValid (with_slice k.sched n) = record {
        size = v.size;
        head_in = v.head_in;
        count_in = v.count_in;
        tail_at = v.tail_at;
      } in
      rw
        (
          schedule-gives_up k p c r,
          picked (with_slice k.sched n) w (some q) rest e,
          switch_to-blocked (after_pick k n) p q c r ne,
        )
        (record {
          runs = refl;
          new_state = ground arith;
          old_state = ground arith;
          other_states = λ j a b. ground arith;
          waits = left (with_slice k.sched n) w (some q) rest e;
        })

schedule_self :
    (k : Kernel) (p : ℕ) (rest : List (Option ℕ))
    → IsValid k.sched
    → k.current ≡ some p
    → contents k.sched ≡ some p ∷ rest
    → is_running (k.state p) ≡ false
    → schedule k ≡ after_pick k (k.sched.current_time_slice - 1)
schedule_self k p rest v c e r =
    let n = k.sched.current_time_slice - 1 in
    let w : IsValid (with_slice k.sched n) = record {
      size = v.size;
      head_in = v.head_in;
      count_in = v.count_in;
      tail_at = v.tail_at;
    } in
    rw (schedule-gives_up k p c r, picked (with_slice k.sched n) w (some p) rest e)
      (switch_to_self (after_pick k n) p c)

-- The bug class: a process that is made ready while it is still the current one, after it has gone
-- to sleep and before it has called `schedule`, and that is next in the queue, keeps the CPU but is
-- not marked as running; at the next call of `schedule` it is switched away from and is not put
-- back, so that it is ready, does not run, and no longer waits for the CPU ahead of `rest`.
pub schedule_loses_ready :
    (k : Kernel) (p q : ℕ) (rest : List (Option ℕ))
    → IsValid k.sched
    → k.current ≡ some p
    → k.state p ≡ ready
    → contents k.sched ≡ some p ∷ some q ∷ rest
    → p ≢ q
    → ((schedule k).current ≡ some p)
      × ((schedule (schedule k)).current ≡ some q)
      × ((schedule (schedule k)).state p ≡ ready)
      × (contents (schedule (schedule k)).sched ≡ rest)
schedule_loses_ready k p q rest v c r e ne =
    let n = k.sched.current_time_slice - 1 in
    let w : IsValid (with_slice k.sched n) = record {
      size = v.size;
      head_in = v.head_in;
      count_in = v.count_in;
      tail_at = v.tail_at;
    } in
    let idle : is_running (k.state p) ≡ false = ground arith in
    let t : Switched (after_pick k n) p q (k.state p) rest (schedule (after_pick k n)) =
      schedule_gives_up (after_pick k n) p q rest
        (scheduler_pick_next-IsValid (with_slice k.sched n) w) c
        (left (with_slice k.sched n) w (some p) (some q ∷ rest) e) idle ne in
    rw (schedule_self k p (some q ∷ rest) v c e idle) (c, t.runs, t.old_state ∙ r, t.waits)
