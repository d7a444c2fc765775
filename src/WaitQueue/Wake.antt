-- ===== src/WaitQueue/Wake.antt =====
-- Whom `wait_queue_wake` and `wait_queue_wake_one` wake, and in what order.
use thunderos.Prelude.{
  ℕ, ◌+◌, ◌-◌, ◌≡◌, refl, sym, subst, ap, ap₂, ◌∙◌, some, List, [], ◌∷◌, Bool, true, false, ◌==◌,
  ◌&&◌, ◌||◌, if◌then◌else◌, arith, length, Bool-cases, inl, inr,
}
use thunderos.Scheduler.{scheduler_enqueue}
use thunderos.Scheduler.Fifo
use thunderos.Scheduler.Invariant.{IsValid, contents, scheduler_enqueue-IsValid}
use thunderos.Scheduler.Refine.{scheduler_enqueue_refines}
use thunderos.Kernel.{Kernel, ProcState, ready, is_sleeping, set_state}
use thunderos.Kernel.Memory.{IsBlock, kernel_kfree-SameRest, kernel_kfree_safe}
use thunderos.Kmalloc.{Heap, header_size}
use thunderos.WaitQueue.{
  Entry, WaitQueue, round, wake_proc, wake_loop, wait_queue_wake, wait_queue_wake_one,
  wait_queue_init, dec32,
}

-- The processes that the entries wake: those that sleep, each once, the longest waiting first.
abbrev pub woken_by : List Entry → (ℕ → ProcState) → List ℕ
woken_by [] st = []
woken_by (e ∷ es) st =
    if is_sleeping (st e.proc)
    then e.proc ∷ woken_by es (set_state st e.proc ready)
    else woken_by es st

-- Whether a process has an entry.
abbrev pub has_entry : List Entry → ℕ → Bool
has_entry [] p = false
has_entry (e ∷ es) p = e.proc == p || has_entry es p

-- What waking the processes of some entries has done.
pub record Woke (entries : List Entry) (woken : ℕ) (k : Kernel) (r : ℕ × Kernel) : Type 0 where
  pub number : r.0 ≡ woken + length (woken_by entries k.state)
  pub states :
      (p : ℕ)
      → r.1.state p ≡ (if has_entry entries p && is_sleeping (k.state p) then ready else k.state p)
  pub same_current : r.1.current ≡ k.current
  pub calm : r.1.panicked ≡ k.panicked
  pub same_headers : r.1.heap.header ≡ k.heap.header
  pub valid : IsValid r.1.sched
  pub queued : contents r.1.sched ≡ Fifo.enqueue_all (contents k.sched) (woken_by entries k.state)

-- Every entry is a block of the heap, so that `kfree` takes it without a panic.
abbrev pub AreBlocks : List Entry → Heap → Type 0
AreBlocks [] h = Unit {0}
AreBlocks (e ∷ es) h = IsBlock h e.address × AreBlocks es h

AreBlocks-header :
    (es : List Entry) (h h' : Heap) → h'.header ≡ h.header → AreBlocks es h → AreBlocks es h'
AreBlocks-header [] h h' same b = tt
AreBlocks-header (e ∷ es) h h' same b =
    let c = b.0 in
    (
      record {
        hd = c.hd;
        nonnull = c.nonnull;
        found = ap (λ f. f (e.address - header_size)) same ∙ c.found;
        genuine = c.genuine;
      },
      AreBlocks-header es h h' same b.1,
    )

wake_proc-heap :
    (k : Kernel) (p : ℕ) → ((wake_proc k p).heap ≡ k.heap) × ((wake_proc k p).panicked ≡ k.panicked)
wake_proc-heap k p = (ground arith, ground arith)

-- A round does not panic and leaves the headers.
round_safe :
    (e : Entry) (k : Kernel)
    → IsBlock k.heap e.address
    → ((round e k).panicked ≡ k.panicked) × ((round e k).heap.header ≡ k.heap.header)
round_safe e k b =
    let (heap, calm) = wake_proc-heap k e.proc in
    let (a, c) =
      kernel_kfree_safe (wake_proc k e.proc) e.address
        (subst (λ h. IsBlock h e.address) (sym heap) b) in
    (a ∙ calm, c ∙ ap (λ (h : Heap). h.header) heap)

round-sched :
    (e : Entry) (k : Kernel)
    → (round e k).sched
      ≡ (if is_sleeping (k.state e.proc) then scheduler_enqueue k.sched (some e.proc) else k.sched)
round-sched e k = (kernel_kfree-SameRest (wake_proc k e.proc) e.address).same_sched ∙ ground arith

round-state :
    (e : Entry) (k : Kernel)
    → (round e k).state
      ≡ (if is_sleeping (k.state e.proc) then set_state k.state e.proc ready else k.state)
round-state e k = (kernel_kfree-SameRest (wake_proc k e.proc) e.address).same_state ∙ ground arith

round-current : (e : Entry) (k : Kernel) → (round e k).current ≡ k.current
round-current e k =
    (kernel_kfree-SameRest (wake_proc k e.proc) e.address).same_current ∙ ground arith

Woke-sleeping :
    (e : Entry) (es : List Entry) (woken : ℕ) (k q : Kernel) (r : ℕ × Kernel)
    → IsValid k.sched
    → is_sleeping (k.state e.proc) ≡ true
    → q.state ≡ set_state k.state e.proc ready
    → q.sched ≡ scheduler_enqueue k.sched (some e.proc)
    → q.current ≡ k.current
    → (q.panicked ≡ k.panicked) × (q.heap.header ≡ k.heap.header)
    → Woke es (woken + 1) q r
    → Woke (e ∷ es) woken k r
unfolding Fifo.enqueue_all
Woke-sleeping e es woken k q r v s hs hq hc safe t = record {
  number = rw s (omega (arith, t.number, ap (λ f. length (woken_by es f)) hs));
  states = λ p. ground (arith, t.states p, ap (λ f. f p) hs);
  same_current = t.same_current ∙ hc;
  calm = t.calm ∙ safe.0;
  same_headers = t.same_headers ∙ safe.1;
  valid = t.valid;
  queued = rw s (
      t.queued
      ∙ ap₂ Fifo.enqueue_all (ap contents hq ∙ scheduler_enqueue_refines k.sched e.proc v)
          (ap (woken_by es) hs));
}

Woke-awake :
    (e : Entry) (es : List Entry) (woken : ℕ) (k q : Kernel) (r : ℕ × Kernel)
    → is_sleeping (k.state e.proc) ≡ false
    → q.state ≡ k.state
    → q.sched ≡ k.sched
    → q.current ≡ k.current
    → (q.panicked ≡ k.panicked) × (q.heap.header ≡ k.heap.header)
    → Woke es woken q r
    → Woke (e ∷ es) woken k r
Woke-awake e es woken k q r s hs hq hc safe t = record {
  number = rw s (omega (arith, t.number, ap (λ f. length (woken_by es f)) hs));
  states = λ p. ground (arith, t.states p, ap (λ f. f p) hs);
  same_current = t.same_current ∙ hc;
  calm = t.calm ∙ safe.0;
  same_headers = t.same_headers ∙ safe.1;
  valid = t.valid;
  queued = rw (s, ← hs, ← hq) t.queued;
}

-- A round that does not panic is followed by the others.
wake_loop-round :
    (e : Entry) (es : List Entry) (woken n : ℕ) (k : Kernel)
    → (round e k).panicked ≡ false
    → (if is_sleeping (k.state e.proc) then woken + 1 else woken) ≡ n
    → wake_loop (e ∷ es) woken k ≡ wake_loop es n (round e k)
unfolding wake_loop
wake_loop-round e es woken n k still count =
    let last : ℕ × Kernel =
      (if is_sleeping (k.state e.proc) then woken + 1 else woken, round e k) in
    ap
      (λ b.
        if b
        then last
        else wake_loop es (if is_sleeping (k.state e.proc) then woken + 1 else woken) (round e k))
      still
    ∙ ap (λ m. wake_loop es m (round e k)) count

wake_loop-Woke :
    (entries : List Entry) (woken : ℕ) (k : Kernel)
    → IsValid k.sched
    → k.panicked ≡ false
    → AreBlocks entries k.heap
    → Woke entries woken k (wake_loop entries woken k)
unfolding wake_loop Fifo.enqueue_all
wake_loop-Woke [] woken k v calm b = record {
  number = omega arith;
  states = λ p. refl;
  same_current = refl;
  calm = refl;
  same_headers = refl;
  valid = v;
  queued = refl;
}
wake_loop-Woke (e ∷ es) woken k v calm b =
    let safe = round_safe e k b.0 in
    let still : (round e k).panicked ≡ false = safe.0 ∙ calm in
    let more : AreBlocks es (round e k).heap =
      AreBlocks-header es k.heap (round e k).heap safe.1 b.1 in
    elim (Bool-cases (is_sleeping (k.state e.proc))) [
      | inl s ↦
          let hq : (round e k).sched ≡ scheduler_enqueue k.sched (some e.proc) =
            round-sched e k ∙ ground arith in
          let hs : (round e k).state ≡ set_state k.state e.proc ready =
            round-state e k ∙ ground arith in
          let valid : IsValid (round e k).sched =
            rw hq (scheduler_enqueue-IsValid k.sched (some e.proc) v) in
          let count : (if is_sleeping (k.state e.proc) then woken + 1 else woken) ≡ woken + 1 =
            ground arith in
          subst (Woke (e ∷ es) woken k) (sym (wake_loop-round e es woken (woken + 1) k still count))
            (Woke-sleeping e es woken k (round e k) (wake_loop es (woken + 1) (round e k)) v s hs hq
              (round-current e k) safe (wake_loop-Woke es (woken + 1) (round e k) valid still more))
      | inr s ↦
          let hq : (round e k).sched ≡ k.sched = round-sched e k ∙ ground arith in
          let hs : (round e k).state ≡ k.state = round-state e k ∙ ground arith in
          let valid : IsValid (round e k).sched = rw hq v in
          let count : (if is_sleeping (k.state e.proc) then woken + 1 else woken) ≡ woken =
            ground arith in
          subst (Woke (e ∷ es) woken k) (sym (wake_loop-round e es woken woken k still count)) (
            Woke-awake e es woken k (round e k) (wake_loop es woken (round e k)) s hs hq
              (round-current e k) safe (wake_loop-Woke es woken (round e k) valid still more))
    ]

-- `wait_queue_wake`, with a valid ready queue, no panic before, and entries that are blocks of the
-- heap, does not panic and empties the queue. It makes exactly the processes ready that have an
-- entry and sleep, returns how many those are, changes no other state, and appends them to the
-- ready queue in the order in which they wait, each of them unless the ready queue is full then;
-- the invariant of the ready queue holds afterwards.
pub wait_queue_wake-Woke :
    (wq : WaitQueue) (k : Kernel)
    → IsValid k.sched
    → k.panicked ≡ false
    → AreBlocks wq.entries k.heap
    → let (woken, wq', k') = wait_queue_wake wq k in
      Woke wq.entries 0 k (woken, k') × (wq'.entries ≡ []) × (wq'.count ≡ 0)
unfolding wait_queue_wake
wait_queue_wake-Woke wq k v calm b = (wake_loop-Woke wq.entries 0 k v calm b, refl, refl)

-- `wait_queue_wake_one` takes the longest waiting entry off the queue, keeps the others in their
-- order, and wakes the process of that entry, if it sleeps, and no other.
pub wait_queue_wake_one-Woke :
    (e : Entry) (rest : List Entry) (count : ℕ) (k : Kernel)
    → IsValid k.sched
    → k.panicked ≡ false
    → IsBlock k.heap e.address
    → let (woken, wq', k') = wait_queue_wake_one (record { entries = e ∷ rest; count = count }) k in
      (woken ≡ 1)
      × (wq'.entries ≡ rest)
      × (wq'.count ≡ dec32 count)
      × Woke (e ∷ []) 0 k (length (woken_by (e ∷ []) k.state), k')
unfolding wait_queue_wake_one wake_loop
wait_queue_wake_one-Woke e rest count k v calm b =
    let still : (round e k).panicked ≡ false = (round_safe e k b).0 ∙ calm in
    let t : Woke (e ∷ []) 0 k (wake_loop (e ∷ []) 0 k) =
      wake_loop-Woke (e ∷ []) 0 k v calm (b, tt) in
    let n : ℕ = if is_sleeping (k.state e.proc) then 1 else 0 in
    let out : (wake_loop (e ∷ []) 0 k).1 ≡ round e k =
      ap (λ r. r.1) (wake_loop-round e [] 0 n k still refl) in
    (
      refl,
      refl,
      refl,
      subst (λ q. Woke (e ∷ []) 0 k (length (woken_by (e ∷ []) k.state), q)) out
          (record {
            number = omega arith;
            states = t.states;
            same_current = t.same_current;
            calm = t.calm;
            same_headers = t.same_headers;
            valid = t.valid;
            queued = t.queued;
          }),
    )

-- Nobody waits on a new queue.
pub wait_queue_init-nil : wait_queue_init.entries ≡ []
unfolding wait_queue_init
wait_queue_init-nil = refl

pub wait_queue_wake-none :
    (count : ℕ) (k : Kernel) → (wait_queue_wake (record { entries = []; count = count }) k).2 ≡ k
unfolding wait_queue_wake wake_loop
wait_queue_wake-none count k = refl
