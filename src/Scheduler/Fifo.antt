-- ===== src/Scheduler/Fifo.antt =====
-- What the ready queue promises: a bounded first-in first-out list, with removal by name.
use thunderos.Prelude.{ℕ, Option, none, some, List, [], ◌∷◌, ◌++◌, ltb, length, if◌then◌else◌}
use thunderos.Scheduler.{ready_queue_size, same_proc}

unfoldable pub enqueue : List (Option ℕ) → ℕ → List (Option ℕ)
enqueue q proc = if ltb (length q) ready_queue_size then q ++ (some proc ∷ []) else q

-- One after another; where the queue is full, the rest is left out.
unfoldable pub enqueue_all : List (Option ℕ) → List ℕ → List (Option ℕ)
enqueue_all q [] = q
enqueue_all q (proc ∷ procs) = enqueue_all (enqueue q proc) procs

unfoldable pub pick_next : List (Option ℕ) → Option ℕ × List (Option ℕ)
pick_next [] = (none, [])
pick_next (x ∷ q) = (x, q)

-- The first entry of that name goes.
unfoldable pub dequeue : List (Option ℕ) → ℕ → List (Option ℕ)
dequeue [] proc = []
dequeue (x ∷ q) proc = if same_proc x proc then q else x ∷ dequeue q proc
