-- ===== src/WaitQueue.antt =====
-- kernel/core/wait_queue.c: queues of sleeping processes. The linked list from `head` to `tail` is
-- the list of its entries; an entry is its process and the address that `kmalloc` gave it. The code
-- that is modelled passes the address of a field, never NULL, so the NULL checks are left out. The
-- operations run with interrupts disabled, and each is one step; `wait_queue_sleep` enables them again
-- right before it calls `schedule`, and the model lets nothing happen between the two.
pub mod Wake
pub mod Sleep
pub mod Tests
use thunderos.Prelude.{
  ℕ, zero, suc, ◌+◌, ◌-◌, ◌%◌, ◌^◌, Option, none, some, List, [], ◌∷◌, ◌++◌, Bool, true, false,
  ◌==◌, if◌then◌else◌,
}
use thunderos.Scheduler.{scheduler_dequeue}
use thunderos.Kernel.{
  Kernel, sleeping, is_sleeping, set_state, make_ready, schedule, kernel_kmalloc, kernel_kfree,
}

pub record Entry : Type 0 where
  pub proc : ℕ
  pub address : ℕ

-- `count` is a uint32_t.
pub record WaitQueue : Type 0 where
  pub entries : List Entry
  pub count : ℕ

pub wait_queue_init : WaitQueue
wait_queue_init = record { entries = []; count = 0 }

-- `sizeof(wait_queue_entry_t)`: two pointers.
abbrev pub entry_size : ℕ
entry_size = 16

abbrev pub inc32 : ℕ → ℕ
inc32 n = (n + 1) % 2 ^ 32

abbrev pub dec32 : ℕ → ℕ
dec32 n = (n + 2 ^ 32 - 1) % 2 ^ 32

-- The current process marked as sleeping, taken off the ready queue, and the CPU given up.
abbrev pub fall_asleep : Kernel → ℕ → Kernel
fall_asleep k proc = schedule (record k {
  sched = scheduler_dequeue k.sched (some proc);
  state = set_state k.state proc sleeping;
})

-- `wait_queue_sleep`, up to the point where the CPU is given up. Without a current process, or
-- without memory for the entry, it returns at once; the Boolean tells whether it sleeps.
pub wait_queue_sleep : WaitQueue → Kernel → Bool × WaitQueue × Kernel
wait_queue_sleep wq k = elim k.current [
  | none ↦ (false, wq, k)
  | some proc ↦
      let (entry, k') = kernel_kmalloc k entry_size in
      if entry == 0 then (false, wq, k') else (
        true,
        record {
          entries = wq.entries ++ (record { proc = proc; address = entry } ∷ []);
          count = inc32 wq.count;
        },
        fall_asleep k' proc,
      )
]

-- `if (proc->state == PROC_SLEEPING)`: the process is made ready.
abbrev pub wake_proc : Kernel → ℕ → Kernel
wake_proc k proc = if is_sleeping (k.state proc) then make_ready k proc else k

-- One round of the loop of `wait_queue_wake`: the process is woken and the entry is freed.
abbrev pub round : Entry → Kernel → Kernel
round entry k = kernel_kfree (wake_proc k entry.proc) entry.address

-- The loop of `wait_queue_wake`, with `woken` so far. It ends where `kfree` panics, which halts the
-- machine.
wake_loop : List Entry → ℕ → Kernel → ℕ × Kernel
wake_loop [] woken k = (woken, k)
wake_loop (entry ∷ next) woken k =
    let woken' = if is_sleeping (k.state entry.proc) then woken + 1 else woken in
    let rest = wake_loop next woken' (round entry k) in
    if (round entry k).panicked then (woken', round entry k) else rest

pub wait_queue_wake : WaitQueue → Kernel → ℕ × WaitQueue × Kernel
unfolding wake_loop
wait_queue_wake wq k =
    let (woken, k') = wake_loop wq.entries 0 k in (woken, record { entries = []; count = 0 }, k')

pub wait_queue_wake_one : WaitQueue → Kernel → ℕ × WaitQueue × Kernel
wait_queue_wake_one wq k = elim wq.entries [
  | [] ↦ (0, wq, k)
  | entry ∷ rest ↦ (
    1,
    record { entries = rest; count = dec32 wq.count },
    kernel_kfree (wake_proc k entry.proc) entry.address,
  )
]

pub wait_queue_empty : WaitQueue → Bool
wait_queue_empty wq = wq.count == 0

pub wait_queue_count : WaitQueue → ℕ
wait_queue_count wq = wq.count

-- The loop of `wait_queue_remove`: the entry found and the other entries.
remove_loop : List Entry → ℕ → Option (Entry × List Entry)
remove_loop [] proc = none
remove_loop (entry ∷ next) proc =
    if entry.proc == proc then some (entry, next) else elim (remove_loop next proc) [
      | none ↦ none
      | some (found, rest) ↦ some (found, entry ∷ rest)
    ]

pub wait_queue_remove : WaitQueue → Kernel → ℕ → ℕ × WaitQueue × Kernel
unfolding remove_loop
wait_queue_remove wq k proc = elim (remove_loop wq.entries proc) [
  | none ↦ (0, wq, k)
  | some (found, rest) ↦
      (1, record { entries = rest; count = dec32 wq.count }, kernel_kfree k found.address)
]
