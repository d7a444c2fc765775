-- ===== src/WaitQueue/Tests.antt =====
-- The theorems on wait queues at queues of two processes.
use thunderos.Prelude.{ℕ, ◌==◌, ◌≡◌, refl, none, some, [], ◌∷◌, arith, if◌then◌else◌}
use thunderos.Kmalloc.{Header, kmalloc_magic}
use thunderos.Kmalloc.Tests.{fresh}
use thunderos.Kernel.{Kernel, running, sleeping}
use thunderos.Kernel.Tests.{machine, machine-IsValid}
use thunderos.WaitQueue.{Entry, WaitQueue, wait_queue_wake}
use thunderos.WaitQueue.Sleep.{IsCounted}
use thunderos.WaitQueue.Wake.{AreBlocks, Woke, wait_queue_wake-Woke}

abbrev entry : ℕ → ℕ → Entry
entry proc address = record { proc = proc; address = address }

-- Processes 6 and 7 sleep here.
abbrev pub pair : WaitQueue
pair = record { entries = entry 6 0x8020_0018 ∷ entry 7 0x8020_1018 ∷ []; count = 2 }

abbrev block : Header
block = record { size = 16; pages = 1; magic = kmalloc_magic }

-- The two entries are blocks of the heap.
abbrev pub two_asleep : Kernel
two_asleep = record (machine running) {
  state = λ j. if j == 1 then running else sleeping;
  heap = record fresh {
    header =
        λ a. if a == 0x8020_0000 then some block else if a == 0x8020_1000 then some block else none;
  };
}

pub pair-AreBlocks : AreBlocks pair.entries two_asleep.heap
pair-AreBlocks = (
  record { hd = block; nonnull = omega arith; found = ground arith; genuine = refl },
  (record { hd = block; nonnull = omega arith; found = ground arith; genuine = refl }, tt),
)

pair-IsCounted : IsCounted pair
pair-IsCounted = record { counted = refl; fits = omega arith }

wait_queue_wake-Woke_example :
    let (woken, wq', k') = wait_queue_wake pair two_asleep in
    Woke pair.entries 0 two_asleep (woken, k') × (wq'.entries ≡ []) × (wq'.count ≡ 0)
wait_queue_wake-Woke_example =
    wait_queue_wake-Woke pair two_asleep (machine-IsValid running) refl pair-AreBlocks
