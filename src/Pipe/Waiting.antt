-- ===== src/Pipe/Waiting.antt =====
-- What the waiting loops of `pipe_read` and `pipe_write` have in common: what happens meanwhile,
-- and the turns that they take.
use thunderos.Prelude.{List, [], ◌∷◌}
use thunderos.Kernel.{Kernel}
use thunderos.Pipe.{Pipe, Meanwhile}
use thunderos.Pipe.Contents.{IsValid}

-- What the rest of the system does while a process sleeps keeps the pipes valid.
abbrev pub KeepsValid : List Meanwhile → Type 0
KeepsValid [] = Unit {0}
KeepsValid (others ∷ later) =
    ((s : Pipe × Kernel) → IsValid s.0 → IsValid (others s).0) × KeepsValid later

-- The state of the pipe and the kernel at some turn of a waiting loop: at its start, or after the
-- process has slept and something has happened meanwhile.
pub data Turn (sleep : Pipe → Kernel → Pipe × Kernel)
    : List Meanwhile → Pipe × Kernel → Pipe × Kernel → Type 0 where
  first : {others : List Meanwhile} {s : Pipe × Kernel} → Turn sleep others s s
  after :
      {o : Meanwhile} {later : List Meanwhile} {s t : Pipe × Kernel}
      → Turn sleep later (o (sleep s.0 s.1)) t
      → Turn sleep (o ∷ later) s t
