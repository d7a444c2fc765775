-- ===== src/Mutex/Exclusion.antt =====
-- At most one process holds the mutex, it is the recorded owner, and the mutex is locked exactly while
-- a process holds it.
use thunderos.Prelude.{ℕ, ◌≡◌, refl, ◌∙◌, some, true, false, ◌==◌, arith, inl, inr, Bool-cases}
use thunderos.Kernel.{Kernel}
use thunderos.Mutex.{
  mutex_init, mutex_trylock, take_mutex, sleep_on_mutex, release_mutex, wake_one_waiter,
}
use thunderos.Mutex.System.{
  Pc, outside, testing, found_locked, inside, leaving, is_inside, System, move, Step, call, acquire,
  miss, sleep, try, release, wake, others, Reach, here, later,
}

-- Either the mutex is free and nobody is inside, or one process is, and it is the owner.
pub data IsExclusive (s : System) : Type 0 where
  free : s.mutex.locked ≡ false → ((i : ℕ) → is_inside (s.pc i) ≡ false) → IsExclusive s
  held :
      (h : ℕ)
      → s.mutex.locked ≡ true
      → s.mutex.owner_pid ≡ some h
      → ((i : ℕ) → is_inside (s.pc i) ≡ (h == i))
      → IsExclusive s

-- A step that moves a process which is not inside to a place outside, and keeps the lock and the owner.
keeps :
    (s t : System) (i : ℕ) (p : Pc)
    → t.mutex.locked ≡ s.mutex.locked
    → t.mutex.owner_pid ≡ s.mutex.owner_pid
    → is_inside (s.pc i) ≡ false
    → is_inside p ≡ false
    → t.pc ≡ move s.pc i p
    → IsExclusive s
    → IsExclusive t
keeps s t i p l o a b e (free f n) = free (l ∙ f) λ j. rw e (ground (arith, n j))
keeps s t i p l o a b e (held h f w n) = held h (l ∙ f) (o ∙ w) λ j. rw e (ground (arith, n j, n i))

-- A step of process `i` that takes the free mutex.
takes :
    (s t : System) (i : ℕ)
    → s.mutex.locked ≡ false
    → t.mutex ≡ take_mutex s.mutex (some i)
    → t.pc ≡ move s.pc i inside
    → IsExclusive s
    → IsExclusive t
unfolding take_mutex
takes s t i f m e (free _ n) = held i (rw m refl) (rw m refl) λ j. rw e (ground (arith, n j))
takes s t i f m e (held h g w n) = absurd (cc)

gives :
    (s t : System) (i : ℕ)
    → s.pc i ≡ inside
    → t.mutex ≡ release_mutex s.mutex
    → t.pc ≡ move s.pc i leaving
    → IsExclusive s
    → IsExclusive t
unfolding release_mutex
gives s t i was m e (free f n) = absurd (ground (arith, n i))
gives s t i was m e (held h g w n) = free (rw m refl) λ j. rw e (ground (arith, n i, n j))

pub Step-IsExclusive : {s t : System} → Step s t → IsExclusive s → IsExclusive t
unfolding sleep_on_mutex wake_one_waiter mutex_trylock
Step-IsExclusive {s} (call i c p) v = keeps s _ i testing refl refl (ground arith) refl refl v
Step-IsExclusive {s} (acquire i c p f) v = takes s _ i f (rw c refl) refl v
Step-IsExclusive {s} (miss i c p f) v =
    keeps s _ i found_locked refl refl (ground arith) refl refl v
Step-IsExclusive {s} (sleep i c p) v = keeps s _ i testing refl refl (ground arith) refl refl v
Step-IsExclusive {s} (try i c p) v = elim (Bool-cases s.mutex.locked) [
  | inl f ↦
      keeps s _ i outside (rw (f, mutex_trylock) refl) (rw (f, mutex_trylock) refl) (ground arith)
        refl (rw f refl) v
  | inr f ↦ takes s _ i f (rw (f, mutex_trylock, c) refl) (rw f refl) v
]
Step-IsExclusive {s} (release i c p) v = gives s _ i p refl refl v
Step-IsExclusive {s} (wake i c p) v = keeps s _ i outside refl refl (ground arith) refl refl v
Step-IsExclusive {s} (others k) (free f n) = free f n
Step-IsExclusive {s} (others k) (held h f w n) = held h f w n

-- In every state that processes can reach of which only the one that holds the mutex unlocks it, in any
-- interleaving: either the mutex is unlocked and no
-- process holds it, or exactly one process holds it, the mutex is locked, and that process is its
-- recorded owner.
pub mutex_exclusion : {k : Kernel} {s : System} → Reach k s → IsExclusive s
unfolding mutex_init
mutex_exclusion here = free refl λ i. refl
mutex_exclusion (later r st) = Step-IsExclusive st (mutex_exclusion r)
