-- ===== src/Prelude/Wait.antt =====
-- A loop that sleeps while a test holds, `while (busy) sleep();`. The list has, for each sleep that
-- the caller wakes up from, what the rest of the system does meanwhile.
use mathlib.Core.Path.{◌≡◌}
use mathlib.Core.Logic.{inl, inr}
use mathlib.Core.Bool.{Bool, true, false}
use mathlib.Core.List.{List, [], ◌∷◌}
use thunderos.Prelude.Tests.{if◌then◌else◌, Bool-cases}

-- How the loop ends: past the test, or in a sleep that nobody ends. `asleep` is also the end where
-- `wait_queue_sleep` finds no memory for a queue entry, or no current process: the process then does
-- not sleep but goes round the loop, and the list may have a turn for each round of it.
pub data Waited (S : Type 0) : Type 0 where
  passed : S → Waited S
  asleep : S → Waited S

module _ {S : Type 0} (busy : S → Bool) (sleep : S → S) where
  unfoldable pub wait_while : List (S → S) → S → Waited S
  wait_while [] s = if busy s then asleep (sleep s) else passed s
  wait_while (others ∷ later) s =
      let again = wait_while later (others (sleep s)) in if busy s then again else passed s

-- The state at some turn of the loop: at its start, or after a sleep.
pub data Turn {S : Type 0} (sleep : S → S) : List (S → S) → S → S → Type 0 where
  first : {others : List (S → S)} {s : S} → Turn sleep others s s
  after :
      {o : S → S} {later : List (S → S)} {s t : S}
      → Turn sleep later (o (sleep s)) t
      → Turn sleep (o ∷ later) s t

-- It passes at a turn at which the test fails, and sleeps at one at which it holds.
pub data Ends {S : Type 0} (busy : S → Bool) (sleep : S → S) (others : List (S → S)) (s : S)
    : Waited S → Type 0 where
  free : (t : S) → Turn sleep others s t → busy t ≡ false → Ends busy sleep others s (passed t)
  taken :
      (t : S) → Turn sleep others s t → busy t ≡ true → Ends busy sleep others s (asleep (sleep t))

module _ {S : Type 0} (busy : S → Bool) (sleep : S → S) where
  Ends-after :
      {o : S → S} {later : List (S → S)} {s : S} {w : Waited S}
      → Ends busy sleep later (o (sleep s)) w
      → Ends busy sleep (o ∷ later) s w
  Ends-after (free t turn h) = free t (after turn) h
  Ends-after (taken t turn h) = taken t (after turn) h

  pub wait_while-Ends :
      (others : List (S → S)) (s : S) → Ends busy sleep others s (wait_while busy sleep others s)
  unfolding wait_while
  wait_while-Ends [] s = elim (Bool-cases (busy s)) [
    | inl h ↦ rw h (taken s first h)
    | inr h ↦ rw h (free s first h)
  ]
  wait_while-Ends (o ∷ later) s = elim (Bool-cases (busy s)) [
    | inl h ↦ rw h (Ends-after (wait_while-Ends later (o (sleep s))))
    | inr h ↦ rw h (free s first h)
  ]
