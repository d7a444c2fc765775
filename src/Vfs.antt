-- ===== src/Vfs.antt =====
-- kernel/fs/vfs.c: the virtual file system over the operations of a mounted file system. A string
-- is the list of its bytes without the final 0. The messages to the UART are left out.
pub mod Path
pub mod Table
pub mod Io
use thunderos.Prelude.{ℕ, List}

abbrev pub Text : Type 0
Text = List ℕ

-- What a function returns that gives a pointer or -1 and `errno`.
pub data Outcome {ℓ} (A : Type ℓ) : Type ℓ where
  found : A → Outcome A
  failed : ℕ → Outcome A
