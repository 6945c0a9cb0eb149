-- ===== src/Sync/Semaphore.antt =====
-- The POSIX semaphore and mutex that the threading library is written against.
-- A semaphore is used through its three calls; `value` is what `sem_getvalue` reports. The calls
-- that can fail say so by a flag.
use systems_programming_port.Prelude.{ℕ, zero, suc, ◌≡◌, Option, none, some}

pub record Semaphores : Type 1 where
  pub Sem : Type 0
  pub sem_init : ℕ → Sem
  -- `none` is a thread that blocks.
  pub sem_wait : Sem → Option Sem
  pub sem_post : Sem → Sem
  pub value : Sem → ℕ
  pub value-init : (n : ℕ) → value (sem_init n) ≡ n
  pub value-post : (s : Sem) → value (sem_post s) ≡ suc (value s)
  pub value-wait : (s s' : Sem) → sem_wait s ≡ some s' → value s ≡ suc (value s')
  pub wait-blocks : (s : Sem) → sem_wait s ≡ none → value s ≡ zero
