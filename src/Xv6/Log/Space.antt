-- ===== src/Xv6/Log/Space.antt =====
-- The space in the log of 03-xv6-stcf-scheduler/log.c, which `begin_op` reserves for each operation.
use systems_programming_port.Prelude.{
  ℕ, suc, ◌+◌, ◌≤◌, ◌<◌, ◌≡◌, sym, ap, inl, inr, some, List, [], ◌∷◌, ◌++◌, length, Bool-cases,
}
use systems_programming_port.Prelude.{Bool, true, ap, sym, inl, inr, Bool-cases}
use systems_programming_port.Xv6.Log.{
  end_commit, Log, log_size, max_op_blocks, begin_op, log_write, end_op,
}
use systems_programming_port.Xv6.Log.View.{IsHome, Fits}

-- The log, and for each operation that runs the number of blocks that it may still write.
pub record Ongoing : Type 0 where
  pub log : Log
  pub ops : List ℕ

abbrev running : Log → List ℕ → Ongoing
running l ops = record { log = l; ops = ops }

-- What the system calls do, in any order.
pub data Step : Ongoing → Ongoing → Type 0 where
  begins :
      (l l' : Log) (ops : List ℕ)
      → begin_op l ≡ some l'
      → Step (running l ops) (running l' (max_op_blocks ∷ ops))
  writes :
      (l l' : Log) (b n : ℕ) (pre post : List ℕ)
      → IsHome l.start l.size b
      → log_write b l ≡ some l'
      → Step (running l (pre ++ suc n ∷ post)) (running l' (pre ++ n ∷ post))
  ends :
      (l l' : Log) (due : Bool) (n : ℕ) (pre post : List ℕ)
      → end_op l ≡ some (due, l')
      → Step (running l (pre ++ n ∷ post)) (running l' (pre ++ post))
  commits :
      (l : Log) (ops : List ℕ)
      → l.committing ≡ true
      → Step (running l ops) (running (end_commit l) ops)

abbrev pub total : List ℕ → ℕ
total [] = 0
total (n ∷ ns) = n + total ns

-- No operation may write more than `MAXOPBLOCKS` blocks.
abbrev pub Bounded : List ℕ → Type 0
Bounded [] = 0 ≤ max_op_blocks
Bounded (n ∷ ns) = (n ≤ max_op_blocks) × Bounded ns

-- What holds between the steps.
pub record Inv (r : Ongoing) : Type 0 where
  pub counted : r.log.outstanding ≡ length r.ops
  pub alone : r.log.committing ≡ true → r.ops ≡ []
  pub bounded : Bounded r.ops
  pub space : length r.log.lh + total r.ops ≤ log_size
  pub fits : Fits r.log.start r.log.size r.log.lh
  pub large : log_size < r.log.size

-- From a log in which nothing runs.
pub data Reach (l : Log) : Ongoing → Type 0 where
  quiet : Reach l (running l [])
  then_step : (r r' : Ongoing) → Reach l r → Step r r' → Reach l r'
