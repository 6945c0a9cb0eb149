-- ===== src/Sync/Tests.antt =====
-- Concrete runs of the bounded buffer and of the reader-writer lock.
use systems_programming_port.Prelude.{
  ℕ, zero, suc, ◌≤◌, ◌<◌, ◌≡◌, refl, ◌⊎◌, false, Option, none, some, List, [], ◌∷◌, ◌++◌, map,
  arith, length,
}
use systems_programming_port.Sync.BoundedBuffer
use systems_programming_port.Sync.RwLock
use systems_programming_port.Prelude.Int.{pos}
use systems_programming_port.Sync.Semaphore.{Semaphores}
use systems_programming_port.Sync.BoundedBuffer.{
  Bb, bb_init, put_store, take_fetch, Party, opened, put_waits, put_stores, put_posts, take_waits,
  put_wait,
}
use systems_programming_port.Sync.BoundedBuffer.Fifo.{Reach-fifo, Reach-safe}
use systems_programming_port.Sync.RwLock.{
  Rwlock, Board, rw_init, rw_wlock, wlock_check, wlock_wait, rw_rlock, rw_runlock, idle, reads,
  read_ends, sleeps, wakes,
}
use systems_programming_port.Sync.RwLock.Exclusion.{Reach-exclusion, Reach-wakeup, Step-priority}

abbrev count_down : ℕ → Option ℕ
count_down zero = none
count_down (suc n) = some n

value-wait_of : (s s' : ℕ) → count_down s ≡ some s' → s ≡ suc s'
value-wait_of zero s' h = cc
value-wait_of (suc n) s' h = cc

wait-blocks_of : (s : ℕ) → count_down s ≡ none → s ≡ zero
wait-blocks_of zero h = refl
wait-blocks_of (suc n) h = cc

-- A semaphore that is its count.
abbrev counting : Semaphores
counting = record {
  Sem = ℕ;
  sem_init = λ n. n;
  sem_wait = count_down;
  sem_post = suc;
  value = λ n. n;
  value-init = λ n. refl;
  value-post = λ s. refl;
  value-wait = value-wait_of;
  wait-blocks = wait-blocks_of;
}

abbrev raw : Bb counting
raw = record { buf = none; cap = 0; head = 0; tail = 0; empty = 0; full = 0 }

-- A buffer of two slots, one tray inside, and a consumer past its count_down.
abbrev served : Party counting
served = record {
  q = record { buf = some (some 7 ∷ none ∷ []); cap = 2; head = 0; tail = 1; empty = 1; full = 0 };
  put_entered = 0;
  put_stored = 0;
  take_entered = 1;
  take_fetched = 0;
  sent = 7 ∷ [];
  received = [];
}

served-Reach : BoundedBuffer.Reach counting served
unfolding bb_init put_wait put_store BoundedBuffer.put_post BoundedBuffer.take_wait
served-Reach =
    BoundedBuffer.then_step
      (BoundedBuffer.then_step
        (BoundedBuffer.then_step
          (BoundedBuffer.then_step (BoundedBuffer.start raw (pos 2) refl) (put_waits refl))
          (put_stores 7 refl refl))
        (put_posts refl))
      (take_waits refl)

Reach-fifo_example :
    (items : List ℕ) × (map some (7 ∷ []) ≡ served.received ++ map some items)
    × (length items ≤ 2)
    × (0 < served.put_entered → length items < 2)
Reach-fifo_example = Reach-fifo counting served-Reach

Reach-safe_example :
    ((tray : ℕ) → (q : Bb counting) × (put_store counting tray served.q ≡ some q))
    × (0 < 1
        → (tray : ℕ) × (q : Bb counting) × (take_fetch counting served.q ≡ some (some tray, q)))
Reach-safe_example = Reach-safe counting served-Reach

abbrev blank : Rwlock counting
blank = record { wlock = 0; readers = 0; writers_waiting = 0; writer_active = false }

-- A reader is inside, and a writer sleeps.
abbrev reading_board : Board counting
reading_board = record {
  l = record { wlock = 0; readers = 1; writers_waiting = 1; writer_active = false };
  reading = 1;
  writing = 0;
  asleep = 1;
  woken = 0;
}

reading-Reach : RwLock.Reach counting reading_board
unfolding rw_init rw_rlock rw_wlock
reading-Reach =
    RwLock.then_step (RwLock.then_step (RwLock.start blank refl) (reads refl)) (sleeps refl)

-- The reader has left, and has posted the semaphore.
abbrev handed_board : Board counting
handed_board = record {
  l = record { wlock = 1; readers = 0; writers_waiting = 1; writer_active = false };
  reading = 0;
  writing = 0;
  asleep = 1;
  woken = 0;
}

handed-Reach : RwLock.Reach counting handed_board
unfolding rw_runlock
handed-Reach = RwLock.then_step reading-Reach (read_ends refl refl)

Reach-exclusion_example :
    (reading_board.writing ≤ 1) × (0 < reading_board.writing → reading_board.reading ≡ 0)
Reach-exclusion_example = Reach-exclusion counting reading-Reach

Reach-wakeup_example :
    (0 < handed_board.woken)
    ⊎ ((l : Rwlock counting) × (wlock_wait counting handed_board.l ≡ some l))
Reach-wakeup_example = Reach-wakeup counting handed-Reach refl refl (omega arith)

Step-priority_example : 0 ≤ 1
unfolding rw_runlock
Step-priority_example =
    Step-priority counting {s' = handed_board} reading-Reach (read_ends refl refl) (omega arith)
