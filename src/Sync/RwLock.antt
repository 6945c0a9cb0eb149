-- ===== src/Sync/RwLock.antt =====
-- 04-threading-concurrency-primitives/src/readers_writers.c and `rw_init` of sync_utils.c: the
-- reader-writer lock. Each function is cut into its sections under the mutex `m`; a counter that
-- would go below 0 is `none`.
pub mod Exclusion
use systems_programming_port.Prelude.{
  ℕ, zero, suc, ◌+◌, ◌-◌, ◌*◌, ◌/◌, ◌%◌, ◌^◌, ◌≤◌, ◌<◌, ◌≡◌, refl, sym, ap, subst, ◌∙◌, ◌≢◌, ◌↔◌,
  ◌⊎◌, inl, inr, Bool, true, false, not, ◌&&◌, ◌||◌, Option, none, some, List, [], ◌∷◌, ◌++◌, map,
  arith, length, get_elem?, set, get_or, take, drop, replicate, modify, ltb, leb, ◌==◌,
  if◌then◌else◌, Bool-cases, Option-cases, Bytes, codes, str_eq, ==_refl, ne→==, ==→eq, ==→ne,
  tests,
}
use systems_programming_port.Prelude.Int.{ℤ, pos, negsuc}
use systems_programming_port.Sync.Semaphore.{Semaphores}

module _ (sems : Semaphores) where
  open sems use {Sem, sem_init, sem_wait, sem_post}

  pub record Rwlock : Type 0 where
    pub wlock : Sem
    pub readers : ℕ
    pub writers_waiting : ℕ
    pub writer_active : Bool

  -- Whether the mutex and the semaphore can be made; -1 is a failure.
  unfoldable pub rw_init : (mutex_ok sem_ok : Bool) → Rwlock → ℤ × Rwlock
  rw_init false sem_ok rw_lock = (negsuc 0, rw_lock)
  rw_init true false rw_lock = (negsuc 0, rw_lock)
  rw_init true true rw_lock = (
    pos 0,
    record { wlock = sem_init 0; readers = 0; writers_waiting = 0; writer_active = false },
  )

  -- One round of the loop of `rw_rlock`; `none` where the reader backs off.
  unfoldable pub rw_rlock : Rwlock → Option Rwlock
  rw_rlock l =
      if not l.writer_active && (l.writers_waiting == 0)
      then some (record l { readers = suc l.readers })
      else none

  unfoldable pub rw_runlock : Rwlock → Option Rwlock
  rw_runlock l = elim l.readers [
    | zero ↦ none
    | suc readers ↦ some (
        if (readers == 0) && ltb 0 l.writers_waiting
        then record l { readers = readers; wlock = sem_post l.wlock }
        else record l { readers = readers })
  ]

  -- The test of the loop of `rw_wlock`: to take the lock, or to go to sleep.
  unfoldable pub wlock_check : Rwlock → Option (Bool × Rwlock)
  wlock_check l =
      if l.writer_active || ltb 0 l.readers then some (false, l) else elim l.writers_waiting [
        | zero ↦ none
        | suc waiting ↦ some (true, record l { writers_waiting = waiting; writer_active = true })
      ]

  -- `rw_wlock` up to the first end of its test.
  unfoldable pub rw_wlock : Rwlock → Option (Bool × Rwlock)
  unfolding wlock_check
  rw_wlock l = wlock_check (record l { writers_waiting = suc l.writers_waiting })

  -- `none` where the writer sleeps on.
  unfoldable pub wlock_wait : Rwlock → Option Rwlock
  wlock_wait l = elim (sem_wait l.wlock) [ none ↦ none | some s ↦ some (record l { wlock = s }) ]

  unfoldable pub rw_wunlock : Rwlock → Rwlock
  rw_wunlock l =
      if ltb 0 l.writers_waiting
      then record l { writer_active = false; wlock = sem_post l.wlock }
      else record l { writer_active = false }

  -- The lock with the threads that hold it for reading or writing, the writers asleep on `wlock`,
  -- and those woken that have not tested again.
  pub record Board : Type 0 where
    pub l : Rwlock
    pub reading : ℕ
    pub writing : ℕ
    pub asleep : ℕ
    pub woken : ℕ

  pub data Step (s : Board) : Board → Type 0 where
    reads :
        {l : Rwlock} → rw_rlock s.l ≡ some l → Step s (record s { l = l; reading = suc s.reading })
    read_ends :
        {l : Rwlock} {n : ℕ}
        → s.reading ≡ suc n
        → rw_runlock s.l ≡ some l
        → Step s (record s { l = l; reading = n })
    writes :
        {l : Rwlock}
        → rw_wlock s.l ≡ some (true, l)
        → Step s (record s { l = l; writing = suc s.writing })
    sleeps :
        {l : Rwlock}
        → rw_wlock s.l ≡ some (false, l)
        → Step s (record s { l = l; asleep = suc s.asleep })
    wakes :
        {l : Rwlock} {n : ℕ}
        → s.asleep ≡ suc n
        → wlock_wait s.l ≡ some l
        → Step s (record s { l = l; asleep = n; woken = suc s.woken })
    enters :
        {l : Rwlock} {n : ℕ}
        → s.woken ≡ suc n
        → wlock_check s.l ≡ some (true, l)
        → Step s (record s { l = l; woken = n; writing = suc s.writing })
    sleeps_again :
        {l : Rwlock} {n : ℕ}
        → s.woken ≡ suc n
        → wlock_check s.l ≡ some (false, l)
        → Step s (record s { l = l; woken = n; asleep = suc s.asleep })
    write_ends : {n : ℕ} → s.writing ≡ suc n → Step s (record s { l = rw_wunlock s.l; writing = n })

  abbrev pub idle : Rwlock → Board
  idle l = record { l = l; reading = 0; writing = 0; asleep = 0; woken = 0 }

  -- From a lock that `rw_init` has made.
  pub data Reach : Board → Type 0 where
    start : {l' : Rwlock} (l : Rwlock) → rw_init true true l ≡ (pos 0, l') → Reach (idle l')
    then_step : {s s' : Board} → Reach s → Step s s' → Reach s'
