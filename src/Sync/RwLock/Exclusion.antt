-- ===== src/Sync/RwLock/Exclusion.antt =====
-- Who can hold the reader-writer lock at once, and who can go on.
use systems_programming_port.Prelude.{
  ℕ, zero, suc, ◌+◌, ◌-◌, ◌≤◌, ◌<◌, ◌≡◌, refl, ap, subst, ◌⊎◌, inl, inr, Bool, true, false, ◌||◌,
  some, arith, ltb, Bool-cases, Option-cases,
}
use systems_programming_port.Sync.Semaphore.{Semaphores}
use systems_programming_port.Sync.RwLock.{
  Rwlock, rw_init, rw_rlock, rw_runlock, wlock_check, rw_wlock, wlock_wait, rw_wunlock, Board, Step,
  reads, read_ends, writes, sleeps, wakes, enters, sleeps_again, write_ends, idle, Reach, start,
  then_step,
}

module _ (sems : Semaphores) where
  open sems use {value, value-init, value-post, value-wait}

  abbrev count : Bool → ℕ
  count true = 1
  count false = 0

  -- The counters count the threads, readers and the writer exclude one another, and a free lock
  -- that a writer waits for has a writer under way.
  pub record Guarded (l : Rwlock sems) (reading writing asleep woken : ℕ) : Type 0 where
    pub readers_are : l.readers ≡ reading
    pub writers_are : l.writers_waiting ≡ asleep + woken
    pub active_is : count l.writer_active ≡ writing
    pub apart : 0 < writing → reading ≡ 0
    pub under_way : writing ≡ 0 → reading ≡ 0 → 0 < asleep + woken → 0 < value l.wlock + woken

  abbrev pub Safe : Board sems → Type 0
  Safe s = Guarded s.l s.reading s.writing s.asleep s.woken

  runlock-Guarded :
      (l l' : Rwlock sems) (n w a k : ℕ)
      → Guarded l (suc n) w a k
      → rw_runlock sems l ≡ some l'
      → Guarded l' n w a k
  unfolding rw_runlock
  runlock-Guarded l l' n w a k g h = record {
    readers_are = ground (arith, g.readers_are);
    writers_are = ground (arith, g.readers_are, g.writers_are);
    active_is = ground (arith, g.readers_are, g.active_is);
    apart = ground (arith, g.readers_are, g.apart);
    under_way = ground (arith, g.readers_are, g.under_way, g.writers_are, value-post l.wlock);
  }

  check-true :
      (l l' : Rwlock sems) (r w a k : ℕ)
      → Guarded l r w a (suc k)
      → wlock_check sems l ≡ some (true, l')
      → Guarded l' r (suc w) a k
  unfolding wlock_check
  check-true l l' r w a k g h = record {
    readers_are = ground (arith, g.readers_are);
    writers_are = ground (arith, g.writers_are);
    active_is = ground (arith, g.active_is, g.writers_are);
    apart = λ some_one. ground (arith, g.readers_are, g.writers_are);
    under_way = λ e. absurd (omega (arith, e));
  }

  check-false :
      (l l' : Rwlock sems) (r w a k : ℕ)
      → Guarded l r w a (suc k)
      → wlock_check sems l ≡ some (false, l')
      → Guarded l' r w (suc a) k
  unfolding wlock_check
  check-false l l' r w a k g h = record {
    readers_are = ground (arith, g.readers_are);
    writers_are = ground (arith, g.writers_are);
    active_is = ground (arith, g.active_is);
    apart = g.apart;
    under_way = λ e f _. ground (arith, g.active_is, g.readers_are);
  }

  announced :
      (l : Rwlock sems) (r w a k : ℕ)
      → Guarded l r w a k
      → Guarded (record l { writers_waiting = suc l.writers_waiting }) r w a (suc k)
  announced l r w a k g = record {
    readers_are = g.readers_are;
    writers_are = omega (arith, g.writers_are);
    active_is = g.active_is;
    apart = g.apart;
    under_way = λ _ _ _. omega arith;
  }

  rlock-Guarded :
      (l l' : Rwlock sems) (r w a k : ℕ)
      → Guarded l r w a k
      → rw_rlock sems l ≡ some l'
      → Guarded l' (suc r) w a k
  unfolding rw_rlock
  rlock-Guarded l l' r w a k g h = record {
    readers_are = ground (arith, g.readers_are);
    writers_are = ground (arith, g.writers_are);
    active_is = ground (arith, g.active_is);
    apart = λ held. absurd (ground (arith, g.active_is));
    under_way = λ e f. absurd (omega (arith, f));
  }

  wait-Guarded :
      (l l' : Rwlock sems) (r w a k : ℕ)
      → Guarded l r w (suc a) k
      → wlock_wait sems l ≡ some l'
      → Guarded l' r w a (suc k)
  unfolding wlock_wait
  wait-Guarded l l' r w a k g h = record {
    readers_are = ground (arith, g.readers_are);
    writers_are = ground (arith, g.writers_are);
    active_is = ground (arith, g.active_is);
    apart = g.apart;
    under_way = λ _ _ _. omega arith;
  }

  wunlock-Guarded :
      (l : Rwlock sems) (r w a k : ℕ)
      → Guarded l r (suc w) a k
      → Guarded (rw_wunlock sems l) r w a k
  unfolding rw_wunlock
  wunlock-Guarded l r w a k g = record {
    readers_are = ground (arith, g.readers_are);
    writers_are = ground (arith, g.writers_are);
    active_is = ground (arith, g.active_is);
    apart = λ _. g.apart (omega arith);
    under_way = λ _ _ waits. ground (arith, g.writers_are, value-post l.wlock);
  }

  Step-Safe : {s s' : Board sems} → Step sems s s' → Safe s → Safe s'
  unfolding rw_wlock
  Step-Safe {s} (reads {l} h) g = rlock-Guarded s.l l s.reading s.writing s.asleep s.woken g h
  Step-Safe {s} (read_ends {l} {n} e h) g =
      runlock-Guarded s.l l n s.writing s.asleep s.woken
        (subst (λ r. Guarded s.l r s.writing s.asleep s.woken) e g) h
  Step-Safe {s} (writes {l} h) g =
      check-true _ l s.reading s.writing s.asleep s.woken
        (announced s.l s.reading s.writing s.asleep s.woken g) h
  Step-Safe {s} (sleeps {l} h) g =
      check-false _ l s.reading s.writing s.asleep s.woken
        (announced s.l s.reading s.writing s.asleep s.woken g) h
  Step-Safe {s} (wakes {l} {n} e h) g =
      wait-Guarded s.l l s.reading s.writing n s.woken
        (subst (λ a. Guarded s.l s.reading s.writing a s.woken) e g) h
  Step-Safe {s} (enters {l} {n} e h) g =
      check-true s.l l s.reading s.writing s.asleep n
        (subst (λ k. Guarded s.l s.reading s.writing s.asleep k) e g) h
  Step-Safe {s} (sleeps_again {l} {n} e h) g =
      check-false s.l l s.reading s.writing s.asleep n
        (subst (λ k. Guarded s.l s.reading s.writing s.asleep k) e g) h
  Step-Safe {s} (write_ends {n} e) g =
      wunlock-Guarded s.l s.reading n s.asleep s.woken
        (subst (λ w. Guarded s.l s.reading w s.asleep s.woken) e g)

  Reach-Safe : {s : Board sems} → Reach sems s → Safe s
  unfolding rw_init
  Reach-Safe (start {l'} l h) =
      subst (λ x. Safe (idle sems x)) (ap (λ r. r.1) h)
        (record {
          readers_are = refl;
          writers_are = refl;
          active_is = refl;
          apart = λ _. refl;
          under_way = λ _ _ waits. absurd (omega (arith, waits));
        })
  Reach-Safe (then_step r st) = Step-Safe st (Reach-Safe r)

  -- There is never more than one writer inside, and never a reader with a writer.
  pub Reach-exclusion :
      {s : Board sems} → Reach sems s → (s.writing ≤ 1) × (0 < s.writing → s.reading ≡ 0)
  Reach-exclusion {s} r =
      let g = Reach-Safe r in (count-le s.l.writer_active s.writing g.active_is, g.apart)
    where
      count-le : (b : Bool) (w : ℕ) → count b ≡ w → w ≤ 1
      count-le b w e = ground arith

  -- No wake-up is lost: while no thread holds the lock and a writer is asleep in `rw_wlock`, another
  -- one is awake there, or the semaphore is posted, so that one of those asleep can go on.
  pub Reach-wakeup :
      {s : Board sems}
      → Reach sems s
      → s.writing ≡ 0
      → s.reading ≡ 0
      → 0 < s.asleep
      → (0 < s.woken) ⊎ ((l : Rwlock sems) × (wlock_wait sems s.l ≡ some l))
  unfolding wlock_wait
  Reach-wakeup {s} r free empty waits = elim (Option-cases (sems.sem_wait s.l.wlock)) [
    | inl e ↦ inl (
        omega (
          arith,
          (Reach-Safe r).under_way free empty (omega (arith, waits)),
          sems.wait-blocks s.l.wlock e,
        ))
    | inr (t, e) ↦ inr (record s.l { wlock = t }, rw (e, wlock_wait) refl)
  ]

  -- Writers have priority: no reader enters while a writer waits in `rw_wlock`.
  pub Step-priority :
      {s s' : Board sems}
      → Reach sems s
      → Step sems s s'
      → 0 < s.asleep + s.woken
      → s'.reading ≤ s.reading
  unfolding rw_rlock
  Step-priority {s} r (reads {l} h) waits = absurd (ground (arith, (Reach-Safe r).writers_are))
  Step-priority {s} r (read_ends e h) waits = omega (arith, e)
  Step-priority {s} r (writes h) waits = omega arith
  Step-priority {s} r (sleeps h) waits = omega arith
  Step-priority {s} r (wakes e h) waits = omega arith
  Step-priority {s} r (enters e h) waits = omega arith
  Step-priority {s} r (sleeps_again e h) waits = omega arith
  Step-priority {s} r (write_ends e) waits = omega arith

  leaves :
      (l : Rwlock sems) (n : ℕ)
      → l.readers ≡ n
      → 0 < n
      → (l' : Rwlock sems) × (rw_runlock sems l ≡ some l')
  unfolding rw_runlock
  leaves l zero e h = absurd (omega arith)
  leaves l (suc n) e h = rw (e, rw_runlock) (_, refl)

  tests_again :
      (l : Rwlock sems) (a k : ℕ)
      → l.writers_waiting ≡ a + k
      → 0 < k
      → (b : Bool) × (l' : Rwlock sems) × (wlock_check sems l ≡ some (b, l'))
  unfolding wlock_check
  tests_again l a k e h = elim (Bool-cases (l.writer_active || ltb 0 l.readers)) [
    | inl held ↦ (false, l, rw (held, wlock_check) refl)
    | inr open_now ↦ (
      true,
      record l { writers_waiting = l.writers_waiting - 1; writer_active = true },
      ground (arith, e, h),
    )
  ]

  -- No counter goes below 0: a reader inside can leave, and a woken writer can test.
  pub Reach-counters :
      {s : Board sems}
      → Reach sems s
      → (0 < s.reading → (l : Rwlock sems) × (rw_runlock sems s.l ≡ some l))
        × (0 < s.woken → (b : Bool) × (l : Rwlock sems) × (wlock_check sems s.l ≡ some (b, l)))
  Reach-counters {s} r =
      let g = Reach-Safe r in
      (leaves s.l s.reading g.readers_are, tests_again s.l s.asleep s.woken g.writers_are)
