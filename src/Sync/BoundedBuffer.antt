-- ===== src/Sync/BoundedBuffer.antt =====
-- 04-threading-concurrency-primitives/src/sync_utils.c: the bounded buffer, over the semaphores.
-- `bb_put` and `bb_take` are cut at their synchronisation: the wait, the section under the mutex,
-- and the post. A tray is a number; a null pointer is `none`.
pub mod Ring
pub mod Fifo
use systems_programming_port.Prelude.{
  ℕ, zero, suc, ◌+◌, ◌-◌, ◌*◌, ◌/◌, ◌%◌, ◌^◌, ◌≤◌, ◌<◌, ◌≡◌, refl, sym, ap, ◌∙◌, ◌≢◌, ◌↔◌, ◌⊎◌, inl,
  inr, Bool, true, false, not, ◌&&◌, ◌||◌, Option, none, some, List, [], ◌∷◌, ◌++◌, map, arith,
  length, get_elem?, set, get_or, take, drop, replicate, modify, ltb, leb, ◌==◌, if◌then◌else◌,
  Bool-cases, Option-cases, Bytes, codes, str_eq, ==_refl, ne→==, ==→eq, ==→ne, tests,
}
use systems_programming_port.Prelude.Int.{ℤ, pos, negsuc}
use systems_programming_port.Sync.Semaphore.{Semaphores}

infixl 10 ◌>>=◌
abbrev ◌>>=◌ : {A B : Type 0} → Option A → (A → Option B) → Option B
none >>= f = none
some a >>= f = f a

module _ (sems : Semaphores) where
  open sems use {Sem, sem_init, sem_wait, sem_post}

  pub record Bb : Type 0 where
    pub buf : Option (List (Option ℕ))
    pub cap : ℕ
    pub head : ℕ
    pub tail : ℕ
    pub empty : Sem
    pub full : Sem

  -- The buffer with its array freed.
  abbrev released : Bb → Bb
  released q = record q { buf = none }

  -- Which of the four allocations and initialisations succeed; -1 is a failure.
  unfoldable pub bb_init : (calloc_ok mutex_ok empty_ok full_ok : Bool) → ℤ → Bb → ℤ × Bb
  bb_init calloc_ok mutex_ok empty_ok full_ok (negsuc n) q = (negsuc 0, q)
  bb_init calloc_ok mutex_ok empty_ok full_ok (pos zero) q = (negsuc 0, q)
  bb_init calloc_ok mutex_ok empty_ok full_ok (pos (suc n)) q =
      let allocated : Bb = record q {
        buf = some (replicate (suc n) none);
        cap = suc n;
        head = 0;
        tail = 0;
      } in
      if not calloc_ok
      then (negsuc 0, released q)
      else if not mutex_ok
      then (negsuc 0, released allocated)
      else if not empty_ok
      then (negsuc 0, released allocated)
      else if not full_ok
      then (negsuc 0, released (record allocated { empty = sem_init (suc n) }))
      else (pos 0, record allocated { empty = sem_init (suc n); full = sem_init 0 })

  unfoldable pub bb_destroy : Bb → Bb
  bb_destroy q = record q { buf = none; cap = 0; head = 0; tail = 0 }

  -- `none` where the thread blocks.
  unfoldable pub put_wait : Bb → Option Bb
  put_wait q = elim (sem_wait q.empty) [ none ↦ none | some s ↦ some (record q { empty = s }) ]

  -- The section under the mutex; `none` is an access outside the array.
  unfoldable pub put_store : ℕ → Bb → Option Bb
  put_store tray q = elim q.buf [
    | none ↦ none
    | some b ↦
        if ltb q.tail (length b)
        then some (record q { buf = some (set b q.tail (some tray)); tail = (q.tail + 1) % q.cap })
        else none
  ]

  unfoldable pub put_post : Bb → Bb
  put_post q = record q { full = sem_post q.full }

  unfoldable pub bb_put : ℕ → Bb → Option Bb
  unfolding put_wait put_store put_post
  bb_put tray q = do waited ← put_wait q; stored ← put_store tray waited; some (put_post stored)

  unfoldable pub take_wait : Bb → Option Bb
  take_wait q = elim (sem_wait q.full) [ none ↦ none | some s ↦ some (record q { full = s }) ]

  -- The pointer that the section reads, with the buffer it leaves.
  unfoldable pub take_fetch : Bb → Option (Option ℕ × Bb)
  take_fetch q = elim q.buf [
    | none ↦ none
    | some b ↦ elim (get_elem? b q.head) [
      | none ↦ none
      | some tray ↦ some (tray, record q { head = (q.head + 1) % q.cap })
    ]
  ]

  unfoldable pub take_post : Bb → Bb
  take_post q = record q { empty = sem_post q.empty }

  unfoldable pub bb_take : Bb → Option (Option ℕ × Bb)
  unfolding take_wait take_fetch take_post
  bb_take q = do
    waited ← take_wait q
    (tray, fetched) ← take_fetch waited
    some (tray, take_post fetched)

  -- The buffer with the threads inside `bb_put` and `bb_take`, each past its wait (`entered`) or
  -- past its section (`stored`, `fetched`), and the trays in the order of the sections.
  pub record Party : Type 0 where
    pub q : Bb
    pub put_entered : ℕ
    pub put_stored : ℕ
    pub take_entered : ℕ
    pub take_fetched : ℕ
    pub sent : List ℕ
    pub received : List (Option ℕ)

  pub data Step (s : Party) : Party → Type 0 where
    put_waits :
        {q : Bb}
        → put_wait s.q ≡ some q
        → Step s (record s { q = q; put_entered = suc s.put_entered })
    put_stores :
        {q : Bb} {n : ℕ} (tray : ℕ)
        → s.put_entered ≡ suc n
        → put_store tray s.q ≡ some q
        → Step s (record s {
          q = q;
          put_entered = n;
          put_stored = suc s.put_stored;
          sent = s.sent ++ (tray ∷ []);
        })
    put_posts :
        {n : ℕ} → s.put_stored ≡ suc n → Step s (record s { q = put_post s.q; put_stored = n })
    take_waits :
        {q : Bb}
        → take_wait s.q ≡ some q
        → Step s (record s { q = q; take_entered = suc s.take_entered })
    take_fetches :
        {q : Bb} {n : ℕ} {tray : Option ℕ}
        → s.take_entered ≡ suc n
        → take_fetch s.q ≡ some (tray, q)
        → Step s (record s {
          q = q;
          take_entered = n;
          take_fetched = suc s.take_fetched;
          received = s.received ++ (tray ∷ []);
        })
    take_posts :
        {n : ℕ} → s.take_fetched ≡ suc n → Step s (record s { q = take_post s.q; take_fetched = n })

  -- No thread is in a call.
  abbrev pub opened : Bb → Party
  opened q = record {
    q = q;
    put_entered = 0;
    put_stored = 0;
    take_entered = 0;
    take_fetched = 0;
    sent = [];
    received = [];
  }

  -- From a buffer that `bb_init` has made.
  pub data Reach : Party → Type 0 where
    start :
        {q' : Bb} (q : Bb) (capacity : ℤ)
        → bb_init true true true true capacity q ≡ (pos 0, q')
        → Reach (opened q')
    then_step : {s s' : Party} → Reach s → Step s s' → Reach s'
