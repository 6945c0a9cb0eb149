-- ===== src/Sync/BoundedBuffer/Fifo.antt =====
-- What holds of the bounded buffer and the threads that use it, in every state that they reach.
use systems_programming_port.Prelude.{
  ℕ, zero, suc, ◌+◌, ◌%◌, ◌≤◌, ◌<◌, ◌≡◌, refl, sym, ap, subst, ◌∙◌, inl, inr, true, Option, none,
  some, List, [], ◌∷◌, ◌++◌, map, arith, length, set, replicate, Option-cases, length-set,
  length-append, length-replicate, append_assoc, lt→ltb,
}
use systems_programming_port.Prelude.Int.{ℤ, pos, negsuc}
use systems_programming_port.Sync.Semaphore.{Semaphores}
use systems_programming_port.Sync.BoundedBuffer.{
  Bb, bb_init, put_wait, put_store, put_post, take_wait, take_fetch, take_post, Party, opened, Step,
  put_waits, put_stores, put_posts, take_waits, take_fetches, take_posts, Reach, start, then_step,
}
use systems_programming_port.Sync.BoundedBuffer.Ring.{Ring, next-lt, Ring-store}

map_append : {A B : Type 0} (f : A → B) (xs ys : List A) → map f (xs ++ ys) ≡ map f xs ++ map f ys
map_append f [] ys = refl
map_append f (x ∷ xs) ys = ap (λ l. f x ∷ l) (map_append f xs ys)

module _ (sems : Semaphores) where
  open sems use {value, value-init, value-post, value-wait}

  -- The array `slots` and the trays `items` that wait in it; the semaphores count its free and its
  -- used slots but for those that a thread in a call has claimed.
  pub record Holds (s : Party sems) (slots : List (Option ℕ)) (items : List ℕ) : Type 0 where
    pub array : s.q.buf ≡ some slots
    pub sized : length slots ≡ s.q.cap
    pub head_in : s.q.head < s.q.cap
    pub tail_in : s.q.tail < s.q.cap
    pub ring : Ring slots s.q.cap s.q.head items s.q.tail
    pub free : value s.q.empty + s.put_entered + length items + s.take_fetched ≡ s.q.cap
    pub used : length items ≡ value s.q.full + s.put_stored + s.take_entered
    pub order : map some s.sent ≡ s.received ++ map some items

  abbrev pub Sound : Party sems → Type 0
  Sound s = (slots : List (Option ℕ)) × (items : List ℕ) × Holds s slots items

  -- The section of `bb_put` stays inside the array.
  store-some :
      (tray : ℕ) (s : Party sems) (slots : List (Option ℕ)) (items : List ℕ)
      → Holds s slots items
      → put_store sems tray s.q
        ≡ some (record s.q {
          buf = some (set slots s.q.tail (some tray));
          tail = (s.q.tail + 1) % s.q.cap;
        })
  unfolding put_store
  store-some tray s slots items v =
      rw (v.array, lt→ltb s.q.tail (length slots) (omega (arith, v.tail_in, v.sized))) refl

  -- The section of `bb_take` reads the tray that has waited longest.
  fetch-some :
      (s : Party sems) (slots : List (Option ℕ)) (x : ℕ) (xs : List ℕ)
      → Holds s slots (x ∷ xs)
      → take_fetch sems s.q ≡ some (some x, record s.q { head = (s.q.head + 1) % s.q.cap })
  unfolding take_fetch
  fetch-some s slots x xs v = simp (v.array, take_fetch, v.ring.0)

  stores-Sound :
      (s : Party sems) (q : Bb sems) (n tray : ℕ)
      → Sound s
      → s.put_entered ≡ suc n
      → put_store sems tray s.q ≡ some q
      → Sound (record s {
        q = q;
        put_entered = n;
        put_stored = suc s.put_stored;
        sent = s.sent ++ (tray ∷ []);
      })
  stores-Sound s q n tray (slots, items, v) e h =
      let stored : Bb sems = record s.q {
        buf = some (set slots s.q.tail (some tray));
        tail = (s.q.tail + 1) % s.q.cap;
      } in
      let same : stored ≡ q = ground (arith, store-some tray s slots items v) in
      let room : length items < s.q.cap = omega (arith, v.free) in
      subst
        (λ x. Sound (record s {
          q = x;
          put_entered = n;
          put_stored = suc s.put_stored;
          sent = s.sent ++ (tray ∷ []);
        }))
        same
        (
          set slots s.q.tail (some tray),
          items ++ (tray ∷ []),
          record {
            array = refl;
            sized = length-set slots s.q.tail (some tray) ∙ v.sized;
            head_in = v.head_in;
            tail_in = next-lt s.q.tail s.q.cap v.tail_in;
            ring =
                Ring-store slots s.q.cap s.q.head s.q.tail tray items v.ring v.head_in v.tail_in
                  v.sized room;
            free = omega (arith, v.free, length-append items (tray ∷ []));
            used = omega (arith, v.used, length-append items (tray ∷ []));
            order =
                rw (map_append some s.sent (tray ∷ []), map_append some items (tray ∷ []), v.order)
                  (append_assoc s.received (map some items) (some tray ∷ []));
          },
        )

  fetches-Sound :
      (s : Party sems) (q : Bb sems) (n : ℕ) (tray : Option ℕ)
      → Sound s
      → s.take_entered ≡ suc n
      → take_fetch sems s.q ≡ some (tray, q)
      → Sound (record s {
        q = q;
        take_entered = n;
        take_fetched = suc s.take_fetched;
        received = s.received ++ (tray ∷ []);
      })
  fetches-Sound s q n tray (slots, [], v) e h = absurd (omega (arith, v.used))
  fetches-Sound s q n tray (slots, x ∷ xs, v) e h =
      let fetched : Bb sems = record s.q { head = (s.q.head + 1) % s.q.cap } in
      let same : ◌≡◌ {A = Option ℕ × Bb sems} (some x, fetched) (tray, q) =
        ground (arith, fetch-some s slots x xs v) in
      subst
        (λ r. Sound (record s {
          q = r.1;
          take_entered = n;
          take_fetched = suc s.take_fetched;
          received = s.received ++ (r.0 ∷ []);
        }))
        same
        (
          slots,
          xs,
          record {
            array = v.array;
            sized = v.sized;
            head_in = next-lt s.q.head s.q.cap v.head_in;
            tail_in = v.tail_in;
            ring = v.ring.1;
            free = omega (arith, v.free);
            used = omega (arith, v.used);
            order = v.order ∙ sym (append_assoc s.received (some x ∷ []) (map some xs));
          },
        )

  put_waits-Sound :
      (s : Party sems) (q : Bb sems)
      → Sound s
      → put_wait sems s.q ≡ some q
      → Sound (record s { q = q; put_entered = suc s.put_entered })
  unfolding put_wait
  put_waits-Sound s q (slots, items, v) h = elim (Option-cases (sems.sem_wait s.q.empty)) [
    | inl e ↦ ground arith
    | inr (t, e) ↦
        let same : record s.q { empty = t } ≡ q = ground arith in
        subst (λ x. Sound (record s { q = x; put_entered = suc s.put_entered })) same
          (
            slots,
            items,
            record {
              array = v.array;
              sized = v.sized;
              head_in = v.head_in;
              tail_in = v.tail_in;
              ring = v.ring;
              free = omega (arith, v.free, value-wait s.q.empty t e);
              used = v.used;
              order = v.order;
            },
          )
  ]

  take_waits-Sound :
      (s : Party sems) (q : Bb sems)
      → Sound s
      → take_wait sems s.q ≡ some q
      → Sound (record s { q = q; take_entered = suc s.take_entered })
  unfolding take_wait
  take_waits-Sound s q (slots, items, v) h = elim (Option-cases (sems.sem_wait s.q.full)) [
    | inl e ↦ ground arith
    | inr (t, e) ↦
        let same : record s.q { full = t } ≡ q = ground arith in
        subst (λ x. Sound (record s { q = x; take_entered = suc s.take_entered })) same
          (
            slots,
            items,
            record {
              array = v.array;
              sized = v.sized;
              head_in = v.head_in;
              tail_in = v.tail_in;
              ring = v.ring;
              free = v.free;
              used = omega (arith, v.used, value-wait s.q.full t e);
              order = v.order;
            },
          )
  ]

  Step-Sound : {s s' : Party sems} → Step sems s s' → Sound s → Sound s'
  unfolding put_post take_post
  Step-Sound {s} (put_waits {q} h) v = put_waits-Sound s q v h
  Step-Sound {s} (put_stores {q} {n} tray e h) v = stores-Sound s q n tray v e h
  Step-Sound {s} (put_posts e) (slots, items, v) = (
    slots,
    items,
    record {
      array = v.array;
      sized = v.sized;
      head_in = v.head_in;
      tail_in = v.tail_in;
      ring = v.ring;
      free = v.free;
      used = omega (arith, v.used, value-post s.q.full);
      order = v.order;
    },
  )
  Step-Sound {s} (take_waits {q} h) v = take_waits-Sound s q v h
  Step-Sound {s} (take_fetches {q} {n} {tray} e h) v = fetches-Sound s q n tray v e h
  Step-Sound {s} (take_posts e) (slots, items, v) = (
    slots,
    items,
    record {
      array = v.array;
      sized = v.sized;
      head_in = v.head_in;
      tail_in = v.tail_in;
      ring = v.ring;
      free = omega (arith, v.free, value-post s.q.empty);
      used = v.used;
      order = v.order;
    },
  )

  opened-Sound :
      (capacity : ℤ) (q q' : Bb sems)
      → bb_init sems true true true true capacity q ≡ (pos 0, q')
      → Sound (opened sems q')
  unfolding bb_init
  opened-Sound (negsuc n) q q' h = cc
  opened-Sound (pos zero) q q' h = cc
  opened-Sound (pos (suc n)) q q' h =
      let same = ap (λ r. r.1) h in
      subst (λ x. Sound (opened sems x)) same
        (
          replicate (suc n) none,
          [],
          record {
            array = refl;
            sized = length-replicate (suc n) none;
            head_in = omega arith;
            tail_in = omega arith;
            ring = refl;
            free = omega (arith, value-init (suc n));
            used = omega (arith, value-init 0);
            order = refl;
          },
        )

  Reach-Sound : {s : Party sems} → Reach sems s → Sound s
  Reach-Sound (start {q'} q capacity h) = opened-Sound capacity q q' h
  Reach-Sound (then_step r st) = Step-Sound st (Reach-Sound r)

  -- However the threads interleave, the trays come out in the order in which they went in, none
  -- lost and none twice: the trays sent are the trays received, each a tray and not a null pointer,
  -- and those still in the array, of which there are at most `cap`, and fewer while a producer is
  -- past its wait, whose store thus overwrites none.
  pub Reach-fifo :
      {s : Party sems}
      → Reach sems s
      → (items : List ℕ) × (map some s.sent ≡ s.received ++ map some items)
        × (length items ≤ s.q.cap)
        × (0 < s.put_entered → length items < s.q.cap)
  Reach-fifo r =
      let (slots, items, v) = Reach-Sound r in
      (items, v.order, omega (arith, v.free), λ h. omega (arith, v.free))

  -- A producer past its wait finds its slot inside the array, and a consumer past its wait finds a
  -- tray.
  pub Reach-safe :
      {s : Party sems}
      → Reach sems s
      → ((tray : ℕ) → (q : Bb sems) × (put_store sems tray s.q ≡ some q))
        × (0 < s.take_entered
            → (tray : ℕ) × (q : Bb sems) × (take_fetch sems s.q ≡ some (some tray, q)))
  Reach-safe {s} r =
      let (slots, items, v) = Reach-Sound r in
      ((λ tray. (_, store-some tray s slots items v)), safe_fetch s slots items v)
    where
      safe_fetch :
          (s : Party sems) (slots : List (Option ℕ)) (items : List ℕ)
          → Holds s slots items
          → 0 < s.take_entered
          → (tray : ℕ) × (q : Bb sems) × (take_fetch sems s.q ≡ some (some tray, q))
      safe_fetch s slots [] v h = absurd (omega (arith, v.used))
      safe_fetch s slots (x ∷ xs) v h = (x, _, fetch-some s slots x xs v)
