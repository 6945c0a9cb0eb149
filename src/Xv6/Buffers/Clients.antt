-- ===== src/Xv6/Buffers/Clients.antt =====
-- The clients of 03-xv6-stcf-scheduler/bio.c: processes that read, change, write and release blocks, in any order.
use systems_programming_port.Prelude.{
  ℕ, ◌-◌, ◌<◌, ◌≡◌, refl, sym, ap, subst, ◌∙◌, ◌↔◌, inl, inr, Bool, true, false, not, ◌||◌, Option,
  none, some, ◌∷◌, arith, leb, ◌==◌, if◌then◌else◌, Bool-cases,
}
use mathlib.Core.Bool.{true≢false}
use systems_programming_port.Prelude.Maps.{update}
use systems_programming_port.Xv6.Log.{Block}
use systems_programming_port.Xv6.Buffers.{
  nbuf, Bcache, with_buf, iderw, got, asleep, bread_on, bread, bwrite, unlink, brelse, modified,
  binit, is_spare, bget, cached, spare, recycled, referenced,
}
use systems_programming_port.Xv6.Buffers.Lookup.{
  moved-In, unlink-In, chained_all, chained_lt, Cached, cached_lem, Spare, spare_lem,
}
use systems_programming_port.Xv6.Buffers.Coherent.{
  view, Holds, Coherent, view_stored, put, Holds-cached, cached-Holds,
}
use systems_programming_port.Xv6.Buffers.Calls.{Keeps, flushed-Keeps, modified_lem, released-Keeps}
use systems_programming_port.Xv6.Buffers.Reads.{
  device, iderw-device, Answered, bread-Answered, Served, bread_on-Served,
}

abbrev Stored : Bcache → Option Bcache → Type 0
Stored s none = Unit
Stored s (some t) = Keeps s t

module _ (s : Bcache) (v : Coherent s) (i : ℕ) (inside : i < nbuf) where
  checked-Stored :
      (bad out : Bool)
      → bad ≡ false
      → (s.buf i).locked ≡ true
      → Stored s (
          if bad
          then none
          else if out
          then none
          else some (
              put i
                (record (s.buf i) { valid = true; dirty = false })
                (update s.disk (s.buf i).blockno (s.buf i).words)
                s.order
                s))
  checked-Stored true out e locked = absurd (true≢false e)
  checked-Stored false true e locked = tt
  checked-Stored false false e locked =
      let (valid, dev, refs) = (v.good i inside).held locked in
      flushed-Keeps s v i inside valid dev refs

  device-Stored :
      (s.buf i).locked ≡ true → Stored s (device i (record (s.buf i) { dirty = true }) s)
  device-Stored locked =
      checked-Stored _ (not ((s.buf i).dev == 1) || leb s.disksize (s.buf i).blockno)
        (rw (locked, ((v.good i inside).held locked).0) refl) locked

  bwrite-Stored : Stored s (bwrite i s)
  unfolding bwrite
  bwrite-Stored = go (s.buf i).locked refl
    where
      go :
          (l : Bool)
          → (s.buf i).locked ≡ l
          → Stored s
              (if not l then none else iderw i (with_buf i (record (s.buf i) { dirty = true }) s))
      go false e = tt
      go true e =
          subst (Stored s) (sym (iderw-device s i (record (s.buf i) { dirty = true })))
            (device-Stored e)

  brelse-Stored : Stored s (brelse i s)
  unfolding brelse
  brelse-Stored = elim (Bool-cases (s.buf i).locked) [
    | inr free ↦ rw free tt
    | inl locked ↦ elim (Bool-cases ((s.buf i).refcnt - 1 == 0)) [
      | inl last ↦
          rw (locked, last)
            (released-Keeps s v i inside (i ∷ unlink i s.order)
              (λ j lt. moved-In i j s.order (v.whole j lt))
              (λ j at. elim at [
                | inl same ↦ subst (λ k. k < nbuf) same inside
                | inr there ↦ v.range j (unlink-In i j s.order there)
              ]))
      | inr more ↦ rw (locked, more) (released-Keeps s v i inside s.order v.whole v.range)
    ]
  ]

-- What the clients do. With each state stands the last write of each block.
pub data Step : Bcache → (ℕ → Block) → Bcache → (ℕ → Block) → Type 0 where
  reads : (w : ℕ → Block) (s t : Bcache) (n i : ℕ) → bread 1 n s ≡ got i t → Step s w t w
  sleeps : (w : ℕ → Block) (s t : Bcache) (n i : ℕ) → bread 1 n s ≡ asleep i t → Step s w t w
  wakes :
      (w : ℕ → Block) (s t : Bcache) (i j : ℕ)
      → i < nbuf
      → (s.buf i).dev ≡ 1
      → 0 < (s.buf i).refcnt
      → bread_on i s ≡ got j t
      → Step s w t w
  changes :
      (w : ℕ → Block) (s : Bcache) (i : ℕ) (blk : Block)
      → i < nbuf
      → (s.buf i).locked ≡ true
      → Step s w (modified i blk s) (update w (s.buf i).blockno blk)
  writes : (w : ℕ → Block) (s t : Bcache) (i : ℕ) → i < nbuf → bwrite i s ≡ some t → Step s w t w
  releases : (w : ℕ → Block) (s t : Bcache) (i : ℕ) → i < nbuf → brelse i s ≡ some t → Step s w t w

-- From the cache that `binit` leaves.
pub data Reach (disk : ℕ → Block) (size : ℕ) : (ℕ → Block) → Bcache → Type 0 where
  start : Reach disk size disk (binit disk size)
  then_step :
      (w w' : ℕ → Block) (s t : Bcache) → Reach disk size w s → Step s w t w' → Reach disk size w' t

-- The cache is right and shows the last writes.
abbrev pub Shows : (ℕ → Block) → Bcache → Type 0
Shows w s = Coherent s × ((n : ℕ) → view s n ≡ w n)

binit-Shows : (disk : ℕ → Block) (size : ℕ) → Shows disk (binit disk size)
binit-Shows disk size =
    let v : Coherent (binit disk size) = record {
      whole = chained_all nbuf;
      range = chained_lt nbuf;
      distinct = λ i j n lt lt' h h'. absurd (omega (arith, h.0));
      good = λ i lt. record {
        clean = λ dev t c. absurd (true≢false (sym t));
        held = λ t. absurd (true≢false (sym t));
        pinned = λ t. t;
      };
    } in
    (v, λ n. view_stored (binit disk size) v n (λ i lt h t. absurd (true≢false (sym t))))

Keeps-Shows : (w : ℕ → Block) (s t : Bcache) → Shows w s → Keeps s t → Shows w t
Keeps-Shows w s t (v, h) (v', k) = (v', λ n. k n ∙ h n)

Step-Shows : (s t : Bcache) (w w' : ℕ → Block) → Step s w t w' → Shows w s → Shows w' t
Step-Shows a b c d (reads w s t n i e) h =
    Keeps-Shows w s t h (subst (Answered s n) e (bread-Answered s n h.0)).1
Step-Shows a b c d (sleeps w s t n i e) h =
    Keeps-Shows w s t h (subst (Answered s n) e (bread-Answered s n h.0))
Step-Shows a b c d (wakes w s t i j lt dev refs e) h =
    Keeps-Shows w s t h
      (subst (Served s i (s.buf i).blockno) e
        (bread_on-Served s h.0 i (s.buf i).blockno lt (dev, refl) refs)).1
Step-Shows a b c d (changes w s i blk lt locked) h =
    let (valid, dev, refs) = (h.0.good i lt).held locked in
    let (v, seen) = modified_lem s h.0 i lt blk valid dev refs in
    (v, λ n. seen n ∙ ap (λ (x : Block). if (s.buf i).blockno == n then blk else x) (h.1 n))
Step-Shows a b c d (writes w s t i lt e) h =
    Keeps-Shows w s t h (subst (Stored s) e (bwrite-Stored s h.0 i lt))
Step-Shows a b c d (releases w s t i lt e) h =
    Keeps-Shows w s t h (subst (Stored s) e (brelse-Stored s h.0 i lt))

Reach-Shows :
    (disk : ℕ → Block) (size : ℕ) (w : ℕ → Block) (s : Bcache) → Reach disk size w s → Shows w s
Reach-Shows disk size a b start = binit-Shows disk size
Reach-Shows disk size a b (then_step w w' s t reach step) =
    Step-Shows s t w w' step (Reach-Shows disk size w s reach)

-- In every state that the clients of the cache reach from `binit`, a `bread` of a block on the disk 1 that comes back
-- gives a locked buffer for that block with the words that were last written to the block through the cache (those on
-- the disk at the start where there were none), and no two buffers stand for the same block.
pub Reach-read :
    (disk : ℕ → Block) (size : ℕ) (w : ℕ → Block) (s : Bcache) (n i : ℕ) (t : Bcache)
    → Reach disk size w s
    → bread 1 n s ≡ got i t
    → Holds (t.buf i) n
      × ((t.buf i).locked ≡ true)
      × ((t.buf i).words ≡ w n)
      × ((j : ℕ) → j < nbuf → Holds (t.buf j) n → j ≡ i)
Reach-read disk size w s n i t reach e =
    let (v, seen) = Reach-Shows disk size w s reach in
    let (lt, keeps, h, locked, words) = subst (Answered s n) e (bread-Answered s n v) in
    (h, locked, words ∙ seen n, λ j lt' h'. keeps.0.distinct j i n lt' lt h' h)

-- In every state that the clients reach, what was written last and is not held back in a dirty buffer is on the disk.
pub Reach-stored :
    (disk : ℕ → Block) (size : ℕ) (w : ℕ → Block) (s : Bcache) (n : ℕ)
    → Reach disk size w s
    → ((i : ℕ) → i < nbuf → Holds (s.buf i) n → (s.buf i).dirty ≡ false)
    → s.disk n ≡ w n
Reach-stored disk size w s n reach clean =
    let (v, seen) = Reach-Shows disk size w s reach in
    sym (view_stored s v n (λ i lt h t. (v.good i lt).clean h.0 t (clean i lt h) ∙ ap s.disk h.1))
    ∙ seen n

module _ (s : Bcache) (n : ℕ) (v : Coherent s) where
  -- Nothing to give.
  abbrev Full : Type 0
  Full = (i : ℕ) → i < nbuf → (Holds (s.buf i) n → ⊥) × (is_spare (s.buf i) ≡ false)

  Spare-none_iff :
      ((i : ℕ) → i < nbuf → Holds (s.buf i) n → ⊥)
      → (p : Option ℕ) → Spare s.buf s.order p
      → (elim p as (λ x. Option (ℕ × Bcache)) [
        | none ↦ none
        | some i ↦ some (i, with_buf i (recycled 1 n (s.buf i)) s)
      ]
          ≡ none)
        ↔ Full
  Spare-none_iff absent none c = (λ e i lt. (absent i lt, c i (v.whole i lt)), λ full. refl)
  Spare-none_iff absent (some i) (there, free) =
      (λ e. absurd (cc), λ full. absurd (true≢false (sym free ∙ (full i (v.range i there)).1)))

  Cached-none_iff :
      (o : Option ℕ)
      → Cached 1 n s.buf s.order o
      → (elim o as (λ x. Option (ℕ × Bcache)) [
        | some i ↦ some (i, with_buf i (referenced (s.buf i)) s)
        | none ↦ elim (spare s.buf s.order) [
          | none ↦ none
          | some i ↦ some (i, with_buf i (recycled 1 n (s.buf i)) s)
        ]
      ]
          ≡ none)
        ↔ Full
  Cached-none_iff none c =
      Spare-none_iff
        (λ i lt h. absurd (true≢false (sym (Holds-cached (s.buf i) n h) ∙ c i (v.whole i lt))))
        (spare s.buf s.order) (spare_lem s.buf s.order)
  Cached-none_iff (some i) (there, key) = (
    λ e. absurd (cc),
    λ full. absurd ((full i (v.range i there)).0 (cached-Holds (s.buf i) n key)),
  )

-- In every state that the clients reach, `bget` panics exactly when no buffer stands for the block and each of the 30
-- buffers is referenced or dirty.
pub bget-none_iff :
    (disk : ℕ → Block) (size : ℕ) (w : ℕ → Block) (s : Bcache) (n : ℕ)
    → Reach disk size w s
    → (bget 1 n s ≡ none)
      ↔ ((i : ℕ) → i < nbuf → (Holds (s.buf i) n → ⊥) × (is_spare (s.buf i) ≡ false))
unfolding bget
bget-none_iff disk size w s n reach =
    Cached-none_iff s n (Reach-Shows disk size w s reach).0 (cached 1 n s.buf s.order)
      (cached_lem 1 n s.buf s.order)
