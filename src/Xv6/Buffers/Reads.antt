-- ===== src/Xv6/Buffers/Reads.antt =====
-- What `bread` of 03-xv6-stcf-scheduler/bio.c answers, in every state of the cache that its clients reach.
use systems_programming_port.Prelude.{
  ℕ, ◌<◌, ◌≡◌, refl, sym, subst, ◌∙◌, inl, inr, Bool, true, false, not, ◌&&◌, ◌||◌, Option, none,
  some, arith, leb, ◌==◌, if◌then◌else◌, Bool-cases, ==_refl,
}
use mathlib.Core.Bool.{true≢false}
use systems_programming_port.Prelude.Maps.{update}
use systems_programming_port.Xv6.Buffers.{
  nbuf, Buf, Bcache, with_buf, cached, spare, referenced, recycled, bget, iderw, Bread, got, asleep,
  panic, loaded, bread_on, bread,
}
use systems_programming_port.Xv6.Buffers.Lookup.{Cached, cached_lem, Spare, spare_lem}
use systems_programming_port.Xv6.Buffers.Coherent.{
  view, Holds, Coherent, Holds-cached, cached-Holds, view-Holds, put,
}
use systems_programming_port.Xv6.Buffers.Calls.{
  Keeps, referenced-Keeps, locked-Keeps, recycled-Keeps, read-Keeps,
}

pub Keeps-trans : (s t u : Bcache) → Keeps s t → Keeps t u → Keeps s u
Keeps-trans s t u (v, h) (w, k) = (w, λ n. k n ∙ h n)

-- What `bget` gives: a buffer with a reference for the block.
abbrev pub Given : Bcache → ℕ → Option (ℕ × Bcache) → Type 0
Given s n none = Unit
Given s n (some (i, t)) = (i < nbuf) × Keeps s t × Holds (t.buf i) n × (0 < (t.buf i).refcnt)

Given-Spare :
    (s : Bcache) (n : ℕ)
    → Coherent s
    → ((j : ℕ) → j < nbuf → Holds (s.buf j) n → ⊥)
    → (o : Option ℕ) → Spare s.buf s.order o
    → Given s n (elim o [ none ↦ none | some i ↦ some (i, with_buf i (recycled 1 n (s.buf i)) s) ])
Given-Spare s n v absent none c = tt
Given-Spare s n v absent (some i) (there, free) =
    let lt = v.range i there in
    (
      lt,
      recycled-Keeps s v i lt n free absent,
      rw (==_refl i) (refl, refl),
      rw (==_refl i) (omega arith),
    )

pub bget-Given : (s : Bcache) (n : ℕ) → Coherent s → Given s n (bget 1 n s)
unfolding bget
bget-Given s n v = go (cached 1 n s.buf s.order) (cached_lem 1 n s.buf s.order)
  where
    go :
        (o : Option ℕ)
        → Cached 1 n s.buf s.order o
        → Given s n (elim o [
          | some i ↦ some (i, with_buf i (referenced (s.buf i)) s)
          | none ↦ elim (spare s.buf s.order) [
            | none ↦ none
            | some i ↦ some (i, with_buf i (recycled 1 n (s.buf i)) s)
          ]
        ])
    go (some i) (there, key) =
        let lt = v.range i there in
        (
          lt,
          referenced-Keeps s v i lt,
          rw (==_refl i) (cached-Holds (s.buf i) n key),
          rw (==_refl i) (omega arith),
        )
    go none c =
        Given-Spare s n v
          (λ j lt h. absurd (true≢false (sym (Holds-cached (s.buf j) n h) ∙ c j (v.whole j lt))))
          (spare s.buf s.order) (spare_lem s.buf s.order)

double_update :
    (f : ℕ → Buf) (i : ℕ) (x y : Buf) (j : ℕ) → update (update f i x) i y j ≡ update f i y j
double_update f i x y j = elim (Bool-cases (i == j)) [ inl t ↦ rw t refl | inr f ↦ rw f refl ]

-- `iderw` on the buffer that was stored last.
abbrev pub device : ℕ → Buf → Bcache → Option Bcache
device i b s =
    if not b.locked || (b.valid && not b.dirty)
    then none
    else if not (b.dev == 1) || leb s.disksize b.blockno
    then none
    else if b.dirty
    then some (
        put i (record b { valid = true; dirty = false }) (update s.disk b.blockno b.words) s.order
          s)
    else some (with_buf i (record b { valid = true; words = s.disk b.blockno }) s)

pub iderw-device : (s : Bcache) (i : ℕ) (b : Buf) → iderw i (with_buf i b s) ≡ device i b s
unfolding iderw
iderw-device s i b =
    let twice : (y : Buf) → update (update s.buf i b) i y ≡ update s.buf i y =
      λ y k j. double_update s.buf i b y j k in
    rw
      (
        ==_refl i,
        twice (record b { valid = true; dirty = false }),
        twice (record b { valid = true; words = s.disk b.blockno }),
      )
      refl

-- What a read of the buffer `i` for the block `n` leaves.
abbrev pub Served : Bcache → ℕ → ℕ → Bread → Type 0
Served s i n panic = Unit
Served s i n (asleep j t) = (j ≡ i) × Keeps s t
Served s i n (got j t) =
    (j ≡ i)
    × Keeps s t
    × Holds (t.buf i) n
    × ((t.buf i).locked ≡ true)
    × ((t.buf i).words ≡ view s n)

module _ (s : Bcache) (v : Coherent s) (i n : ℕ) (inside : i < nbuf) (h : Holds (s.buf i) n)
    (refs : 0 < (s.buf i).refcnt) where
  abbrev mine : Buf
  mine = record (s.buf i) { locked = true }

  ready-Served : (s.buf i).valid ≡ true → Served s i n (got i (with_buf i mine s))
  ready-Served valid = (
    refl,
    locked-Keeps s v i inside valid h.0 refs,
    rw (==_refl i) h,
    rw (==_refl i) refl,
    rw (==_refl i) (sym (view-Holds s v i n inside h valid)),
  )

  read-Served :
      (s.buf i).valid ≡ false
      → Served s i n
          (got i (with_buf i (record mine { valid = true; words = s.disk (s.buf i).blockno }) s))
  read-Served unread =
      let (w, same) = read-Keeps s v i inside unread h.0 refs in
      let t = with_buf i (record mine { valid = true; words = s.disk (s.buf i).blockno }) s in
      (
        refl,
        (w, same),
        rw (==_refl i) h,
        rw (==_refl i) refl,
        sym (view-Holds t w i n inside (rw (==_refl i) h) (rw (==_refl i) refl)) ∙ same n,
      )

  clean_there :
      (c : Bool)
      → (s.buf i).dirty ≡ c
      → (s.buf i).valid ≡ false
      → Served s i n (
          loaded i (
            if c
            then some (
                put i
                  (record mine { valid = true; dirty = false })
                  (update s.disk (s.buf i).blockno (s.buf i).words)
                  s.order
                  s)
            else some
                (with_buf i (record mine { valid = true; words = s.disk (s.buf i).blockno }) s)))
  clean_there true e unread = absurd (true≢false (sym ((v.good i inside).pinned e) ∙ unread))
  clean_there false e unread = read-Served unread

  device-Served : (s.buf i).valid ≡ false → Served s i n (loaded i (device i mine s))
  device-Served unread =
      elim (Bool-cases (not ((s.buf i).dev == 1) || leb s.disksize (s.buf i).blockno)) [
        | inl out ↦ rw (unread, out) tt
        | inr fits ↦ rw (unread, fits) (clean_there (s.buf i).dirty refl unread)
      ]

  ask-Served : (s.buf i).valid ≡ false → Served s i n (loaded i (iderw i (with_buf i mine s)))
  ask-Served unread =
      subst (λ x. Served s i n (loaded i x)) (sym (iderw-device s i mine)) (device-Served unread)

  pub bread_on-Served : Served s i n (bread_on i s)
  unfolding bread_on
  bread_on-Served = go (s.buf i).locked (s.buf i).valid refl refl
    where
      go :
          (l b : Bool)
          → (s.buf i).locked ≡ l
          → (s.buf i).valid ≡ b
          → Served s i n (
              if l
              then asleep i s
              else if b
              then got i (with_buf i mine s)
              else loaded i (iderw i (with_buf i mine s)))
      go true b e f = (refl, (v, λ m. refl))
      go false true e f = ready-Served f
      go false false e f = ask-Served f

-- What `bread` leaves.
abbrev pub Answered : Bcache → ℕ → Bread → Type 0
Answered s n panic = Unit
Answered s n (asleep i t) = Keeps s t
Answered s n (got i t) =
    (i < nbuf)
    × Keeps s t
    × Holds (t.buf i) n
    × ((t.buf i).locked ≡ true)
    × ((t.buf i).words ≡ view s n)

pub Served-Answered :
    (s t : Bcache) (i n : ℕ) → i < nbuf → Keeps s t → (r : Bread) → Served t i n r → Answered s n r
Served-Answered s t i n lt keeps panic a = tt
Served-Answered s t i n lt keeps (asleep j u) (e, k) = Keeps-trans s t u keeps k
Served-Answered s t i n lt keeps (got j u) (e, k, h, locked, words) =
    subst
      (λ x.
        (x < nbuf)
        × Keeps s u
        × Holds (u.buf x) n
        × ((u.buf x).locked ≡ true)
        × ((u.buf x).words ≡ view s n))
      (sym e) (lt, Keeps-trans s t u keeps k, h, locked, words ∙ keeps.1 n)

pub bread-Answered : (s : Bcache) (n : ℕ) → Coherent s → Answered s n (bread 1 n s)
unfolding bread
bread-Answered s n v = go (bget 1 n s) (bget-Given s n v)
  where
    go :
        (o : Option (ℕ × Bcache))
        → Given s n o
        → Answered s n (elim o [ none ↦ panic | some (i, t) ↦ bread_on i t ])
    go none g = tt
    go (some (i, t)) (lt, keeps, h, refs) =
        Served-Answered s t i n lt keeps (bread_on i t) (bread_on-Served t keeps.0 i n lt h refs)
