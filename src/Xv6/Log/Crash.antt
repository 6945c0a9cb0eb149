-- ===== src/Xv6/Log/Crash.antt =====
-- Power failures during `commit` in 03-xv6-stcf-scheduler/log.c, and in the boots after it.
use systems_programming_port.Prelude.{
  ℕ, ◌+◌, ◌≤◌, ◌<◌, ◌≡◌, refl, sym, ap, subst, ◌∙◌, ◌≢◌, ◌⊎◌, inl, inr, false, List, [], ◌∷◌, arith,
  length, ltb, if◌then◌else◌, Bool-cases, ap₂, ltb→lt, ltb→ge,
}
use systems_programming_port.Xv6.Log.{
  Log, Block, has_block, install_trans, write_log_from, write_log, write_head, header_of, commit,
  initlog, reboot,
}
use systems_programming_port.Xv6.Log.View.{
  view, IsHome, Fits, SameSlots, range-SameSlots, moved-SameSlots, view_unnamed, view-ext,
}
use systems_programming_port.Xv6.Log.Phases.{
  Kept, write_log-Kept, left-write_log, write_log-other, write_log-view, left-install, install_off,
  left-write_head, cache-write_head, write_head-other, write_head-header,
}
use systems_programming_port.Xv6.Log.Recovery.{
  Recovers, finish-Recovers, finish_lem, recover-Recovers,
}

has_block_none : (x : ℕ) (bs : List ℕ) → length bs ≤ 0 → has_block x bs ≡ false
has_block_none x [] h = refl
has_block_none x (b ∷ bs) h = absurd (omega (arith, h))

module _ (l : Log) (f : Fits l.start l.size l.lh) (room : length l.lh < l.size)
    (clear : header_of (l.disk l.start) ≡ []) where
  abbrev w : Log
  w = write_log_from 0 l.lh l

  abbrev after : ℕ → Block
  after x = if has_block x l.lh then l.cache x else l.disk x

  kept : Kept l w
  kept = write_log-Kept 0 l.lh l

  w_outside : (x : ℕ) → (x ≤ l.start) ⊎ (l.start + l.size ≤ x) → w.disk x ≡ l.disk x
  w_outside x h =
      (write_log-other 0 l.lh l x
        (elim h [ inl lo ↦ inl (omega (arith, lo)) | inr hi ↦ inr (omega (arith, hi, room)) ])).0

  w_home : (x : ℕ) → IsHome l.start l.size x → w.disk x ≡ l.disk x
  w_home x (inl lo) = w_outside x (inl (omega (arith, lo)))
  w_home x (inr hi) = w_outside x (inr hi)

  w-Recovers : Recovers l.start l.size w.disk l.disk
  unfolding view
  w-Recovers =
      let empty : header_of (w.disk l.start) ≡ [] =
        ap header_of (w_outside l.start (inl (omega arith))) ∙ clear in
      record {
        fits = subst (Fits l.start l.size) (sym empty) (omega (arith, room));
        room = subst (λ (bs : List ℕ). length bs < l.size) (sym empty) (omega (arith, room));
        blocks = λ x home. ap (λ (bs : List ℕ). view l.start 0 bs w.disk x) empty ∙ w_home x home;
      }

  w_told :
      length l.lh < l.left
      → (x : ℕ) → IsHome l.start l.size x
      → view l.start 0 l.lh w.disk x ≡ after x
  w_told on x home = elim (Bool-cases (has_block x l.lh)) [
    | inl named ↦ rw named ((write_log-view 0 l.lh l f (omega (arith, room)) on).1 x named)
    | inr other ↦ rw other (view_unnamed l.start 0 l.lh w.disk x other ∙ w_home x home)
  ]

  -- The power fails before the header is written.
  early :
      l.left ≤ length l.lh
      → Recovers l.start l.size
          (write_head (record (install_trans (write_head w)) { lh = [] })).disk
          l.disk
  unfolding install_trans
  early off =
      let a = write_head w in
      let none_left : w.left ≡ 0 = omega (arith, left-write_log 0 l.lh l, off) in
      let a_off : a.left ≡ 0 = left-write_head w none_left in
      let m : Log = record (install_trans a) { lh = [] } in
      let m_off : m.left ≡ 0 = omega (arith, left-install 0 a.lh a, a_off) in
      let same : (write_head m).disk ≡ w.disk =
        (write_head-header m).1 m_off
        ∙ (install_off 0 a.lh a a_off ∙ (write_head-header w).1 none_left) in
      subst (λ (d : ℕ → Block). Recovers l.start l.size d l.disk) (sym same) w-Recovers

  -- The slots, once the header is written.
  a_slots :
      length l.lh < l.left
      → SameSlots l.start 0 l.lh w.disk (write_head w).disk
        × SameSlots l.start 0 l.lh (write_head w).disk (write_head w).cache
  a_slots on =
      let disk = range-SameSlots l.start 0 l.lh w.disk (write_head w).disk (λ k lo hi.
        write_head-other w (l.start + k + 1) (λ e. absurd (omega (arith, e, kept.start)))) in
      let cache = range-SameSlots l.start 0 l.lh w.cache (write_head w).cache (λ k lo hi.
        cache-write_head w (l.start + k + 1) (λ e. absurd (omega (arith, e, kept.start)))) in
      (
        disk,
        moved-SameSlots l.start 0 l.lh w.disk (write_head w).disk w.cache (write_head w).cache
            (write_log-view 0 l.lh l f (omega (arith, room)) on).0 disk cache,
      )

  late_told :
      length l.lh < l.left
      → (x : ℕ) → IsHome l.start l.size x
      → view w.start 0 w.lh (write_head w).disk x ≡ after x
  late_told on x home =
      ap₂ (λ n (bs : List ℕ). view n 0 bs (write_head w).disk x) kept.start kept.lh
      ∙ (view-ext l.start 0 l.lh w.disk (write_head w).disk x (a_slots on).0
            (write_head-other w x (home-ne x home))
          ∙ w_told on x home)
    where
      home-ne : (y : ℕ) → IsHome l.start l.size y → y ≢ w.start
      home-ne y (inl lo) e = absurd (omega (arith, lo, e, kept.start))
      home-ne y (inr hi) e = absurd (omega (arith, hi, e, kept.start, room))

  -- The power fails later, or not at all.
  abbrev ended : Log
  ended = write_head (record (install_trans (write_head w)) { lh = [] })

  a-Fits : Fits (write_head w).start (write_head w).size (write_head w).lh
  unfolding write_head
  a-Fits =
      subst (λ n. Fits n w.size w.lh) (sym kept.start)
        (subst (λ n. Fits l.start n w.lh) (sym kept.size)
          (subst (Fits l.start l.size) (sym kept.lh) f))

  a_slots_here :
      length (write_head w).lh < (write_head w).left
      → SameSlots (write_head w).start 0 (write_head w).lh (write_head w).disk (write_head w).cache
  unfolding write_head
  a_slots_here on =
      let here : length l.lh < l.left =
        omega (arith, on, ap (λ (bs : List ℕ). length bs) kept.lh, left-write_log 0 l.lh l) in
      subst (λ n. SameSlots n 0 w.lh (write_head w).disk (write_head w).cache) (sym kept.start)
        (subst (λ (bs : List ℕ). SameSlots l.start 0 bs (write_head w).disk (write_head w).cache)
          (sym kept.lh) (a_slots here).1)

  at_l :
      (d c c' : ℕ → Block)
      → Recovers w.start w.size d c
      → ((x : ℕ) → IsHome l.start l.size x → c x ≡ c' x)
      → Recovers l.start l.size d c'
  at_l d c c' r same =
      let r' =
        subst (λ n. Recovers l.start n d c) kept.size
          (subst (λ n. Recovers n w.size d c) kept.start r) in
      record { fits = r'.fits; room = r'.room; blocks = λ x home. r'.blocks x home ∙ same x home }

  late : length l.lh < l.left → Recovers l.start l.size ended.disk after
  unfolding install_trans write_head
  late on =
      let a = write_head w in
      let room' : length a.lh < a.size =
        omega (arith, ap (λ (bs : List ℕ). length bs) kept.lh, kept.size, room) in
      let powered : 0 < w.left = omega (arith, left-write_log 0 l.lh l, on) in
      at_l ended.disk _ after
        (finish-Recovers a a-Fits room' ((write_head-header w).0 powered) a_slots_here)
        (late_told on)

  still : Recovers l.start l.size l.disk l.disk
  unfolding view
  still = record {
    fits = subst (Fits l.start l.size) (sym clear) (omega (arith, room));
    room = subst (λ (bs : List ℕ). length bs < l.size) (sym clear) (omega (arith, room));
    blocks = λ x home. ap (λ (bs : List ℕ). view l.start 0 bs l.disk x) clear;
  }

  commit_cases :
      (Recovers l.start l.size (commit l).disk l.disk)
      ⊎ (Recovers l.start l.size (commit l).disk after)
  unfolding commit write_log
  commit_cases = elim (Bool-cases (ltb 0 (length l.lh))) [
    | inr nothing ↦ inl (rw nothing still)
    | inl some_there ↦ elim (Bool-cases (ltb (length l.lh) l.left)) [
      | inl on ↦ inr (rw some_there (late (ltb→lt _ _ on)))
      | inr off ↦ inl (rw some_there (early (ltb→ge _ _ off)))
    ]
  ]

  whole :
      length l.lh + length l.lh + 1 < l.left
      → (header_of (ended.disk l.start) ≡ [])
        × ((x : ℕ) → IsHome l.start l.size x → ended.disk x ≡ after x)
  unfolding install_trans write_head
  whole on =
      let a = write_head w in
      let same = ap (λ (bs : List ℕ). length bs) kept.lh in
      let room' : length a.lh < a.size = omega (arith, same, kept.size, room) in
      let powered : 0 < w.left = omega (arith, left-write_log 0 l.lh l, on) in
      let rest : length a.lh < a.left = omega (arith, same, left-write_log 0 l.lh l, on) in
      let (empty, blocks) =
        finish_lem a a-Fits room' ((write_head-header w).0 powered) a_slots_here rest in
      (
        subst (λ n. header_of (ended.disk n) ≡ []) kept.start empty,
        λ x home. blocks x (home_at x home) ∙ late_told (omega (arith, on)) x home,
      )
    where
      home_at : (x : ℕ) → IsHome l.start l.size x → IsHome w.start w.size x
      home_at x (inl lo) = inl (omega (arith, lo, kept.start))
      home_at x (inr hi) = inr (omega (arith, hi, kept.start, kept.size))

  -- Where the logged blocks are distinct blocks outside of the log, which has room for them, and the header on the
  -- disk is empty, `commit` with power for all of its writes leaves an empty header and, of the blocks outside of the
  -- log, every logged one as it is in the buffers and every other one as it was.
  pub commit_lem :
      length l.lh + length l.lh + 1 < l.left
      → (header_of ((commit l).disk l.start) ≡ [])
        × ((x : ℕ) → IsHome l.start l.size x → (commit l).disk x ≡ after x)
  unfolding commit write_log
  commit_lem on = elim (Bool-cases (ltb 0 (length l.lh))) [
    | inr nothing ↦
        rw nothing
          (clear, λ x home. rw (has_block_none x l.lh (omega (arith, ltb→ge _ _ nothing))) refl)
    | inl some_there ↦ rw some_there (whole on)
  ]

-- A boot after the power failed, with power for `k` block writes.
abbrev pub boot : ℕ → ℕ → ℕ → Log → Log
boot start size k l = initlog start size (reboot k l)

abbrev pub boots : ℕ → ℕ → List ℕ → Log → Log
boots start size [] l = l
boots start size (k ∷ ks) l = boots start size ks (boot start size k l)

boot-Recovers :
    (s size k : ℕ) (l : Log) (c : ℕ → Block)
    → Recovers s size l.disk c
    → Recovers s size (boot s size k l).disk c
      × (size ≤ k → (x : ℕ) → IsHome s size x → (boot s size k l).disk x ≡ c x)
unfolding initlog
boot-Recovers s size k l c r =
    let (again, whole) = recover-Recovers k (record l { start = s; size = size }) c r in
    (again, λ enough. whole (omega (arith, enough, r.room)))

boots-Recovers :
    (s size : ℕ) (ks : List ℕ) (l : Log) (c : ℕ → Block)
    → Recovers s size l.disk c
    → Recovers s size (boots s size ks l).disk c
boots-Recovers s size [] l c r = r
boots-Recovers s size (k ∷ ks) l c r =
    boots-Recovers s size ks (boot s size k l) c (boot-Recovers s size k l c r).0

-- The power may fail at any block write of `commit`, and again at any block write of any number of
-- boots after it. A last boot that is not interrupted leaves, outside of the log, either the disk as
-- it was before the commit, or the disk with all of the logged blocks as they were in the buffers.
-- The logged blocks are distinct blocks outside of the log, which has room for them, and the header
-- on the disk is empty before the commit.
pub commit-boots :
    (l : Log) (ks : List ℕ) (k : ℕ)
    → Fits l.start l.size l.lh
    → length l.lh < l.size
    → header_of (l.disk l.start) ≡ []
    → l.size ≤ k
    → (let d = (boot l.start l.size k (boots l.start l.size ks (commit l))).disk in
        ((x : ℕ) → IsHome l.start l.size x → d x ≡ l.disk x)
        ⊎ ((x : ℕ)
            → IsHome l.start l.size x
            → d x ≡ (if has_block x l.lh then l.cache x else l.disk x)))
commit-boots l ks k f room clear enough = elim (commit_cases l f room clear) [
  | inl r ↦ inl (
      (boot-Recovers l.start l.size k (boots l.start l.size ks (commit l)) _
          (boots-Recovers l.start l.size ks (commit l) _ r)).1
        enough)
  | inr r ↦ inr (
      (boot-Recovers l.start l.size k (boots l.start l.size ks (commit l)) _
          (boots-Recovers l.start l.size ks (commit l) _ r)).1
        enough)
]
