-- ===== src/Xv6/Buffers/Calls.antt =====
-- What each call of 03-xv6-stcf-scheduler/bio.c leaves of the cache.
use systems_programming_port.Prelude.{
  ℕ, ◌-◌, ◌<◌, ◌≡◌, refl, sym, ap, subst, ◌∙◌, ◌≢◌, inl, inr, true, false, List, arith, ◌==◌,
  Bool-cases, ==_refl, ne→==, ==→eq, ==→ne,
}
use mathlib.Core.Bool.{true≢false}
use systems_programming_port.Prelude.Maps.{update}
use systems_programming_port.Xv6.Log.{Block}
use systems_programming_port.Xv6.Buffers.{
  nbuf, Buf, Bcache, with_buf, is_spare, referenced, recycled, modified,
}
use systems_programming_port.Xv6.Buffers.Lookup.{In}
use systems_programming_port.Xv6.Buffers.Coherent.{
  view, Holds, Good, Coherent, view-Holds, view_stored, put, put-Coherent, put-view,
}

-- The cache stays right, and every block looks the same.
abbrev pub Keeps : Bcache → Bcache → Type 0
Keeps s t = Coherent t × ((n : ℕ) → view t n ≡ view s n)

module _ (s : Bcache) (v : Coherent s) (i : ℕ) (inside : i < nbuf) where
  abbrev own : Buf
  own = s.buf i

  -- Two buffers do not hold the same block.
  alone :
      (b : Buf)
      → b.dev ≡ own.dev
      → b.blockno ≡ own.blockno
      → (j n : ℕ) → j < nbuf
      → i ≢ j
      → Holds b n
      → Holds (s.buf j) n
      → ⊥
  alone b dev num j n lt ne (is_one, at) h =
      ne (v.distinct i j n inside lt (sym dev ∙ is_one, sym num ∙ at) h)

  -- The block on the disk is seen where only this buffer could hold another.
  rest_stored :
      (n : ℕ)
      → (Holds own n → own.valid ≡ true → own.words ≡ s.disk n)
      → ((j : ℕ) → j < nbuf → i ≢ j → Holds (s.buf j) n → (s.buf j).valid ≡ true → ⊥)
      → view s n ≡ s.disk n
  rest_stored n mine others = view_stored s v n (λ j lt. elim (Bool-cases (i == j)) [
    | inl same ↦
        subst (λ k. Holds (s.buf k) n → (s.buf k).valid ≡ true → (s.buf k).words ≡ s.disk n)
          (==→eq i j same) mine
    | inr ne ↦ λ h t. absurd (others j lt (==→ne i j ne) h t)
  ])

  -- A new state of the buffer with the same block and the same words.
  pub quiet-Keeps :
      (b : Buf) (o : List ℕ)
      → b.dev ≡ own.dev
      → b.blockno ≡ own.blockno
      → b.valid ≡ own.valid
      → b.words ≡ own.words
      → Good s.disk b
      → ((j : ℕ) → j < nbuf → In j o)
      → ((j : ℕ) → In j o → j < nbuf)
      → Keeps s (put i b s.disk o s)
  quiet-Keeps b o dev num valid words good whole range =
      let w =
        put-Coherent s v i b s.disk o whole range good (alone b dev num) (λ j n lt ne h. refl) in
      (
        w,
        λ n.
            put-view s v i b s.disk o w inside n (view s n)
              (λ j lt ne h t. sym (view-Holds s v j n lt h t))
              (λ h t.
                words
                ∙ sym (view-Holds s v i n inside (sym dev ∙ h.0, sym num ∙ h.1) (sym valid ∙ t)))
              (λ others mine.
                sym
                  (rest_stored n (λ h t. absurd (mine (dev ∙ h.0, num ∙ h.1) (valid ∙ t))) others)),
      )

  pub referenced-Keeps : Keeps s (with_buf i (referenced own) s)
  referenced-Keeps =
      let g = v.good i inside in
      quiet-Keeps (referenced own) s.order refl refl refl refl
        (record {
          clean = g.clean;
          held = λ t. let (a, b, c) = g.held t in (a, b, omega arith);
          pinned = g.pinned;
        })
        v.whole v.range

  pub locked-Keeps :
      own.valid ≡ true
      → own.dev ≡ 1
      → 0 < own.refcnt
      → Keeps s (with_buf i (record own { locked = true }) s)
  locked-Keeps valid dev refs =
      let g = v.good i inside in
      quiet-Keeps (record own { locked = true }) s.order refl refl refl refl
        (record { clean = g.clean; held = λ t. (valid, dev, refs); pinned = g.pinned }) v.whole
        v.range

  -- A spare buffer for a block that no buffer holds.
  pub recycled-Keeps :
      (n : ℕ)
      → is_spare own ≡ true
      → ((j : ℕ) → j < nbuf → Holds (s.buf j) n → ⊥)
      → Keeps s (with_buf i (recycled 1 n own) s)
  recycled-Keeps n free absent =
      let g = v.good i inside in
      let clean : own.dirty ≡ false = ground (arith, free) in
      let unlocked : own.locked ≡ true → ⊥ = λ t. absurd (ground (arith, free, (g.held t).2)) in
      let b = recycled 1 n own in
      let w =
        put-Coherent s v i b s.disk s.order v.whole v.range
          (record {
            clean = λ dev t. absurd (true≢false (sym t));
            held = λ t. absurd (unlocked t);
            pinned = λ t. t;
          })
          (λ j m lt ne h h'. absent j lt (h'.0, h'.1 ∙ sym h.1)) (λ j m lt ne h. refl) in
      (
        w,
        λ m.
            put-view s v i b s.disk s.order w inside m (view s m)
              (λ j lt ne h t. sym (view-Holds s v j m lt h t)) (λ h t. absurd (true≢false (sym t)))
              (λ others mine.
                sym (rest_stored m (λ h t. g.clean h.0 t clean ∙ ap s.disk h.1) others)),
      )

  -- The block read from the disk into a locked buffer.
  pub read-Keeps :
      own.valid ≡ false
      → own.dev ≡ 1
      → 0 < own.refcnt
      → Keeps s
          (with_buf i (record own { locked = true; valid = true; words = s.disk own.blockno }) s)
  read-Keeps unread dev refs =
      let g = v.good i inside in
      let b : Buf = record own { locked = true; valid = true; words = s.disk own.blockno } in
      let w =
        put-Coherent s v i b s.disk s.order v.whole v.range
          (record { clean = λ d t c. refl; held = λ t. (refl, dev, refs); pinned = λ t. refl })
          (alone b refl refl) (λ j m lt ne h. refl) in
      let bare : (m : ℕ) → Holds own m → view s m ≡ s.disk m = λ m h.
        view_stored s v m (λ j lt h' t. absurd (
          true≢false
            (sym t ∙ (ap (λ k. (s.buf k).valid) (v.distinct j i m lt inside h' h) ∙ unread)))) in
      (
        w,
        λ m.
            put-view s v i b s.disk s.order w inside m (view s m)
              (λ j lt ne h t. sym (view-Holds s v j m lt h t))
              (λ h t. ap s.disk h.1 ∙ sym (bare m h))
              (λ others mine. sym (rest_stored m (λ h t. absurd (mine h refl)) others)),
      )

  -- The block written to the disk.
  pub flushed-Keeps :
      own.valid ≡ true
      → own.dev ≡ 1
      → 0 < own.refcnt
      → Keeps s (
          put i
            (record own { valid = true; dirty = false })
            (update s.disk own.blockno own.words)
            s.order
            s)
  flushed-Keeps valid dev refs =
      let b : Buf = record own { valid = true; dirty = false } in
      let d = update s.disk own.blockno own.words in
      let away : (j m : ℕ) → j < nbuf → i ≢ j → Holds (s.buf j) m → d m ≡ s.disk m = λ j m lt ne h.
        rw (ne→== own.blockno m (λ same. ne (v.distinct i j m inside lt (dev, same) h))) refl in
      let w =
        put-Coherent s v i b d s.order v.whole v.range
          (record {
            clean = λ e t c. rw (==_refl own.blockno) refl;
            held = λ t. (refl, dev, refs);
            pinned = λ t. refl;
          })
          (alone b refl refl) away in
      (
        w,
        λ m.
            put-view s v i b d s.order w inside m (view s m)
              (λ j lt ne h t. sym (view-Holds s v j m lt h t))
              (λ h t. sym (view-Holds s v i m inside h valid))
              (λ others mine.
                let other_block : own.blockno ≢ m = λ same. mine (dev, same) refl in
                rw (ne→== own.blockno m other_block)
                  (sym (rest_stored m (λ h t. absurd (mine h refl)) others))),
      )

  -- The holder's change shows at its block only.
  pub modified_lem :
      (blk : Block)
      → own.valid ≡ true
      → own.dev ≡ 1
      → 0 < own.refcnt
      → Coherent (modified i blk s)
        × ((m : ℕ) → view (modified i blk s) m ≡ update (view s) own.blockno blk m)
  modified_lem blk valid dev refs =
      let b : Buf = record own { dirty = true; words = blk } in
      let w =
        put-Coherent s v i b s.disk s.order v.whole v.range
          (record {
            clean = λ e t c. absurd (true≢false c);
            held = λ t. (valid, dev, refs);
            pinned = λ t. valid;
          })
          (alone b refl refl) (λ j m lt ne h. refl) in
      (
        w,
        λ m.
            put-view s v i b s.disk s.order w inside m (update (view s) own.blockno blk m)
              (λ j lt ne h t.
                rw (ne→== own.blockno m (λ same. ne (v.distinct i j m inside lt (dev, same) h)))
                  (sym (view-Holds s v j m lt h t)))
              (λ h t. rw (h.1, ==_refl m) refl)
              (λ others mine.
                let other_block : own.blockno ≢ m = λ same. mine (dev, same) valid in
                rw (ne→== own.blockno m other_block)
                  (sym (rest_stored m (λ h t. absurd (mine h valid)) others))),
      )

  pub released-Keeps :
      (o : List ℕ)
      → ((j : ℕ) → j < nbuf → In j o)
      → ((j : ℕ) → In j o → j < nbuf)
      → Keeps s (put i (record own { locked = false; refcnt = own.refcnt - 1 }) s.disk o s)
  released-Keeps o whole range =
      let g = v.good i inside in
      quiet-Keeps (record own { locked = false; refcnt = own.refcnt - 1 }) o refl refl refl refl
        (record { clean = g.clean; held = λ t. absurd (true≢false (sym t)); pinned = g.pinned })
        whole range
