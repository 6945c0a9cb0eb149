-- ===== src/Xv6/Buffers/Coherent.antt =====
-- The blocks as the cache of 03-xv6-stcf-scheduler/bio.c shows them, and when the cache is right.
use systems_programming_port.Prelude.{
  ℕ, ◌<◌, ◌≡◌, refl, sym, ap, subst, ◌∙◌, ◌≢◌, inl, inr, true, false, Option, none, some, List,
  arith, ◌==◌, if◌then◌else◌, Bool-cases, ==_refl, ne→==, ==→eq, ==→ne,
}
use mathlib.Core.Bool.{true≢false}
use systems_programming_port.Prelude.Maps.{update}
use systems_programming_port.Xv6.Log.{Block}
use systems_programming_port.Xv6.Buffers.{nbuf, Buf, Bcache, is_cached, cached}
use systems_programming_port.Xv6.Buffers.Lookup.{In, Cached, cached_lem}

-- A block as a reader sees it: in the buffer that holds it, else on the disk.
unfoldable pub view : Bcache → ℕ → Block
unfolding cached
view s n = elim (cached 1 n s.buf s.order) [
  | none ↦ s.disk n
  | some i ↦ if (s.buf i).valid then (s.buf i).words else s.disk n
]

-- A buffer that holds the block `n`.
abbrev pub Holds : Buf → ℕ → Type 0
Holds b n = (b.dev ≡ 1) × (b.blockno ≡ n)

-- A clean buffer is as the disk, a locked or a dirty one has been read, and a locked one is referenced.
pub record Good (disk : ℕ → Block) (b : Buf) : Type 0 where
  pub clean : b.dev ≡ 1 → b.valid ≡ true → b.dirty ≡ false → b.words ≡ disk b.blockno
  pub held : b.locked ≡ true → (b.valid ≡ true) × (b.dev ≡ 1) × (0 < b.refcnt)
  pub pinned : b.dirty ≡ true → b.valid ≡ true

-- The list has all of the buffers, and no two of them the same block.
pub record Coherent (s : Bcache) : Type 0 where
  pub whole : (i : ℕ) → i < nbuf → In i s.order
  pub range : (i : ℕ) → In i s.order → i < nbuf
  pub distinct : (i j n : ℕ) → i < nbuf → j < nbuf → Holds (s.buf i) n → Holds (s.buf j) n → i ≡ j
  pub good : (i : ℕ) → i < nbuf → Good s.disk (s.buf i)

pub Holds-cached : (b : Buf) (n : ℕ) → Holds b n → is_cached 1 n b ≡ true
Holds-cached b n (dev, num) = rw (dev, num, ==_refl n) refl

pub cached-Holds : (b : Buf) (n : ℕ) → is_cached 1 n b ≡ true → Holds b n
cached-Holds b n h = (ground (arith, h), ground (arith, h))

module _ (s : Bcache) (v : Coherent s) (n : ℕ) (blk : Block)
    (shown : (i : ℕ)
      → i < nbuf
      → Holds (s.buf i) n
      → (s.buf i).valid ≡ true
      → (s.buf i).words ≡ blk)
    (stored : ((i : ℕ) → i < nbuf → Holds (s.buf i) n → (s.buf i).valid ≡ true → ⊥)
      → s.disk n ≡ blk) where
  seen_at :
      (o : Option ℕ)
      → Cached 1 n s.buf s.order o
      → elim o as (λ x. Block) [
        | none ↦ s.disk n
        | some i ↦ if (s.buf i).valid then (s.buf i).words else s.disk n
      ]
        ≡ blk
  seen_at none c =
      stored
        (λ i lt h t. absurd (true≢false (sym (Holds-cached (s.buf i) n h) ∙ c i (v.whole i lt))))
  seen_at (some i) (there, key) =
      let lt = v.range i there in
      let h = cached-Holds (s.buf i) n key in
      elim (Bool-cases (s.buf i).valid) [
        | inl t ↦ rw t (shown i lt h t)
        | inr f ↦ rw f (
            stored (λ j lt' h' t. absurd (
              true≢false (sym t ∙ (ap (λ k. (s.buf k).valid) (v.distinct j i n lt' lt h' h) ∙ f)))))
      ]

  pub view_is : view s n ≡ blk
  unfolding view
  view_is = seen_at (cached 1 n s.buf s.order) (cached_lem 1 n s.buf s.order)

module _ (s : Bcache) (v : Coherent s) where
  pub view-Holds :
      (i n : ℕ) → i < nbuf → Holds (s.buf i) n → (s.buf i).valid ≡ true → view s n ≡ (s.buf i).words
  view-Holds i n lt h t =
      view_is s v n (s.buf i).words
        (λ j lt' h' t'. ap (λ k. (s.buf k).words) (v.distinct j i n lt' lt h' h))
        (λ nobody. absurd (nobody i lt h t))

  pub view_stored :
      (n : ℕ)
      → ((i : ℕ)
          → i < nbuf
          → Holds (s.buf i) n
          → (s.buf i).valid ≡ true
          → (s.buf i).words ≡ s.disk n)
      → view s n ≡ s.disk n
  view_stored n h = view_is s v n (s.disk n) h (λ nobody. refl)

-- One buffer, the disk and the order of the list change.
abbrev pub put : ℕ → Buf → (ℕ → Block) → List ℕ → Bcache → Bcache
put i b d o s = record s { buf = update s.buf i b; disk = d; order = o }

module _ (s : Bcache) (v : Coherent s) (i : ℕ) (b : Buf) (d : ℕ → Block) (o : List ℕ) where
  abbrev t : Bcache
  t = put i b d o s

  at_own : (j : ℕ) → (i == j) ≡ true → t.buf j ≡ b
  at_own j own = rw own refl

  at_other : (j : ℕ) → (i == j) ≡ false → t.buf j ≡ s.buf j
  at_other j apart = rw apart refl

  -- What holds of every buffer but the one that changes, and of the new one.
  split_buf : (P : Buf → Type 0) (j : ℕ) → P b → (i ≢ j → P (s.buf j)) → P (t.buf j)
  split_buf P j own other = elim (Bool-cases (i == j)) [
    | inl same ↦ rw same own
    | inr apart ↦ rw apart (other (==→ne i j apart))
  ]

  pub put-Coherent :
      ((j : ℕ) → j < nbuf → In j o)
      → ((j : ℕ) → In j o → j < nbuf)
      → Good d b
      → ((j n : ℕ) → j < nbuf → i ≢ j → Holds b n → Holds (s.buf j) n → ⊥)
      → ((j n : ℕ) → j < nbuf → i ≢ j → Holds (s.buf j) n → d n ≡ s.disk n)
      → Coherent t
  put-Coherent whole range good apart same = record {
    whole = whole;
    range = range;
    distinct = λ j k n. distinct j k n;
    good = λ j lt. split_buf (Good d) j good (λ ne.
        let g = v.good j lt in
        record {
          clean = λ dev valid clean.
              g.clean dev valid clean ∙ sym (same j (s.buf j).blockno lt ne (dev, refl));
          held = g.held;
          pinned = g.pinned;
        });
  }
    where
      distinct : (j k n : ℕ) → j < nbuf → k < nbuf → Holds (t.buf j) n → Holds (t.buf k) n → j ≡ k
      distinct j k n lt lt' h h' = elim (Bool-cases (i == j)) [
        | inl own ↦ elim (Bool-cases (i == k)) [
          | inl both ↦ sym (==→eq i j own) ∙ ==→eq i k both
          | inr other ↦ absurd (
              apart k n lt' (==→ne i k other) (subst (λ x. Holds x n) (at_own j own) h)
                (subst (λ x. Holds x n) (at_other k other) h'))
        ]
        | inr away ↦ elim (Bool-cases (i == k)) [
          | inl own ↦ absurd (
              apart j n lt (==→ne i j away) (subst (λ x. Holds x n) (at_own k own) h')
                (subst (λ x. Holds x n) (at_other j away) h))
          | inr other ↦
              v.distinct j k n lt lt' (subst (λ x. Holds x n) (at_other j away) h)
                (subst (λ x. Holds x n) (at_other k other) h')
        ]
      ]

  -- The block that a reader sees then.
  pub put-view :
      Coherent t
      → i < nbuf
      → (n : ℕ) (blk : Block)
      → ((j : ℕ)
          → j < nbuf
          → i ≢ j
          → Holds (s.buf j) n
          → (s.buf j).valid ≡ true
          → (s.buf j).words ≡ blk)
      → (Holds b n → b.valid ≡ true → b.words ≡ blk)
      → (((j : ℕ) → j < nbuf → i ≢ j → Holds (s.buf j) n → (s.buf j).valid ≡ true → ⊥)
          → (Holds b n → b.valid ≡ true → ⊥)
          → d n ≡ blk)
      → view t n ≡ blk
  put-view w inside n blk others own rest =
      view_is t w n blk
        (λ j lt.
          split_buf (λ x. Holds x n → x.valid ≡ true → x.words ≡ blk) j own (λ ne. others j lt ne))
        (λ nobody.
          rest
            (λ j lt ne.
              subst (λ x. Holds x n → x.valid ≡ true → ⊥) (at_other j (ne→== i j ne)) (nobody j lt))
            (subst (λ x. Holds x n → x.valid ≡ true → ⊥) (at_own i (==_refl i)) (nobody i inside)))
