-- ===== src/Wfs/Bitmap/Laws.antt =====
-- What the bitmap operations of 01-fuse-filesystem-wfs/wfs.c do to the set of positions in use.
use systems_programming_port.Prelude.{
  ℕ, zero, suc, ◌+◌, ◌*◌, ◌/◌, ◌%◌, ◌≤◌, ◌<◌, ◌≡◌, refl, sym, ap, subst, ◌⊎◌, inl, inr, Bool, true,
  false, Option, none, some, arith, ltb, ◌==◌, if◌then◌else◌, Bool-cases, Option-cases, ==_refl,
  ne→==, ==→eq, ==→ne, tests, ap₂, ltb→ge,
}
use systems_programming_port.Prelude.Maps.{update}
use systems_programming_port.Wfs.Word.{
  test_bit, set_bit, all_ones, test_bit-set_bit, test_bit-clear_bit, test_bit-all_ones,
}
use systems_programming_port.Wfs.Bitmap.{
  Bitmap, bitmap_test, free_bitmap, first_zero, free_bit, allocate_from, allocate_block,
}

-- A position is its word and its bit.
split-eq : (p q : ℕ) → p / 32 ≡ q / 32 → p % 32 ≡ q % 32 → p ≡ q
split-eq p q a b = omega arith

-- A change of one bit, at the position that it stands for.
one_bit :
    (p q : ℕ) (v : Bool) (bm : Bitmap) (w : ℕ)
    → ((j : ℕ) → test_bit w j ≡ (if (p % 32) == j then v else test_bit (bm (p / 32)) j))
    → bitmap_test q (update bm (p / 32) w) ≡ (if p == q then v else bitmap_test q bm)
unfolding bitmap_test
one_bit p q v bm w h = elim (Bool-cases ((p / 32) == (q / 32))) [
  | inr other ↦
      let apart : (p == q) ≡ false = ne→== p q (λ e. ==→ne _ _ other (ap (λ n. n / 32) e)) in
      rw (other, apart) refl
  | inl same_word ↦
      let word : p / 32 ≡ q / 32 = ==→eq _ _ same_word in
      elim (Bool-cases ((p % 32) == (q % 32))) [
        | inl same_bit ↦
            let here : (p == q) ≡ true =
              subst (λ n. (p == n) ≡ true) (split-eq p q word (==→eq _ _ same_bit)) (==_refl p) in
            rw (same_word, here) (rw (h (q % 32), same_bit) refl)
        | inr other ↦
            let apart : (p == q) ≡ false = ne→== p q (λ e. ==→ne _ _ other (ap (λ n. n % 32) e)) in
            rw (same_word, apart) (rw (h (q % 32), other) (rw word refl))
      ]
]

-- `free_bitmap` takes one position out of the set and leaves the rest.
pub bitmap_test-free_bitmap :
    (p q : ℕ) (bm : Bitmap)
    → bitmap_test q (free_bitmap p bm) ≡ (if p == q then false else bitmap_test q bm)
unfolding free_bitmap
bitmap_test-free_bitmap p q bm =
    one_bit p q false bm _ (λ j. test_bit-clear_bit (bm (p / 32)) (p % 32) j)

-- What the inner loop finds.
pub record FirstZero (n k w j : ℕ) : Type 0 where
  pub from : k ≤ j
  pub below : j < k + n
  pub clear : test_bit w j ≡ false
  pub before : (i : ℕ) → k ≤ i → i < j → test_bit w i ≡ true

first_zero-some : (n k w j : ℕ) → first_zero n k w ≡ some j → FirstZero n k w j
unfolding first_zero
first_zero-some zero k w j h = cc
first_zero-some (suc n) k w j h = elim (Bool-cases (test_bit w k)) [
  | inl taken ↦
      let f = first_zero-some n (suc k) w j (ground arith) in
      record {
        from = omega (arith, f.from);
        below = omega (arith, f.below);
        clear = f.clear;
        before = λ i a b. elim (Bool-cases (k == i)) [
          | inl e ↦ subst (λ x. test_bit w x ≡ true) (==→eq k i e) taken
          | inr ne ↦ f.before i (omega (arith, a, ==→ne k i ne)) b
        ];
      }
  | inr open_now ↦
      let at : k ≡ j = ground arith in
      record {
        from = omega arith;
        below = omega arith;
        clear = subst (λ x. test_bit w x ≡ false) at open_now;
        before = λ i a b. absurd (omega (arith, at, a, b));
      }
]

first_zero-none : (n k w i : ℕ) → first_zero n k w ≡ none → k ≤ i → i < k + n → test_bit w i ≡ true
unfolding first_zero
first_zero-none zero k w i h a b = absurd (omega (arith, a, b))
first_zero-none (suc n) k w i h a b = elim (Bool-cases (test_bit w k)) [
  | inr open_now ↦ ground arith
  | inl taken ↦ elim (Bool-cases (k == i)) [
    | inl e ↦ subst (λ x. test_bit w x ≡ true) (==→eq k i e) taken
    | inr ne ↦
        first_zero-none n (suc k) w i (ground arith) (omega (arith, a, ==→ne k i ne))
          (omega (arith, b))
  ]
]

free_bit-none : (w i : ℕ) → free_bit w ≡ none → i < 32 → test_bit w i ≡ true
free_bit-none w i h lt = elim (Bool-cases (w == all_ones)) [
  | inl e ↦ subst (λ x. test_bit x i ≡ true) (sym (==→eq _ _ e)) (test_bit-all_ones i lt)
  | inr ne ↦ first_zero-none 32 0 w i (rw ne at h) (omega arith) (omega (arith, lt))
]

free_bit-some : (w j : ℕ) → free_bit w ≡ some j → FirstZero 32 0 w j
free_bit-some w j h = elim (Bool-cases (w == all_ones)) [
  | inl e ↦ cc (rw e at h)
  | inr ne ↦ first_zero-some 32 0 w j (rw ne at h)
]

-- A position was free, is the first free one from `lo` on, below `hi`, and is now the only change.
pub record Takes (bm : Bitmap) (lo hi p : ℕ) (bm' : Bitmap) : Type 0 where
  pub above : lo ≤ p
  pub below : p < hi
  pub was_free : bitmap_test p bm ≡ false
  pub before : (q : ℕ) → lo ≤ q → q < p → bitmap_test q bm ≡ true
  pub after : (q : ℕ) → bitmap_test q bm' ≡ (if p == q then true else bitmap_test q bm)

full_word :
    (i q : ℕ) (bm : Bitmap)
    → free_bit (bm i) ≡ none
    → 32 * i ≤ q
    → q < 32 * suc i
    → bitmap_test q bm ≡ true
unfolding bitmap_test
full_word i q bm h a b =
    let word : q / 32 ≡ i = omega (arith, a, b) in
    rw word (free_bit-none (bm i) (q % 32) h (omega arith))

found_bit :
    (n i k : ℕ) (bm : Bitmap)
    → FirstZero 32 0 (bm i) k
    → Takes bm (32 * i) (32 * (i + suc n)) (32 * i + k) (update bm i (set_bit (bm i) k))
unfolding bitmap_test
found_bit n i k bm f =
    let p = 32 * i + k in
    let word : p / 32 ≡ i = omega (arith, f.below) in
    let bit : p % 32 ≡ k = omega (arith, f.below) in
    record {
      above = omega arith;
      below = omega (arith, f.below);
      was_free = rw (word, bit) f.clear;
      before = λ q a b.
          let there : q / 32 ≡ i = omega (arith, a, b, f.below) in
          rw there (f.before (q % 32) (omega arith) (omega (arith, a, b)));
      after = λ q.
          subst
            (λ w.
              bitmap_test q (update bm w (set_bit (bm i) k))
              ≡ (if p == q then true else bitmap_test q bm))
            word
            (one_bit p q true bm (set_bit (bm i) k)
              (λ j. rw (word, bit) (test_bit-set_bit (bm i) k j)));
    }

allocate_from-some :
    (n i p : ℕ) (bm bm' : Bitmap)
    → allocate_from n i bm ≡ (some p, bm')
    → Takes bm (32 * i) (32 * (i + n)) p bm'
unfolding allocate_from
allocate_from-some zero i p bm bm' h = cc
allocate_from-some (suc n) i p bm bm' h = elim (Option-cases (free_bit (bm i))) [
  | inl e ↦
      let t = allocate_from-some n (suc i) p bm bm' (rw (e, allocate_from) at h) in
      record {
        above = omega (arith, t.above);
        below = omega (arith, t.below);
        was_free = t.was_free;
        before = λ q a b. elim (Bool-cases (ltb q (32 * suc i))) [
          | inl here ↦ full_word i q bm e a (omega (tests, here))
          | inr later ↦ t.before q (omega (arith, ltb→ge _ _ later)) b
        ];
        after = t.after;
      }
  | inr (k, e) ↦
      let h' : ◌≡◌ {A = Option ℕ × Bitmap} (some (32 * i + k), update bm i (set_bit (bm i) k))
          (some p, bm') =
        rw (e, allocate_from) at h in
      let at : 32 * i + k ≡ p = ground arith in
      let same : update bm i (set_bit (bm i) k) ≡ bm' = ap (λ r. r.1) h' in
      subst (λ b. Takes bm (32 * i) (32 * (i + suc n)) p b) same
        (subst (λ x. Takes bm (32 * i) (32 * (i + suc n)) x (update bm i (set_bit (bm i) k))) at
          (found_bit n i k bm (free_bit-some (bm i) k e)))
]

allocate_from-none :
    (n i q : ℕ) (bm : Bitmap)
    → (allocate_from n i bm).0 ≡ none
    → 32 * i ≤ q
    → q < 32 * (i + n)
    → bitmap_test q bm ≡ true
unfolding allocate_from
allocate_from-none zero i q bm h a b = absurd (omega (arith, a, b))
allocate_from-none (suc n) i q bm h a b = elim (Option-cases (free_bit (bm i))) [
  | inr (k, e) ↦ cc (rw (e, allocate_from) at h)
  | inl e ↦ elim (Bool-cases (ltb q (32 * suc i))) [
    | inl here ↦ full_word i q bm e a (omega (tests, here))
    | inr later ↦
        allocate_from-none n (suc i) q bm (rw (e, allocate_from) at h)
          (omega (arith, ltb→ge _ _ later)) (omega (arith, b))
  ]
]

allocate_from_same :
    (n i : ℕ) (bm : Bitmap) → (allocate_from n i bm).0 ≡ none → (allocate_from n i bm).1 ≡ bm
unfolding allocate_from
allocate_from_same zero i bm h = refl
allocate_from_same (suc n) i bm h = elim (Option-cases (free_bit (bm i))) [
  | inr (k, e) ↦ cc (rw (e, allocate_from) at h)
  | inl e ↦ rw (e, allocate_from) (allocate_from_same n (suc i) bm (rw (e, allocate_from) at h))
]

-- `allocate_block` takes the first free position of the bitmap, sets it and nothing else; it
-- returns -1 only where every position is taken, and then leaves the bitmap as it is.
pub allocate_block_lem :
    (bm : Bitmap) (len : ℕ)
    → ((p : ℕ) × ((allocate_block bm len).0 ≡ some p)
        × Takes bm 0 (32 * len) p (allocate_block bm len).1)
      ⊎ (((allocate_block bm len).0 ≡ none)
          × ((allocate_block bm len).1 ≡ bm)
          × ((q : ℕ) → q < 32 * len → bitmap_test q bm ≡ true))
unfolding allocate_block
allocate_block_lem bm len = elim (Option-cases (allocate_from len 0 bm).0) [
  | inl e ↦ inr (
    e,
    allocate_from_same len 0 bm e,
    λ q h. allocate_from-none len 0 q bm e (omega arith) (omega (arith, h)),
  )
  | inr (p, e) ↦
      let found =
        allocate_from-some len 0 p bm (allocate_from len 0 bm).1 (ap₂ (λ x y. (x, y)) e refl) in
      let end : 32 * (0 + len) ≡ 32 * len = omega arith in
      inl (p, e, subst (λ n. Takes bm 0 n p (allocate_from len 0 bm).1) end found)
]
