-- ===== src/Xv6/Scheduler/Best.antt =====
-- What the two passes of the STCF scheduler choose.
use systems_programming_port.Prelude.{
  ℕ, zero, suc, ◌+◌, ◌≤◌, ◌≡◌, refl, sym, ◌∙◌, ◌↔◌, ◌⊎◌, inl, inr, subst, Bool, true, false, ◌&&◌,
  Option, none, some, List, [], ◌∷◌, arith, get_elem?, Bool-cases, Option-cases,
}
use mathlib.Core.Bool.{true≢false}
use systems_programming_port.Prelude.Int.{◌<ℤ◌, eq_of_parts}
use systems_programming_port.Xv6.Proc.{Proc, Kernel, is_runnable}
use systems_programming_port.Xv6.Scheduler.{better, better_than, scan, unskipped, anyone, pick}

-- `p` goes before `q`: less time left, or as much and no smaller PID.
abbrev pub Beats : Proc → Proc → Type 0
Beats p q = (p.t_remain <ℤ q.t_remain) ⊎ ((p.t_remain ≡ q.t_remain) × (q.pid ≤ p.pid))

abbrev BeatsOpt : Option (ℕ × Proc) → Proc → Type 0
BeatsOpt none q = ⊥
BeatsOpt (some (i, p)) q = Beats p q

Beats-trans : (p q r : Proc) → Beats p q → Beats q r → Beats p r
Beats-trans p q r a b = ground (arith, eq_of_parts p.t_remain r.t_remain)

better-Beats : (p q : Proc) → better p q ≡ true → Beats p q
better-Beats p q h = ground (arith, eq_of_parts p.t_remain q.t_remain)

better-not : (p q : Proc) → better p q ≡ false → Beats q p
better-not p q h = ground (arith, eq_of_parts q.t_remain p.t_remain)

-- The scan's result, against every slot that the pass may choose.
record Scanned (allowed : ℕ → Proc → Bool) (i : ℕ) (best : Option (ℕ × Proc)) (ps : List Proc)
    (r : Option (ℕ × Proc)) : Type 0 where
  over :
      (j : ℕ) (q : Proc)
      → get_elem? ps j ≡ some q
      → is_runnable q.state ≡ true
      → allowed (i + j) q ≡ true
      → BeatsOpt r q
  over_best : (b : ℕ × Proc) → best ≡ some b → BeatsOpt r b.1
  member :
      (r ≡ best)
      ⊎ ((j : ℕ) × (q : Proc) × (r ≡ some (i + j, q))
          × (get_elem? ps j ≡ some q)
          × (is_runnable q.state ≡ true)
          × (allowed (i + j) q ≡ true))

BeatsOpt-trans : (r : Option (ℕ × Proc)) (p q : Proc) → BeatsOpt r p → Beats p q → BeatsOpt r q
BeatsOpt-trans none p q a b = a
BeatsOpt-trans (some (i, x)) p q a b = Beats-trans x p q a b

Beats-refl : (p : Proc) → Beats p p
Beats-refl p = inr (refl, omega arith)

-- A slot that loses to the best so far.
kept-Beats :
    (p : Proc) (best : Option (ℕ × Proc))
    → better_than p best ≡ false
    → (b : ℕ × Proc) × (best ≡ some b) × Beats b.1 p
kept-Beats p none h = cc
kept-Beats p (some b) h = (b, refl, better-not p b.1 h)

taken-Beats :
    (p : Proc) (best : Option (ℕ × Proc)) (b : ℕ × Proc)
    → better_than p best ≡ true
    → best ≡ some b
    → Beats p b.1
taken-Beats p none b h e = cc
taken-Beats p (some a) b h e = better-Beats p b.1 (ground arith)

module _ (allowed : ℕ → Proc → Bool) (i : ℕ) (best : Option (ℕ × Proc)) (p : Proc) (ps : List Proc)
    (r : Option (ℕ × Proc)) where
  Scanned-take :
      is_runnable p.state ≡ true
      → allowed i p ≡ true
      → better_than p best ≡ true
      → Scanned allowed (suc i) (some (i, p)) ps r
      → Scanned allowed i best (p ∷ ps) r
  Scanned-take run ok good ih = record {
    over = over;
    over_best =
        λ b e. BeatsOpt-trans r p b.1 (ih.over_best (i, p) refl) (taken-Beats p best b good e);
    member = elim ih.member [
      | inl e ↦ inr (0, p, ground arith, refl, run, ground arith)
      | inr (j, q, e, g, ru, al) ↦ inr (suc j, q, ground arith, g, ru, ground arith)
    ];
  }
    where
      over :
          (j : ℕ) (q : Proc)
          → get_elem? (p ∷ ps) j ≡ some q
          → is_runnable q.state ≡ true
          → allowed (i + j) q ≡ true
          → BeatsOpt r q
      over zero q e ru al =
          BeatsOpt-trans r p q (ih.over_best (i, p) refl)
            (subst (Beats p) {x = p} {y = q} (ground arith) (Beats-refl p))
      over (suc j) q e ru al = ih.over j q e ru (ground arith)

  Scanned-skip :
      (is_runnable p.state && allowed i p && better_than p best) ≡ false
      → Scanned allowed (suc i) best ps r
      → Scanned allowed i best (p ∷ ps) r
  Scanned-skip h ih = record {
    over = over;
    over_best = ih.over_best;
    member = elim ih.member [
      | inl e ↦ inl e
      | inr (j, q, e, g, ru, al) ↦ inr (suc j, q, ground arith, g, ru, ground arith)
    ];
  }
    where
      over :
          (j : ℕ) (q : Proc)
          → get_elem? (p ∷ ps) j ≡ some q
          → is_runnable q.state ≡ true
          → allowed (i + j) q ≡ true
          → BeatsOpt r q
      over zero q e ru al =
          let lost : better_than p best ≡ false = ground arith in
          let (b, eb, beats) = kept-Beats p best lost in
          BeatsOpt-trans r b.1 q (ih.over_best b eb)
            (subst (Beats b.1) {x = p} {y = q} (ground arith) beats)
      over (suc j) q e ru al = ih.over j q e ru (ground arith)

scan_lem :
    (allowed : ℕ → Proc → Bool) (i : ℕ) (best : Option (ℕ × Proc)) (ps : List Proc)
    → Scanned allowed i best ps (scan allowed i best ps)
unfolding scan
scan_lem allowed i best [] = record {
  over = λ j q e. cc;
  over_best = λ b e. subst (λ o. BeatsOpt o b.1) (sym e) (Beats-refl b.1);
  member = inl refl;
}
scan_lem allowed i best (p ∷ ps) =
    elim (Bool-cases (is_runnable p.state && allowed i p && better_than p best)) [
      | inl e ↦ rw e (
          Scanned-take allowed i best p ps _ (ground arith) (ground arith) (ground arith)
            (scan_lem allowed (suc i) (some (i, p)) ps))
      | inr e ↦ rw e (Scanned-skip allowed i best p ps _ e (scan_lem allowed (suc i) best ps))
    ]

-- What `pick` promises of the slot and process that it returns.
pub record IsBest (k : Kernel) (i : ℕ) (p : Proc) : Type 0 where
  pub found : get_elem? k.ptable i ≡ some p
  pub ready : is_runnable p.state ≡ true
  pub first :
      ((unskipped k.skip_target i p ≡ true)
        × ((j : ℕ) (q : Proc)
            → get_elem? k.ptable j ≡ some q
            → is_runnable q.state ≡ true
            → unskipped k.skip_target j q ≡ true
            → Beats p q))
      ⊎ (((j : ℕ) (q : Proc)
            → get_elem? k.ptable j ≡ some q
            → is_runnable q.state ≡ true
            → unskipped k.skip_target j q ≡ false)
          × ((j : ℕ) (q : Proc)
              → get_elem? k.ptable j ≡ some q
              → is_runnable q.state ≡ true
              → Beats p q))

-- A pass that returns nothing let no runnable process through.
scan-none :
    (allowed : ℕ → Proc → Bool) (ps : List Proc)
    → scan allowed 0 none ps ≡ none
    → (j : ℕ) (q : Proc) → get_elem? ps j ≡ some q
    → is_runnable q.state ≡ true
    → allowed j q ≡ false
scan-none allowed ps e j q g ru = elim (Bool-cases (allowed j q)) [
  | inl al ↦
      absurd
        (subst (λ r. BeatsOpt r q) e ((scan_lem allowed 0 none ps).over j q g ru (ground arith)))
  | inr no_pass ↦ no_pass
]

scan-some :
    (allowed : ℕ → Proc → Bool) (ps : List Proc) (i : ℕ) (p : Proc)
    → scan allowed 0 none ps ≡ some (i, p)
    → (get_elem? ps i ≡ some p)
      × (is_runnable p.state ≡ true)
      × (allowed i p ≡ true)
      × ((j : ℕ) (q : Proc)
          → get_elem? ps j ≡ some q
          → is_runnable q.state ≡ true
          → allowed j q ≡ true
          → Beats p q)
scan-some allowed ps i p e = elim (scan_lem allowed 0 none ps).member [
  | inl e' ↦ cc
  | inr (j, q, e', g, ru, al) ↦
      let hit : (i ≡ j) × (p ≡ q) = ground arith in
      (
        ground arith,
        ground arith,
        ground arith,
        λ j' q' g' ru' al'.
            subst (λ r. BeatsOpt r q') e
              ((scan_lem allowed 0 none ps).over j' q' g' ru' (ground arith)),
      )
]

-- The scheduler's choice is a runnable process of least remaining time, the largest PID breaking
-- ties, among those that are not skipped; only where every runnable process is skipped is it the
-- best of all of them.
pub pick-IsBest : (k : Kernel) (i : ℕ) (p : Proc) → pick k ≡ some (i, p) → IsBest k i p
unfolding pick
pick-IsBest k i p h = elim (Option-cases (scan (unskipped k.skip_target) 0 none k.ptable)) [
  | inl e ↦
      let s = scan-some anyone k.ptable i p (rw (e, pick) at h) in
      record {
        found = s.0;
        ready = s.1;
        first = inr (scan-none _ k.ptable e, λ j q g ru. s.3 j q g ru refl);
      }
  | inr (b, e) ↦
      let s = scan-some (unskipped k.skip_target) k.ptable i p (ground arith) in
      record { found = s.0; ready = s.1; first = inl (s.2, s.3) }
]

-- The scheduler finds no process to run exactly when none is runnable.
pub pick-none_iff :
    (k : Kernel)
    → (pick k ≡ none)
      ↔ ((j : ℕ) (q : Proc) → get_elem? k.ptable j ≡ some q → is_runnable q.state ≡ false)
unfolding pick
pick-none_iff k = (forward, backward)
  where
    forward :
        pick k ≡ none
        → (j : ℕ) (q : Proc) → get_elem? k.ptable j ≡ some q
        → is_runnable q.state ≡ false
    forward h j q g = elim (Bool-cases (is_runnable q.state)) [
      | inl ru ↦
          let empty : scan anyone 0 none k.ptable ≡ none = ground arith in
          absurd (true≢false (scan-none anyone k.ptable empty j q g ru))
      | inr no_run ↦ no_run
    ]

    backward :
        ((j : ℕ) (q : Proc) → get_elem? k.ptable j ≡ some q → is_runnable q.state ≡ false)
        → pick k ≡ none
    backward h = elim (Option-cases (pick k)) [
      | inl e ↦ e
      | inr (b, e) ↦
          let s = pick-IsBest k b.0 b.1 e in absurd (true≢false (sym s.ready ∙ h b.0 b.1 s.found))
    ]
