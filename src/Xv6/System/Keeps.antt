-- ===== src/Xv6/System/Keeps.antt =====
-- Every step of the process table keeps the invariant.
use systems_programming_port.Prelude.{
  ℕ, ◌≡◌, refl, ◌∙◌, inl, inr, subst, get_elem?-modify_ne, true, false, Option, none, some, List,
  arith, get_elem?, modify, ◌==◌, Bool-cases, Option-cases,
}
use systems_programming_port.Xv6.Proc.{Proc, Kernel, is_running, is_runnable}
use systems_programming_port.Xv6.Scheduler.{consume_for, consume_skip, schedule, pick}
use systems_programming_port.Xv6.Scheduler.Best.{pick-IsBest}
use systems_programming_port.Xv6.System.Inv.{Inv, modify_inv}

abbrev pub KernelInv : Kernel → Type 0
KernelInv k = Inv k.ptable k.nextpid k.cpu_proc k.skip_target

-- The process on the CPU leaves it.
pub leave-Inv :
    (t : List Proc) (cur next : ℕ) (target : Option ℕ) (f : Proc → Proc)
    → ((p : Proc)
        → (is_running (f p).state ≡ false) × ((f p).skip_once ≡ p.skip_once) × ((f p).pid ≡ p.pid))
    → Inv t next (some cur) target
    → Inv (modify t cur f) next none target
leave-Inv t cur next target f keeps v = record {
  on_cpu =
      λ j q h. let (p, g, e) = modify_inv t cur f j q h in ground (arith, v.on_cpu j p g, keeps p);
  marked = λ j q h m.
      let (p, g, e) = modify_inv t cur f j q h in ground (arith, v.marked j p g, keeps p);
  own = λ i j a b. cc;
  below = λ j q h u.
      let (p, g, e) = modify_inv t cur f j q h in
      ground (arith, v.below j p g, v.on_cpu j p g, keeps p);
  distinct = λ i j p q hp hq up uq e.
      let (p', gp, ep) = modify_inv t cur f i p hp in
      let (q', gq, eq) = modify_inv t cur f j q hq in
      ground
        (arith, v.distinct i j p' q' gp gq, keeps p', keeps q', v.on_cpu i p' gp, v.on_cpu j q' gq);
}

-- A runnable process takes the CPU.
pub run-Inv :
    (t : List Proc) (i next : ℕ) (target : Option ℕ) (f : Proc → Proc) (r : Proc)
    → ((p : Proc)
        → (is_running (f p).state ≡ true) × ((f p).skip_once ≡ p.skip_once) × ((f p).pid ≡ p.pid))
    → get_elem? t i ≡ some r
    → is_runnable r.state ≡ true
    → ((j : ℕ) → target ≡ some j → i ≡ j)
    → Inv t next none target
    → Inv (modify t i f) next (some i) target
run-Inv t i next target f r keeps there ready own v = record {
  on_cpu =
      λ j q h. let (p, g, e) = modify_inv t i f j q h in ground (arith, v.on_cpu j p g, keeps p);
  marked =
      λ j q h m. let (p, g, e) = modify_inv t i f j q h in ground (arith, v.marked j p g, keeps p);
  own = λ a j ea ej. ground (arith, own j);
  below = λ j q h u.
      let (p, g, e) = modify_inv t i f j q h in
      ground (arith, v.below j p g, v.on_cpu j p g, keeps p);
  distinct = λ a b p q hp hq up uq e.
      let (p', gp, ep) = modify_inv t i f a p hp in
      let (q', gq, eq) = modify_inv t i f b q hq in
      ground (arith, v.distinct a b p' q' gp gq, keeps p', keeps q');
}

-- The skip of slot `t` is cleared, with its mark.
clear-Inv :
    (ps : List Proc) (next t : ℕ)
    → Inv ps next none (some t)
    → Inv (modify ps t (λ p. record p { skip_once = false })) next none none
clear-Inv ps next t v = record {
  on_cpu = λ j q h. let (p, g, e) = modify_inv ps t _ j q h in ground (arith, v.on_cpu j p g);
  marked =
      λ j q h m. let (p, g, e) = modify_inv ps t _ j q h in absurd (ground (arith, v.marked j p g));
  own = λ i j a b. cc;
  below = λ j q h u. let (p, g, e) = modify_inv ps t _ j q h in ground (arith, v.below j p g);
  distinct = λ i j p q hp hq up uq e.
      let (p', gp, ep) = modify_inv ps t _ i p hp in
      let (q', gq, eq) = modify_inv ps t _ j q hq in ground (arith, v.distinct i j p' q' gp gq);
}

-- What the switch to slot `best` relies on.
abbrev Consumed : ℕ → Kernel → Type 0
Consumed best k =
    Inv k.ptable k.nextpid none k.skip_target × ((j : ℕ) → k.skip_target ≡ some j → best ≡ j)

consume-Inv :
    (best : ℕ) (target : Option ℕ) (k : Kernel)
    → k.skip_target ≡ target
    → Inv k.ptable k.nextpid none k.skip_target
    → Consumed best (consume_for best target k)
unfolding consume_for
consume-Inv best none k e v = (v, λ j h. cc)
consume-Inv best (some t) k e v = elim (Bool-cases (best == t)) [
  | inl hit ↦ rw hit (v, λ j h. ground arith)
  | inr miss ↦
      rw miss (clear-Inv k.ptable k.nextpid t (subst (Inv k.ptable k.nextpid none) e v), λ j h. cc)
]

-- The chosen process is still there, and still runnable, once the skip is consumed.
pub consume-ready :
    (best : ℕ) (target : Option ℕ) (k : Kernel) (p : Proc)
    → get_elem? k.ptable best ≡ some p
    → is_runnable p.state ≡ true
    → get_elem? (consume_for best target k).ptable best ≡ some p
unfolding consume_for
consume-ready best none k p h r = h
consume-ready best (some t) k p h r = elim (Bool-cases (best == t)) [
  | inl hit ↦ rw hit h
  | inr miss ↦ rw miss (get_elem?-modify_ne k.ptable t best _ (ground arith) ∙ h)
]

pub schedule-Inv : (k : Kernel) → k.cpu_proc ≡ none → KernelInv k → KernelInv (schedule k)
unfolding schedule consume_skip
schedule-Inv k idle v = elim (Option-cases (pick k)) [
  | inl e ↦ rw (e, schedule) v
  | inr ((best, p), e) ↦
      let s = pick-IsBest k best p e in
      let c =
        consume-Inv best k.skip_target k refl
          (subst (λ o. Inv k.ptable k.nextpid o k.skip_target) idle v) in
      rw (e, schedule)
        (run-Inv (consume_skip best k).ptable best _ _ _ p (λ q. (refl, refl, refl))
          (consume-ready best k.skip_target k p s.found s.ready) s.ready c.1 c.0)
]
