-- ===== src/Xv6/Lifecycle/Reuse.antt =====
-- A slot of the process table of 03-xv6-stcf-scheduler/proc.c that is killed while no process is in it.
use systems_programming_port.Prelude.{
  ℕ, zero, suc, ◌≡◌, refl, sym, ap, subst, ◌∙◌, ◌≢◌, inl, inr, true, false, some, List, [], ◌∷◌,
  arith, get_elem?, modify, ltb, ◌==◌, Bool-cases, ne→==, get_elem?-modify_self, ltb→lt, ltb→ge,
}
use systems_programming_port.Xv6.Proc.{Proc, Kernel, is_unused}
use systems_programming_port.Xv6.Scheduler.{mark_killed, kill}
use systems_programming_port.Xv6.Scheduler.Kill.{FirstPid, kill-mark_killed}
use systems_programming_port.Xv6.Lifecycle.{find_unused, claimed, fresh, allocproc}

find_unused-modify :
    (n i : ℕ) (t : List Proc) (f : Proc → Proc)
    → ((p : Proc) → is_unused (f p).state ≡ is_unused p.state)
    → find_unused n (modify t i f) ≡ find_unused n t
unfolding find_unused
find_unused-modify n i [] f keeps = refl
find_unused-modify n zero (p ∷ t) f keeps = rw (keeps p) refl
find_unused-modify n (suc i) (p ∷ t) f keeps = rw (find_unused-modify (suc n) i t f keeps) refl

first_unique :
    (pid : ℕ) (t : List Proc) (i j : ℕ) (p q : Proc)
    → FirstPid pid t i p
    → FirstPid pid t j q
    → i ≡ j
first_unique pid t i j p q a b = elim (Bool-cases (ltb i j)) [
  | inl lt ↦ absurd (b.before i p a.found (ltb→lt i j lt) a.same)
  | inr ge ↦ elim (Bool-cases (ltb j i)) [
    | inl lt ↦ absurd (a.before j q b.found (ltb→lt j i lt) b.same)
    | inr le ↦ omega (arith, ltb→ge i j ge, ltb→ge j i le)
  ]
]

kill_first :
    (pid i : ℕ) (k : Kernel) (p : Proc)
    → FirstPid pid k.ptable i p
    → (kill pid k).1 ≡ record k { ptable = modify k.ptable i mark_killed }
kill_first pid i k p f = elim (kill-mark_killed pid k) [
  | inl (j, q, g, e) ↦
      let same : j ≡ i = first_unique pid k.ptable j i q p g f in
      ap (λ r. r.1) e ∙ ap (λ n. record k { ptable = modify k.ptable n mark_killed }) same
  | inr (none_has, e) ↦ absurd (none_has i p f.found f.same)
]

alloc_killed :
    (kstack i : ℕ) (k : Kernel) (p : Proc)
    → find_unused 0 k.ptable ≡ some i
    → get_elem? k.ptable i ≡ some p
    → p.killed ≡ true
    → kstack ≢ 0
    → ((allocproc kstack k).0 ≡ some i)
      × ((q : Proc) × (get_elem? (allocproc kstack k).1.ptable i ≡ some q)
          × (q.killed ≡ true)
          × (q.pid ≡ k.nextpid))
unfolding allocproc
alloc_killed kstack i k p free g dead ne =
    let t = modify k.ptable i (claimed k.nextpid) in
    let once = get_elem?-modify_self k.ptable i (claimed k.nextpid) p g in
    let twice = get_elem?-modify_self t i (fresh kstack) (claimed k.nextpid p) once in
    let given : (kstack == 0) ≡ false = ne→== kstack 0 ne in
    rw (free, allocproc, given) (refl, (fresh kstack (claimed k.nextpid p), twice, dead, refl))

-- `kill (0)` reaches a slot that no process uses, and the process that `allocproc` then makes there
-- is killed from the start: where the first slot with PID 0 is the first unused one, and memory is
-- granted.
pub allocproc-kill :
    (kstack i : ℕ) (k : Kernel) (p : Proc)
    → find_unused 0 k.ptable ≡ some i
    → FirstPid 0 k.ptable i p
    → kstack ≢ 0
    → ((allocproc kstack (kill 0 k).1).0 ≡ some i)
      × ((q : Proc) × (get_elem? (allocproc kstack (kill 0 k).1).1.ptable i ≡ some q)
          × (q.killed ≡ true)
          × (q.pid ≡ k.nextpid))
allocproc-kill kstack i k p free f ne =
    let k' : Kernel = record k { ptable = modify k.ptable i mark_killed } in
    let at : k' ≡ (kill 0 k).1 = sym (kill_first 0 i k p f) in
    subst
      (λ x.
        ((allocproc kstack x).0 ≡ some i)
        × ((q : Proc) × (get_elem? (allocproc kstack x).1.ptable i ≡ some q)
            × (q.killed ≡ true)
            × (q.pid ≡ k.nextpid)))
      at
      (alloc_killed kstack i k' (mark_killed p)
        (find_unused-modify 0 i k.ptable mark_killed (λ q. ground arith) ∙ free)
        (get_elem?-modify_self k.ptable i mark_killed p f.found) refl ne)
