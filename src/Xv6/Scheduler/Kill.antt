-- ===== src/Xv6/Scheduler/Kill.antt =====
-- What `kill` of 03-xv6-stcf-scheduler/proc.c does.
use systems_programming_port.Prelude.{
  ℕ, zero, suc, ◌<◌, ◌≡◌, refl, ◌≢◌, ◌⊎◌, inl, inr, none, some, List, [], ◌∷◌, arith, get_elem?, ap,
  ◌∙◌, modify, get_elem?-modify_self, get_elem?-modify_ne, true, false, ◌==◌, Bool-cases, ==→eq,
  ==→ne,
}
use systems_programming_port.Prelude.Int.{pos, negsuc}
use systems_programming_port.Xv6.Proc.{Proc, Kernel, runnable, is_sleeping}
use systems_programming_port.Xv6.Scheduler.{mark_killed, kill_in, kill}

-- The first slot with that PID.
pub record FirstPid (pid : ℕ) (t : List Proc) (i : ℕ) (p : Proc) : Type 0 where
  pub found : get_elem? t i ≡ some p
  pub same : p.pid ≡ pid
  pub before : (j : ℕ) (q : Proc) → get_elem? t j ≡ some q → j < i → q.pid ≢ pid

-- No slot with that PID.
abbrev pub NoPid : ℕ → List Proc → Type 0
NoPid pid t = (j : ℕ) (q : Proc) → get_elem? t j ≡ some q → q.pid ≢ pid

NoPid-cons : (pid : ℕ) (p : Proc) (t : List Proc) → p.pid ≢ pid → NoPid pid t → NoPid pid (p ∷ t)
NoPid-cons pid p t ne all zero q h e = ground arith
NoPid-cons pid p t ne all (suc j) q h e = all j q h e

FirstPid-cons :
    (pid i : ℕ) (p q : Proc) (t : List Proc)
    → q.pid ≢ pid
    → FirstPid pid t i p
    → FirstPid pid (q ∷ t) (suc i) p
FirstPid-cons pid i p q t ne f = record { found = f.found; same = f.same; before = earlier }
  where
    earlier : (j : ℕ) (r : Proc) → get_elem? (q ∷ t) j ≡ some r → j < suc i → r.pid ≢ pid
    earlier zero r h lt e = ground arith
    earlier (suc j) r h lt e = f.before j r h (omega (arith, lt)) e

kill_in_lem :
    (pid : ℕ) (t : List Proc)
    → ((i : ℕ) × (p : Proc) × FirstPid pid t i p × (kill_in pid t ≡ some (modify t i mark_killed)))
      ⊎ (NoPid pid t × (kill_in pid t ≡ none))
unfolding kill_in
kill_in_lem pid [] = inr (λ j q h. cc, refl)
kill_in_lem pid (p ∷ t) = elim (Bool-cases (p.pid == pid)) [
  | inl hit ↦ inl (
    zero,
    p,
    record { found = refl; same = ==→eq _ _ hit; before = λ j q h lt. absurd (omega (arith, lt)) },
    rw hit refl,
  )
  | inr miss ↦ elim (kill_in_lem pid t) [
    | inl (i, q, f, e) ↦
        inl (suc i, q, FirstPid-cons pid i q p t (==→ne _ _ miss) f, rw (miss, e) refl)
    | inr (all, e) ↦ inr (NoPid-cons pid p t (==→ne _ _ miss) all, rw (miss, e) refl)
  ]
]

pub kill-mark_killed :
    (pid : ℕ) (k : Kernel)
    → ((i : ℕ) × (p : Proc) × FirstPid pid k.ptable i p
        × (kill pid k ≡ (pos 0, record k { ptable = modify k.ptable i mark_killed })))
      ⊎ (NoPid pid k.ptable × (kill pid k ≡ (negsuc 0, k)))
unfolding kill
kill-mark_killed pid k = elim (kill_in_lem pid k.ptable) [
  | inl (i, p, f, e) ↦ inl (i, p, f, rw (e, kill) refl)
  | inr (all, e) ↦ inr (all, rw (e, kill) refl)
]

-- A process after `kill`: killed, awake, and otherwise as it was.
pub record IsKilled (p q : Proc) : Type 0 where
  pub killed : q.killed ≡ true
  pub awake : is_sleeping p.state ≡ true → q.state ≡ runnable
  pub same_state : is_sleeping p.state ≡ false → q.state ≡ p.state
  pub same_pid : q.pid ≡ p.pid
  pub same_parent : q.parent ≡ p.parent

mark_killed-IsKilled : (p : Proc) → IsKilled p (mark_killed p)
mark_killed-IsKilled p = record {
  killed = refl;
  awake = λ asleep. rw asleep refl;
  same_state = λ up. rw up refl;
  same_pid = refl;
  same_parent = refl;
}

-- `kill` returns 0 where a slot has the PID, and then the first one with it, in use or not, is killed: a process that
-- slept there is runnable, another keeps its state, and no other slot changes. Where no slot has the PID it returns
-- -1 and changes nothing.
pub kill_lem :
    (pid : ℕ) (k : Kernel)
    → ((i : ℕ) × (p q : Proc) × FirstPid pid k.ptable i p
        × ((kill pid k).0 ≡ pos 0)
        × (get_elem? (kill pid k).1.ptable i ≡ some q)
        × IsKilled p q
        × ((j : ℕ) → i ≢ j → get_elem? (kill pid k).1.ptable j ≡ get_elem? k.ptable j))
      ⊎ (NoPid pid k.ptable × (kill pid k ≡ (negsuc 0, k)))
kill_lem pid k = elim (kill-mark_killed pid k) [
  | inl (i, p, f, e) ↦ inl (
    i,
    p,
    mark_killed p,
    f,
    ap (λ r. r.0) e,
    ap (λ r. get_elem? r.1.ptable i) e ∙ get_elem?-modify_self k.ptable i mark_killed p f.found,
    mark_killed-IsKilled p,
    λ j ne. ap (λ r. get_elem? r.1.ptable j) e ∙ get_elem?-modify_ne k.ptable i j mark_killed ne,
  )
  | inr h ↦ inr h
]
