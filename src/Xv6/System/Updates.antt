-- ===== src/Xv6/System/Updates.antt =====
-- The updates of the process table that the kernel calls are made of keep the invariant.
use systems_programming_port.Prelude.{◌<◌, ◌+◌, ◌^◌, ◌%◌, arith}
use systems_programming_port.Prelude.{
  ℕ, zero, suc, ◌+◌, ◌≡◌, refl, inl, inr, subst, get_elem?-modify_self, true, false, Option, none,
  some, List, [], ◌∷◌, arith, get_elem?, modify, ◌==◌, if◌then◌else◌, Bool-cases, Option-cases,
}
use systems_programming_port.Prelude.Int.{ℤ, pos, negsuc}
use systems_programming_port.Xv6.Proc.{Proc, Kernel, Chan, is_running, is_unused, embryo, unused}
use systems_programming_port.Xv6.Scheduler.{
  stcf_account, leave_cpu, yield_cpu, sleep_on, wakeup, wakeup1, timer_tick, notify, kill_in, kill,
  mark_killed,
}
use systems_programming_port.Xv6.Lifecycle.{claimed, fresh, find_unused, allocproc, in_slot}
use systems_programming_port.Xv6.Syscalls.{sys_kill}
use systems_programming_port.Xv6.System.Inv.{
  Inv, Quiet, Quietly, modify_inv, modify-Quietly, map-Quietly, Quietly-refl, Inv-Quietly,
}
use systems_programming_port.Xv6.System.Keeps.{KernelInv, leave-Inv}

pub account-keeps :
    (now : ℕ) (p : Proc)
    → ((stcf_account now p).state ≡ p.state)
      × ((stcf_account now p).skip_once ≡ p.skip_once)
      × ((stcf_account now p).pid ≡ p.pid)
unfolding stcf_account
account-keeps now p = ground arith

-- An update of one slot that the invariant does not see.
pub slot-Inv :
    (i : ℕ) (f : Proc → Proc) (k : Kernel)
    → ((p : Proc) → get_elem? k.ptable i ≡ some p → Quiet p (f p))
    → KernelInv k
    → KernelInv (in_slot i f k)
slot-Inv i f k quiet v = Inv-Quietly k.ptable _ _ _ _ v (modify-Quietly k.ptable i f quiet)

pub off_cpu-Inv :
    (k : Kernel) (cur : ℕ) (f : Proc → Proc)
    → k.cpu_proc ≡ some cur
    → ((p : Proc)
        → (is_running (f p).state ≡ false) × ((f p).skip_once ≡ p.skip_once) × ((f p).pid ≡ p.pid))
    → KernelInv k
    → KernelInv (leave_cpu cur f k)
unfolding leave_cpu
off_cpu-Inv k cur f e keeps v =
    leave-Inv k.ptable cur _ _ f keeps (subst (λ o. Inv k.ptable k.nextpid o k.skip_target) e v)

pub yield-Inv :
    (k : Kernel) (cur : ℕ) → k.cpu_proc ≡ some cur → KernelInv k → KernelInv (yield_cpu cur k)
unfolding yield_cpu
yield-Inv k cur e v = off_cpu-Inv k cur _ e (λ p. ground (arith, account-keeps k.ticks p)) v

pub sleep-Inv :
    (k : Kernel) (cur : ℕ) (c : Chan)
    → k.cpu_proc ≡ some cur
    → KernelInv k
    → KernelInv (sleep_on cur c k)
unfolding sleep_on
sleep-Inv k cur c e v =
    off_cpu-Inv k cur _ e (λ p. ground (arith, account-keeps k.ticks (record p { chan = c }))) v

pub wakeup1-Quietly : (c : Chan) (t : List Proc) → Quietly t (wakeup1 c t)
unfolding wakeup1
wakeup1-Quietly c t = map-Quietly t _ (λ p. ground arith)

pub wakeup-Inv : (c : Chan) (k : Kernel) → KernelInv k → KernelInv (wakeup c k)
unfolding wakeup
wakeup-Inv c k v = Inv-Quietly k.ptable _ _ _ _ v (wakeup1-Quietly c k.ptable)

notify-Quiet : (p : Proc) → Quiet p (notify p)
unfolding notify
notify-Quiet p = ground arith

pub tick-Inv : (k : Kernel) → KernelInv k → KernelInv (timer_tick k)
unfolding timer_tick
tick-Inv k v = Inv-Quietly k.ptable _ _ _ _ v (map-Quietly k.ptable notify notify-Quiet)

Quietly-cons :
    (p q : Proc) (ps qs : List Proc) → Quiet p q → Quietly ps qs → Quietly (p ∷ ps) (q ∷ qs)
Quietly-cons p q ps qs a b zero r h = (p, refl, subst (Quiet p) {x = q} {y = r} (ground arith) a)
Quietly-cons p q ps qs a b (suc j) r h = b j r h

Quiet-same : (p : Proc) → Quiet p p
Quiet-same p = record { runs = refl; skips = λ h. h; pids = λ h. refl; used = λ h. h }

killed-Quiet : (p : Proc) → Quiet p (mark_killed p)
killed-Quiet p = ground arith

kill_in-Quietly : (pid : ℕ) (t u : List Proc) → kill_in pid t ≡ some u → Quietly t u
unfolding kill_in
kill_in-Quietly pid [] u e = cc
kill_in-Quietly pid (p ∷ ps) u e = elim (Bool-cases (p.pid == pid)) [
  | inl hit ↦
      let shape : mark_killed p ∷ ps ≡ u = ground arith in
      subst (Quietly (p ∷ ps)) shape (Quietly-cons p _ ps ps (killed-Quiet p) (Quietly-refl ps))
  | inr miss ↦ elim (Option-cases (kill_in pid ps)) [
    | inl no_one ↦ cc (rw (miss, no_one, kill_in) at e)
    | inr (qs, found) ↦
        let shape : p ∷ qs ≡ u = ground arith in
        subst (Quietly (p ∷ ps)) shape
          (Quietly-cons p p ps qs (Quiet-same p) (kill_in-Quietly pid ps qs found))
  ]
]

pub kill-Inv : (pid : Option ℤ) (k : Kernel) → KernelInv k → KernelInv (sys_kill pid k).1
unfolding sys_kill kill
kill-Inv none k v = v
kill-Inv (some (negsuc n)) k v = v
kill-Inv (some (pos pid)) k v = elim (Option-cases (kill_in pid k.ptable)) [
  | inl e ↦ rw (e, kill) v
  | inr (t, e) ↦ rw (e, kill) (Inv-Quietly k.ptable t _ _ _ v (kill_in-Quietly pid k.ptable t e))
]

find_unused_lem :
    (n : ℕ) (ps : List Proc) (i : ℕ)
    → find_unused n ps ≡ some i
    → (j : ℕ) × (p : Proc) × (i ≡ n + j) × (get_elem? ps j ≡ some p) × (is_unused p.state ≡ true)
unfolding find_unused
find_unused_lem n [] i e = cc
find_unused_lem n (p ∷ ps) i e = elim (Bool-cases (is_unused p.state)) [
  | inl hit ↦ (0, p, ground arith, refl, hit)
  | inr miss ↦
      let (j, q, a, g, u) = find_unused_lem (suc n) ps i (ground arith) in
      (suc j, q, ground arith, g, u)
]

claim-Inv :
    (t : List Proc) (i next : ℕ) (cpu target : Option ℕ) (r : Proc)
    → get_elem? t i ≡ some r
    → is_unused r.state ≡ true
    → Inv t next cpu target
    → Inv (modify t i (claimed next)) (next + 1) cpu target
claim-Inv t i next cpu target r there free v = record {
  on_cpu = λ j q h. let (p, g, e) = modify_inv t i _ j q h in ground (arith, v.on_cpu j p g);
  marked = λ j q h m. let (p, g, e) = modify_inv t i _ j q h in ground (arith, v.marked j p g);
  own = v.own;
  below = λ j q h u. let (p, g, e) = modify_inv t i _ j q h in ground (arith, v.below j p g);
  distinct = λ a b p q hp hq up uq e.
      let (p', gp, ep) = modify_inv t i _ a p hp in
      let (q', gq, eq) = modify_inv t i _ b q hq in
      ground (arith, v.distinct a b p' q' gp gq, v.below a p' gp, v.below b q' gq);
}

-- The slot that `allocproc` hands out holds an embryo.
abbrev pub Allocates : Option ℕ × Kernel → Type 0
Allocates (slot, k) =
    KernelInv k
    × ((i : ℕ) (p : Proc) → slot ≡ some i → get_elem? k.ptable i ≡ some p → p.state ≡ embryo)

alloc-Inv :
    (kstack i : ℕ) (r : Proc) (k : Kernel)
    → get_elem? k.ptable i ≡ some r
    → is_unused r.state ≡ true
    → KernelInv k
    → k.nextpid + 1 < 2 ^ 31
    → Allocates (
        let k' : Kernel = record (in_slot i (claimed k.nextpid) k) {
          nextpid = (k.nextpid + 1) % 2 ^ 32;
        } in
        if kstack == 0
        then (none, in_slot i (λ p. record p { kstack = 0; state = unused }) k')
        else (some i, in_slot i (fresh kstack) k'))
alloc-Inv kstack i r k there free v small =
    let t = modify k.ptable i (claimed k.nextpid) in
    let stored = get_elem?-modify_self k.ptable i (claimed k.nextpid) r there in
    let exact : k.nextpid + 1 ≡ (k.nextpid + 1) % 2 ^ 32 = omega (arith, small) in
    let v' =
      subst (λ n. Inv t n k.cpu_proc k.skip_target) exact
        (claim-Inv k.ptable i k.nextpid k.cpu_proc k.skip_target r there free v) in
    elim (Bool-cases (kstack == 0)) [
      | inl failed ↦
          rw failed
            (Inv-Quietly t _ _ _ _ v' (modify-Quietly t i _ (λ p g. ground arith)), λ j p e g. cc)
      | inr good ↦ rw good (
        Inv-Quietly t _ _ _ _ v' (modify-Quietly t i _ (λ p g. ground arith)),
        λ j p e g. let (p', g', e') = modify_inv t i (fresh kstack) j p g in ground arith,
      )
    ]

pub allocproc-Inv :
    (kstack : ℕ) (k : Kernel)
    → KernelInv k
    → k.nextpid + 1 < 2 ^ 31
    → Allocates (allocproc kstack k)
unfolding allocproc
allocproc-Inv kstack k v small = elim (Option-cases (find_unused 0 k.ptable)) [
  | inl e ↦ rw (e, allocproc) (v, λ i p a g. cc)
  | inr (i, e) ↦
      let (j, p, a, g, u) = find_unused_lem 0 k.ptable i e in
      rw (e, allocproc) (alloc-Inv kstack i p k (ground arith) u v small)
]

pub allocproc_cpu : (kstack : ℕ) (k : Kernel) → (allocproc kstack k).1.cpu_proc ≡ k.cpu_proc
unfolding allocproc
allocproc_cpu kstack k = ground arith
