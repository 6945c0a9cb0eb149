-- ===== src/Xv6/System/Steps.antt =====
-- Every step of the process table keeps the invariant, and every reachable state has it.
use systems_programming_port.Prelude.{◌<◌, ◌+◌, ◌^◌, arith}
use systems_programming_port.Prelude.{
  ℕ, zero, suc, ◌≡◌, refl, ◌∙◌, inl, inr, subst, Option, none, some, arith, get_elem?, replicate,
  ◌==◌, Bool-cases,
}
use systems_programming_port.Xv6.Proc.{nproc, empty_proc, Kernel}
use systems_programming_port.Xv6.Lifecycle.{
  first_into, first_process, allocproc, in_slot, done, userinit,
}
use systems_programming_port.Xv6.ForkExit.{Files, clone_into, fork, clone}
use systems_programming_port.Xv6.System.Keeps.{KernelInv, schedule-Inv}
use systems_programming_port.Xv6.System.Updates.{
  slot-Inv, yield-Inv, sleep-Inv, wakeup-Inv, tick-Inv, kill-Inv, Allocates, allocproc-Inv,
  allocproc_cpu,
}
use systems_programming_port.Xv6.System.Requests.{nap-Inv, remain-Inv, give-Inv, cleanup-Inv}
use systems_programming_port.Xv6.System.Families.{wait-Inv, fork_into-Inv, clone_into-Inv, exit-Inv}
use systems_programming_port.Xv6.System.{
  Step, Reach, boot, schedules, ticks, wakes, yields, sleeps, resumes, kills, naps, remains, gives,
  forks, clones, exits, waits, start, then_step,
}

get_elem?-replicate :
    {A : Type 0} (n : ℕ) (a : A) (j : ℕ) (q : A) → get_elem? (replicate n a) j ≡ some q → q ≡ a
get_elem?-replicate zero a j q h = cc
get_elem?-replicate (suc n) a zero q h = ground arith
get_elem?-replicate (suc n) a (suc j) q h = get_elem?-replicate n a j q h

boot-Inv : KernelInv boot
boot-Inv = record {
  on_cpu = λ j q h. ground (arith, get_elem?-replicate nproc empty_proc j q h);
  marked = λ j q h m. ground (arith, get_elem?-replicate nproc empty_proc j q h);
  own = λ i j a b. cc;
  below = λ j q h u. ground (arith, get_elem?-replicate nproc empty_proc j q h);
  distinct = λ i j p q hp hq up uq e. ground (arith, get_elem?-replicate nproc empty_proc i p hp);
}

first-Inv :
    (slot : Option ℕ) (pgdir root : ℕ) (k k' : Kernel)
    → Allocates (slot, k)
    → first_into slot pgdir root k ≡ done k'
    → KernelInv k'
unfolding first_into
first-Inv none pgdir root k k' a h = cc
first-Inv (some i) pgdir root k k' a h = elim (Bool-cases (pgdir == 0)) [
  | inl bad ↦ cc (rw bad at h)
  | inr good ↦
      let k1 : Kernel = record k { initproc = i } in
      let same : in_slot i (first_process pgdir root) k1 ≡ k' = ground arith in
      subst KernelInv same
        (slot-Inv i (first_process pgdir root) k1 (λ p g. ground (arith, a.1 i p refl g)) a.0)
]

module _ (files : Files) where
  -- Every step of the kernel keeps the invariant of the process table.
  pub Step-Inv :
      {k k' : Kernel} → Step files k k' → k.nextpid + 1 < 2 ^ 31 → KernelInv k → KernelInv k'
  unfolding fork clone clone_into
  Step-Inv {k} (schedules idle) small v = schedule-Inv k idle v
  Step-Inv {k} ticks small v = tick-Inv k v
  Step-Inv {k} (wakes c) small v = wakeup-Inv c k v
  Step-Inv {k} (yields {cur} on) small v = yield-Inv k cur on.current v
  Step-Inv {k} (sleeps {cur} on c) small v = sleep-Inv k cur c on.current v
  Step-Inv {k} (resumes {cur} on) small v = cleanup-Inv cur k v
  Step-Inv {k} (kills pid) small v = kill-Inv pid k v
  Step-Inv {k} (naps {cur} {me} on n) small v = nap-Inv n cur me k on.current v
  Step-Inv {k} (remains {cur} {me} on n) small v = remain-Inv n cur me k on.current v
  Step-Inv {k} (gives {cur} on) small v = give-Inv cur k on.current v
  Step-Inv {k} (forks {cur} {me} {k'} on kstack pgdir s s' r h) small v =
      fork_into-Inv files (allocproc kstack k).0 k.nextpid pgdir cur me (allocproc kstack k).1 s r
        k' s' (allocproc_cpu kstack k ∙ on.current) (allocproc-Inv kstack k v small) h
  Step-Inv {k} (clones {cur} {me} {k'} on kstack fn stack arg s s' r w h) small v =
      clone_into-Inv files (allocproc kstack k).0 k.nextpid fn stack arg cur me
        (allocproc kstack k).1 s r k' s' w (allocproc-Inv kstack k v small) h
  Step-Inv {k} (exits {cur} {me} {k'} on s s' h) small v =
      exit-Inv files cur me k s k' s' on.current v h
  Step-Inv {k} (waits {cur} {me} {k'} on w h) small v = wait-Inv cur me k w k' on.current v h

  -- In every state that the kernel reaches on one CPU while `nextpid` does not overflow (no step starts from a
  -- `nextpid` of 2^31 - 1 or more), a process is RUNNING exactly where it is
  -- the one on the CPU, only the target of the skip is marked to be skipped, a running process is
  -- the only one that can be that target, and processes in use have distinct PIDs below `nextpid`.
  pub Reach-Inv : {k : Kernel} → Reach files k → KernelInv k
  unfolding userinit
  Reach-Inv {k} (start kstack pgdir root h) =
      first-Inv (allocproc kstack boot).0 pgdir root (allocproc kstack boot).1 k
        (allocproc-Inv kstack boot boot-Inv (omega arith)) h
  Reach-Inv (then_step r small st) = Step-Inv st small (Reach-Inv r)
