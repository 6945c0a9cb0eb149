-- ===== src/Xv6/System.antt =====
-- The process table as a transition system on one CPU: what the kernel code of proc.c and
-- sysproc.c does to it, one critical section of `ptable.lock` at a time.
pub mod Inv
pub mod Keeps
pub mod Updates
pub mod Requests
pub mod Families
pub mod Steps
pub mod GiveCpu
pub mod Accounting
use systems_programming_port.Prelude.{
  ℕ, zero, suc, ◌+◌, ◌-◌, ◌*◌, ◌/◌, ◌%◌, ◌^◌, ◌≤◌, ◌<◌, ◌≡◌, refl, sym, ap, ◌∙◌, ◌≢◌, ◌↔◌, ◌⊎◌, inl,
  inr, Bool, true, false, not, ◌&&◌, ◌||◌, Option, none, some, List, [], ◌∷◌, ◌++◌, map, arith,
  length, get_elem?, set, get_or, take, drop, replicate, modify, ltb, leb, ◌==◌, if◌then◌else◌,
  Bool-cases, Option-cases, Bytes, codes, str_eq, ==_refl, ne→==, ==→eq, ==→ne, tests,
}
use systems_programming_port.Prelude.Int.{ℤ, pos, negsuc}
use systems_programming_port.Xv6.Proc.{
  Proc, Kernel, ProcState, Chan, proc_addr, nproc, empty_proc, runnable,
}
use systems_programming_port.Xv6.Scheduler.{
  schedule, yield_cpu, sleep_on, wake_cleanup, wakeup, timer_tick,
}
use systems_programming_port.Xv6.Lifecycle.{Outcome, done, userinit}
use systems_programming_port.Xv6.ForkExit.{Files, fork, clone, exit, wait, Waited}
use systems_programming_port.Xv6.Syscalls.{Return, sys_kill, sys_sleep, sys_remain, sys_give_cpu}

-- `me` is the process on the CPU, in slot `cur`.
pub record OnCpu (k : Kernel) (cur : ℕ) (me : Proc) : Type 0 where
  pub current : k.cpu_proc ≡ some cur
  pub stored : get_elem? k.ptable cur ≡ some me

-- The table before `userinit`.
abbrev pub boot : Kernel
boot = record {
  ptable = replicate nproc empty_proc;
  nextpid = 1;
  initproc = 0;
  skip_target = none;
  ticks = 0;
  cpu_proc = none;
  uvmrefcount = replicate nproc (record { refcount = none; pgdir = 0 });
}

module _ (files : Files) where
  pub data Step (k : Kernel) : Kernel → Type 0 where
    schedules : k.cpu_proc ≡ none → Step k (schedule k)
    ticks : Step k (timer_tick k)
    wakes : (c : Chan) → Step k (wakeup c k)
    yields : {cur : ℕ} {me : Proc} → OnCpu k cur me → Step k (yield_cpu cur k)
    sleeps : {cur : ℕ} {me : Proc} → OnCpu k cur me → (c : Chan) → Step k (sleep_on cur c k)
    resumes : {cur : ℕ} {me : Proc} → OnCpu k cur me → Step k (wake_cleanup cur k)
    kills : (pid : Option ℤ) → Step k (sys_kill pid k).1
    naps : {cur : ℕ} {me : Proc} → OnCpu k cur me → (n : Option ℤ) → Step k (sys_sleep n cur me k).1
    remains :
        {cur : ℕ} {me : Proc} → OnCpu k cur me → (n : Option ℤ) → Step k (sys_remain n cur me k).1
    gives : {cur : ℕ} {me : Proc} → OnCpu k cur me → Step k (sys_give_cpu cur k).1
    forks :
        {cur : ℕ} {me : Proc} {k' : Kernel}
        → OnCpu k cur me
        → (kstack pgdir : ℕ) → (s s' : files.State) (r : ℤ)
        → fork files kstack pgdir cur me k s ≡ done (r, k', s')
        → Step k k'
    clones :
        {cur : ℕ} {me : Proc} {k' : Kernel}
        → OnCpu k cur me
        → (kstack fn stack arg : ℕ) → (s s' : files.State) (r : ℤ) (w : List (ℕ × ℕ))
        → clone files kstack fn stack arg cur me k s ≡ done (r, k', s', w)
        → Step k k'
    exits :
        {cur : ℕ} {me : Proc} {k' : Kernel}
        → OnCpu k cur me
        → (s s' : files.State) → exit files cur me k s ≡ done (k', s')
        → Step k k'
    waits :
        {cur : ℕ} {me : Proc} {k' : Kernel}
        → OnCpu k cur me
        → (w : Waited) → wait cur me k ≡ done (w, k')
        → Step k k'

  -- From the state that `userinit` leaves, as long as the `int` `nextpid` has a successor.
  pub data Reach : Kernel → Type 0 where
    start :
        {k : Kernel} (kstack pgdir root : ℕ) → userinit kstack pgdir root boot ≡ done k → Reach k
    then_step : {k k' : Kernel} → Reach k → k.nextpid + 1 < 2 ^ 31 → Step k k' → Reach k'
