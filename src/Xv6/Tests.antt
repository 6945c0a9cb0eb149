-- ===== src/Xv6/Tests.antt =====
-- Concrete runs of the kernel's process code.
use systems_programming_port.Prelude.{length, [], replicate}
use systems_programming_port.Xv6.Pipe.{Pipe, pipesize, write_bytes, read_bytes}
use systems_programming_port.Xv6.Pipe.Bounds.{IsPipe}
use systems_programming_port.Xv6.Pipe.Fifo.{IsRing, queue, pipe_queue}
use systems_programming_port.Prelude.{List, ◌++◌, ◌≤◌}
use systems_programming_port.Prelude.Int.{negsuc}
use systems_programming_port.Xv6.Scheduler.{kill}
use systems_programming_port.Xv6.Scheduler.Kill.{FirstPid, NoPid, IsKilled, kill_lem}
use systems_programming_port.Xv6.Lifecycle.{allocproc, find_unused}
use systems_programming_port.Xv6.Lifecycle.Reuse.{allocproc-kill}
use systems_programming_port.Prelude.{◌⊎◌}
use systems_programming_port.Xv6.Proc.{zombie}
use systems_programming_port.Xv6.ForkExit.{exit}
use systems_programming_port.Xv6.ForkExit.Waiting.{NoChild}
use systems_programming_port.Xv6.ForkExit.Leaving.{exit_lem}
use systems_programming_port.Prelude.{
  ℕ, ◌≡◌, refl, ◌≢◌, ◌↔◌, false, true, none, some, arith, get_elem?, get_or,
}
use systems_programming_port.Prelude.Int.{ℤ, pos, ◌-ℤ◌}
use systems_programming_port.Xv6.Proc.{Proc, Kernel, is_runnable, ProcState, empty_proc}
use systems_programming_port.Xv6.Scheduler.{pick, schedule, yield_cpu}
use systems_programming_port.Xv6.Scheduler.Best.{IsBest, pick-IsBest, pick-none_iff}
use systems_programming_port.Xv6.Scheduler.Sleep.{ticks_after, asleep_for, woken_after}
use systems_programming_port.Xv6.Lifecycle.{Outcome, done, panic, fault, userinit}
use systems_programming_port.Xv6.ForkExit.{Files, fork}
use systems_programming_port.Xv6.Syscalls.{sys_give_cpu, sys_sleep}
use systems_programming_port.Xv6.System.{boot, schedules, forks, Reach, start, then_step}
use systems_programming_port.Xv6.System.Keeps.{KernelInv}
use systems_programming_port.Xv6.System.Steps.{Reach-Inv}
use systems_programming_port.Xv6.System.GiveCpu.{give_cpu-schedule}
use systems_programming_port.Xv6.System.Accounting.{burst_charge}

-- A file layer on which every call succeeds.
abbrev disk : Files
disk = record {
  State = Unit {0};
  filedup = λ f s. some s;
  fileclose = λ f s. some s;
  idup = λ i s. s;
  iput = λ i s. s;
}

abbrev kernel_of : Outcome Kernel → Kernel
kernel_of (done k) = k
kernel_of panic = boot
kernel_of fault = boot

abbrev proc_at : ℕ → Kernel → Proc
proc_at i k = get_or k.ptable i empty_proc

-- The init process is ready.
abbrev started : Kernel
started = kernel_of (userinit 4096 8192 7 boot)

started-Reach : Reach disk started
unfolding userinit
started-Reach = start 4096 8192 7 refl

Reach-Inv_example : KernelInv started
Reach-Inv_example = Reach-Inv disk started-Reach

pick-IsBest_example : IsBest started 0 (proc_at 0 started)
unfolding pick userinit
pick-IsBest_example = pick-IsBest started 0 (proc_at 0 started) refl

pick-none_iff_example :
    (pick started ≡ none)
    ↔ ((j : ℕ) (q : Proc) → get_elem? started.ptable j ≡ some q → is_runnable q.state ≡ false)
pick-none_iff_example = pick-none_iff started

burst_charge_example :
    get_elem? (yield_cpu 0 (ticks_after 3 (schedule started))).ptable 0
    ≡ some (record (proc_at 0 started) {
      state = ProcState.runnable;
      t_last_scheduled = pos 0;
      t_remain = (proc_at 0 started).t_remain -ℤ pos 3;
    })
unfolding pick userinit
burst_charge_example = burst_charge started 0 3 (proc_at 0 started) refl (omega arith)

-- Init runs, and sleeps for 5 ticks.
abbrev napping : Kernel
napping = (sys_sleep (some (pos 5)) 0 (proc_at 0 (schedule started)) (schedule started)).1

asleep_for_example :
    get_elem? (ticks_after 5 napping).ptable 0
    ≡ some (record (proc_at 0 napping) { sleepticks = pos 0 })
unfolding userinit schedule pick sys_sleep
asleep_for_example = asleep_for 5 napping 0 (proc_at 0 napping) refl refl refl

woken_after_example :
    get_elem? (ticks_after 6 napping).ptable 0
    ≡ some (record (proc_at 0 napping) { sleepticks = pos 0; state = ProcState.runnable })
unfolding userinit schedule pick sys_sleep
woken_after_example = woken_after 5 napping 0 (proc_at 0 napping) refl refl refl

-- Init runs and forks; its child, in slot 1, runs next.
abbrev forked_kernel : Outcome (ℤ × Kernel × Unit {0}) → Kernel
forked_kernel (done (r, k, s)) = k
forked_kernel panic = boot
forked_kernel fault = boot

abbrev parted : Kernel
parted = forked_kernel (fork disk 4097 8193 0 (proc_at 0 (schedule started)) (schedule started) tt)

parted-Reach : Reach disk (schedule parted)
unfolding fork schedule pick userinit
parted-Reach =
    then_step
      (then_step (then_step started-Reach (omega arith) (schedules refl)) (omega arith)
        (forks (record { current = refl; stored = refl }) 4097 8193 tt tt (pos 2) refl))
      (omega arith) (schedules refl)

give_cpu-schedule_example :
    (i : ℕ) × (i ≢ 1)
    × ((schedule (sys_give_cpu 1 (schedule parted)).1).cpu_proc ≡ some i)
    × ((schedule (sys_give_cpu 1 (schedule parted)).1).skip_target ≡ none)
    × ((a : ℕ) (p : Proc)
        → get_elem? (schedule (sys_give_cpu 1 (schedule parted)).1).ptable a ≡ some p
        → p.skip_once ≡ false)
unfolding fork schedule pick userinit
give_cpu-schedule_example =
    give_cpu-schedule (schedule parted) 1 0 (proc_at 1 (schedule parted))
      (proc_at 0 (schedule parted)) (Reach-Inv disk parted-Reach)
      (record { current = refl; stored = refl }) refl refl (λ e. cc)

-- The child exits.
abbrev pair_kernel : Outcome (Kernel × Unit {0}) → Kernel
pair_kernel (done (k, s)) = k
pair_kernel panic = boot
pair_kernel fault = boot

abbrev bereft : Kernel
bereft = pair_kernel (exit disk 1 (proc_at 1 (schedule parted)) (schedule parted) tt)

exit_lem_example :
    NoChild 1 bereft.ptable
    × (bereft.cpu_proc ≡ none)
    × ((q : Proc) × (get_elem? bereft.ptable 1 ≡ some q)
        × (q.state ≡ zombie)
        × (q.pid ≡ (proc_at 1 (schedule parted)).pid))
unfolding exit fork schedule pick userinit
exit_lem_example =
    exit_lem disk 1 (proc_at 1 (schedule parted)) (schedule parted) bereft tt tt refl refl

kill_lem_example :
    ((i : ℕ) × (p q : Proc) × FirstPid 1 started.ptable i p
      × ((kill 1 started).0 ≡ pos 0)
      × (get_elem? (kill 1 started).1.ptable i ≡ some q)
      × IsKilled p q
      × ((j : ℕ) → i ≢ j → get_elem? (kill 1 started).1.ptable j ≡ get_elem? started.ptable j))
    ⊎ (NoPid 1 started.ptable × (kill 1 started ≡ (negsuc 0, started)))
kill_lem_example = kill_lem 1 started

boot-FirstPid : FirstPid 0 boot.ptable 0 empty_proc
boot-FirstPid = record {
  found = refl;
  same = refl;
  before = λ j q h lt. absurd (omega (arith, lt));
}

allocproc-kill_example :
    ((allocproc 4096 (kill 0 boot).1).0 ≡ some 0)
    × ((q : Proc) × (get_elem? (allocproc 4096 (kill 0 boot).1).1.ptable 0 ≡ some q)
        × (q.killed ≡ true)
        × (q.pid ≡ 1))
unfolding find_unused
allocproc-kill_example = allocproc-kill 4096 0 boot empty_proc refl boot-FirstPid (λ e. cc)

-- A pipe that holds two bytes, across the wrap-around of its counters.
abbrev around : Pipe
around = record {
  bytes = replicate pipesize 7;
  nread = 0xffffffff;
  nwrite = 1;
  readopen = true;
  writeopen = true;
}

around-IsPipe : IsPipe around
around-IsPipe = record { read_fits = omega arith; write_fits = omega arith; bounded = omega arith }

around-IsRing : IsRing around
around-IsRing = record { counters = around-IsPipe; whole = refl }

pipe_queue_example :
    ((bs : List ℕ)
      → IsRing (write_bytes bs around).1
        × (queue (write_bytes bs around).1 ++ (write_bytes bs around).0 ≡ queue around ++ bs)
        × (((write_bytes bs around).0 ≡ [])
            ⊎ (length (queue (write_bytes bs around).1) ≡ pipesize)))
    × ((n : ℕ)
        → IsRing (read_bytes n around).1
          × ((read_bytes n around).0 ++ queue (read_bytes n around).1 ≡ queue around)
          × ((length (read_bytes n around).0 ≡ n) ⊎ (length (queue (read_bytes n around).1) ≡ 0)))
    × (length (queue around) ≤ pipesize)
pipe_queue_example = pipe_queue around around-IsRing
