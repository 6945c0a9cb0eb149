-- ===== src/Xv6/Scheduler.antt =====
-- 03-xv6-stcf-scheduler/proc.c: `scheduler` with its two picks, and what moves a process between
-- its states: `yield`, `sleep`, `wakeup1`, `sleep_proc_notify`, `kill`. Each function here runs
-- under `ptable.lock`, up to the context switch where it has one.
pub mod Best
pub mod Sleep
pub mod Kill
use systems_programming_port.Prelude.{
  ℕ, suc, ◌+◌, ◌-◌, ◌%◌, ◌^◌, ◌==◌, ltb, if◌then◌else◌, Bool, true, false, not, ◌&&◌, ◌||◌, Option,
  none, some, List, [], ◌∷◌, map, modify,
}
use systems_programming_port.Prelude.Int.{
  ℤ, pos, negsuc, ◌-ℤ◌, leb_ℤ, ltb_ℤ, eq_ℤ, int_of_uint, uint_of_int,
}
use systems_programming_port.Xv6.Proc.{
  Proc, Kernel, Chan, null, ticks_addr, chan_eq, sleeping, runnable, running, is_runnable,
  is_sleeping,
}

-- The charge for the ticks since the process was last scheduled; the unsigned difference is read
-- as an `int`.
unfoldable pub stcf_account : ℕ → Proc → Proc
unfolding ◌-ℤ◌
stcf_account now p =
    if leb_ℤ (pos 0) p.t_last_scheduled
    then record p {
      t_remain =
          p.t_remain -ℤ int_of_uint ((now + 2 ^ 32 - uint_of_int p.t_last_scheduled) % 2 ^ 32);
    }
    else p

-- The comparison of both passes: less time left, or as much and the larger PID.
abbrev pub better : Proc → Proc → Bool
better p best =
    ltb_ℤ p.t_remain best.t_remain || (eq_ℤ p.t_remain best.t_remain && ltb best.pid p.pid)

abbrev pub better_than : Proc → Option (ℕ × Proc) → Bool
better_than p none = true
better_than p (some (i, q)) = better p q

-- One pass over the table from slot `i` on, over the slots that `allowed` lets through.
unfoldable pub scan : (ℕ → Proc → Bool) → ℕ → Option (ℕ × Proc) → List Proc → Option (ℕ × Proc)
scan allowed i best [] = best
scan allowed i best (p ∷ ps) =
    scan allowed (suc i)
      (if is_runnable p.state && allowed i p && better_than p best then some (i, p) else best) ps

abbrev pub is_target : Option ℕ → ℕ → Bool
is_target none i = false
is_target (some j) i = i == j

-- What pass 1 lets through: neither marked nor the caller of `give_cpu`.
abbrev pub unskipped : Option ℕ → ℕ → Proc → Bool
unskipped target i p = not (p.skip_once || is_target target i)

abbrev pub anyone : ℕ → Proc → Bool
anyone i p = true

-- Pass 1, and pass 2 where pass 1 finds none.
unfoldable pub pick : Kernel → Option (ℕ × Proc)
unfolding scan
pick k = elim (scan (unskipped k.skip_target) 0 none k.ptable) [
  | none ↦ scan anyone 0 none k.ptable
  | some best ↦ some best
]

-- The skip is consumed when another process than the marked one is chosen.
unfoldable pub consume_for : ℕ → Option ℕ → Kernel → Kernel
consume_for best none k = k
consume_for best (some t) k = if best == t then k else record k {
  ptable = modify k.ptable t (λ p. record p { skip_once = false });
  skip_target = none;
}

unfoldable pub consume_skip : ℕ → Kernel → Kernel
unfolding consume_for
consume_skip best k = consume_for best k.skip_target k

-- The switch to the chosen process.
unfoldable pub run_on_cpu : ℕ → Kernel → Kernel
run_on_cpu best k = record k {
  cpu_proc = some best;
  ptable =
      modify k.ptable best
        (λ p. record p { state = running; t_last_scheduled = int_of_uint k.ticks });
}

-- One round of the STCF loop up to `swtch`.
unfoldable pub schedule : Kernel → Kernel
unfolding pick consume_skip run_on_cpu
schedule k = elim (pick k) [ none ↦ k | some (best, p) ↦ run_on_cpu best (consume_skip best k) ]

-- Round robin: the first runnable process from slot `i` on.
unfoldable pub next_runnable : ℕ → List Proc → Option ℕ
next_runnable i [] = none
next_runnable i (p ∷ ps) = if is_runnable p.state then some i else next_runnable (suc i) ps

-- `p->state = s` for the running process and the return to the scheduler, which clears `c->proc`.
unfoldable pub leave_cpu : ℕ → (Proc → Proc) → Kernel → Kernel
leave_cpu cur f k = record k { ptable = modify k.ptable cur f; cpu_proc = none }

unfoldable pub yield_cpu : ℕ → Kernel → Kernel
unfolding leave_cpu stcf_account
yield_cpu cur k = leave_cpu cur (λ p. record (stcf_account k.ticks p) { state = runnable }) k

-- `sleep` up to `sched`.
unfoldable pub sleep_on : ℕ → Chan → Kernel → Kernel
unfolding leave_cpu stcf_account
sleep_on cur chan k =
    leave_cpu cur
      (λ p. record (stcf_account k.ticks (record p { chan = chan })) { state = sleeping }) k

-- `sleep` after `sched` returns.
unfoldable pub wake_cleanup : ℕ → Kernel → Kernel
wake_cleanup cur k = record k { ptable = modify k.ptable cur (λ p. record p { chan = null }) }

abbrev pub sleeps_on : Chan → Proc → Bool
sleeps_on chan p = is_sleeping p.state && chan_eq p.chan chan

unfoldable pub wakeup1 : Chan → List Proc → List Proc
wakeup1 chan = map (λ p. if sleeps_on chan p then record p { state = runnable } else p)

unfoldable pub wakeup : Chan → Kernel → Kernel
unfolding wakeup1
wakeup chan k = record k { ptable = wakeup1 chan k.ptable }

-- What a tick does to a process that sleeps on `&ticks`.
unfoldable pub notify : Proc → Proc
unfolding ◌-ℤ◌
notify p =
    if sleeps_on ticks_addr p
    then (if eq_ℤ p.sleepticks (pos 0)
        then record p { state = runnable }
        else record p { sleepticks = p.sleepticks -ℤ pos 1 })
    else p

unfoldable pub sleep_proc_notify : Kernel → Kernel
unfolding notify
sleep_proc_notify k = record k { ptable = map notify k.ptable }

-- The timer interrupt on CPU 0.
unfoldable pub timer_tick : Kernel → Kernel
unfolding sleep_proc_notify
timer_tick k = sleep_proc_notify (record k { ticks = (k.ticks + 1) % 2 ^ 32 })

abbrev pub mark_killed : Proc → Proc
mark_killed p = record p {
  killed = true;
  state = if is_sleeping p.state then runnable else p.state;
}

-- The table with the first process of that pid marked, or `none` where there is none.
unfoldable pub kill_in : ℕ → List Proc → Option (List Proc)
kill_in pid [] = none
kill_in pid (p ∷ ps) =
    let rest = kill_in pid ps in
    if p.pid == pid
    then some (mark_killed p ∷ ps)
    else elim rest [ none ↦ none | some qs ↦ some (p ∷ qs) ]

unfoldable pub kill : ℕ → Kernel → ℤ × Kernel
unfolding kill_in
kill pid k = elim (kill_in pid k.ptable) [
  | none ↦ (negsuc 0, k)
  | some t ↦ (pos 0, record k { ptable = t })
]
