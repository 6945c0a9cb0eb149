-- ===== src/Xv6/System/Accounting.antt =====
-- What a burst on the CPU costs a process, and the table that `schedule` leaves.
use systems_programming_port.Prelude.{
  ℕ, zero, suc, ◌+◌, ◌^◌, ◌<◌, ◌≡◌, refl, ap, ◌∙◌, get_elem?-modify_self, Option, none, some, arith,
  get_elem?,
}
use systems_programming_port.Prelude.Int.{pos, ◌-ℤ◌, int_of_uint}
use systems_programming_port.Xv6.Proc.{Proc, Kernel, runnable, running}
use systems_programming_port.Xv6.Scheduler.Sleep.{ticks_after, notify_at}
use systems_programming_port.Xv6.System.Keeps.{consume-ready}
use systems_programming_port.Xv6.Scheduler.{
  notify, timer_tick, pick, schedule, run_on_cpu, consume_skip, consume_for, yield_cpu, leave_cpu,
  stcf_account,
}
use systems_programming_port.Xv6.Scheduler.Best.{pick-IsBest}

consume_ticks :
    (best : ℕ) (target : Option ℕ) (k : Kernel) → (consume_for best target k).ticks ≡ k.ticks
unfolding consume_for
consume_ticks best none k = refl
consume_ticks best (some t) k = ground arith

dispatched : ℕ → Proc → Proc
dispatched t p = record p { state = running; t_last_scheduled = int_of_uint t }

notify-running : (q : Proc) → q.state ≡ running → notify q ≡ q
unfolding notify
notify-running q r = ground arith

tick_count : (k : Kernel) → k.ticks + 1 < 2 ^ 32 → (timer_tick k).ticks ≡ k.ticks + 1
unfolding timer_tick
tick_count k h = omega arith

-- The slot that the round chose is marked running from the current tick on.
schedule-runs :
    (k : Kernel) (i : ℕ) (p : Proc)
    → pick k ≡ some (i, p)
    → (get_elem? (schedule k).ptable i ≡ some (dispatched k.ticks p))
      × ((schedule k).ticks ≡ k.ticks)
unfolding schedule consume_skip run_on_cpu dispatched
schedule-runs k i p e =
    let s = pick-IsBest k i p e in
    rw (e, schedule)
      (
        rw (consume_ticks i k.skip_target k) (
            get_elem?-modify_self (consume_for i k.skip_target k).ptable i _ p
              (consume-ready i k.skip_target k p s.found s.ready)),
        consume_ticks i k.skip_target k,
      )

-- What `yield` stores for a process that was dispatched at tick `t`, `d` ticks later.
yielded :
    (p : Proc) (t d now : ℕ)
    → now ≡ t + d
    → t + d < 2 ^ 31
    → record (stcf_account now (dispatched t p)) { state = runnable }
      ≡ record p { state = runnable; t_last_scheduled = pos t; t_remain = p.t_remain -ℤ pos d }
unfolding stcf_account dispatched
yielded p t d now e h = ground arith

-- Timer ticks leave the running process alone, and count up.
ticks-running :
    (d i : ℕ) (q : Proc) (k : Kernel)
    → get_elem? k.ptable i ≡ some q
    → q.state ≡ running
    → k.ticks + d < 2 ^ 31
    → (get_elem? (ticks_after d k).ptable i ≡ some q) × ((ticks_after d k).ticks ≡ k.ticks + d)
ticks-running zero i q k g r h = (g, omega arith)
ticks-running (suc d) i q k g r h =
    let same : notify q ≡ q = notify-running q r in
    let (g', c) =
      ticks-running d i q (timer_tick k) (notify_at k i q g ∙ ap some same) r
        (omega (arith, tick_count k)) in
    (g', omega (arith, c, tick_count k))

-- One burst on the CPU: the process that the scheduler chose, after `d` timer interrupts and its
-- `yield`, is runnable again with exactly `d` ticks less left, while the tick counter stays below
-- 2^31.
pub burst_charge :
    (k : Kernel) (i d : ℕ) (p : Proc)
    → pick k ≡ some (i, p)
    → k.ticks + d < 2 ^ 31
    → get_elem? (yield_cpu i (ticks_after d (schedule k))).ptable i
      ≡ some (record p {
        state = runnable;
        t_last_scheduled = pos k.ticks;
        t_remain = p.t_remain -ℤ pos d;
      })
unfolding yield_cpu leave_cpu dispatched
burst_charge k i d p e h =
    let (g, t) = schedule-runs k i p e in
    let (g', t') =
      ticks-running d i (dispatched k.ticks p) (schedule k) g refl (omega (arith, t)) in
    get_elem?-modify_self (ticks_after d (schedule k)).ptable i _ (dispatched k.ticks p) g'
    ∙ ap some (yielded p k.ticks d (ticks_after d (schedule k)).ticks (omega (arith, t, t')) h)
