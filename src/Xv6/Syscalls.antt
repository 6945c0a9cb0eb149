-- ===== src/Xv6/Syscalls.antt =====
-- 03-xv6-stcf-scheduler/sysproc.c: the system calls on processes, and the decision of trap.c
-- when a process leaves the CPU. What `argint` fetched is an argument, `none` for its failure.
use systems_programming_port.Prelude.{
  ℕ, ◌+◌, ◌-◌, ◌%◌, ◌^◌, Bool, true, false, Option, none, some, ltb, if◌then◌else◌,
}
use systems_programming_port.Prelude.Int.{ℤ, pos, negsuc, ltb_ℤ, leb_ℤ, eq_ℤ, uint_of_int}
use systems_programming_port.Xv6.Proc.{Proc, Kernel, ticks_addr}
use systems_programming_port.Xv6.Scheduler.{yield_cpu, sleep_on, kill}
use systems_programming_port.Xv6.Lifecycle.{in_slot, growproc}

-- A call that returns at once, or that has left the CPU and returns that value when it runs again.
pub data Return : Type 0 where
  now : ℤ → Return
  later : ℤ → Return
  asleep : Return

unfoldable pub sys_kill : Option ℤ → Kernel → ℤ × Kernel
unfolding kill
sys_kill none k = (negsuc 0, k)
sys_kill (some (negsuc n)) k = (negsuc 0, k)
sys_kill (some (pos pid)) k = kill pid k

unfoldable pub sys_getpid : Proc → ℕ
sys_getpid me = me.pid

module _ (allocuvm deallocuvm : ℕ → ℕ → ℕ → ℕ) where
  -- The old size, or -1.
  unfoldable pub sys_sbrk : Option ℤ → ℕ → Proc → Kernel → ℤ × Kernel
  unfolding growproc
  sys_sbrk none cur me k = (negsuc 0, k)
  sys_sbrk (some n) cur me k =
      let (r, k') = growproc allocuvm deallocuvm n cur me k in
      if ltb_ℤ r (pos 0) then (negsuc 0, k') else (pos me.sz, k')

-- The test of the loop in `sys_sleep`, made on entry and each time the process runs again.
unfoldable pub sleep_loop : ℤ → ℕ → ℕ → Proc → Kernel → Return × Kernel
unfolding sleep_on
sleep_loop n ticks0 cur me k =
    if ltb ((k.ticks + 2 ^ 32 - ticks0) % 2 ^ 32) (uint_of_int n)
    then (if me.killed then (now (negsuc 0), k) else (asleep, sleep_on cur ticks_addr k))
    else (now (pos 0), in_slot cur (λ p. record p { sleepticks = negsuc 0 }) k)

unfoldable pub sys_sleep : Option ℤ → ℕ → Proc → Kernel → Return × Kernel
unfolding sleep_loop yield_cpu
sys_sleep none cur me k = (now (negsuc 0), k)
sys_sleep (some n) cur me k =
    if eq_ℤ n (pos 0)
    then (later (pos 0), yield_cpu cur k)
    else sleep_loop n k.ticks cur me (in_slot cur (λ p. record p { sleepticks = n }) k)

unfoldable pub sys_uptime : Kernel → ℕ
sys_uptime k = k.ticks

-- `t_remain` set anew, with a yield where it grows; shared by `sys_remain` and `sys_exec2`.
unfoldable pub set_remain : ℤ → ℕ → Proc → Kernel → Bool × Kernel
unfolding yield_cpu
set_remain new_time cur me k =
    let k' = in_slot cur (λ p. record p { t_remain = new_time }) k in
    if ltb_ℤ me.t_remain new_time then (true, yield_cpu cur k') else (false, k')

unfoldable pub sys_remain : Option ℤ → ℕ → Proc → Kernel → Return × Kernel
unfolding set_remain
sys_remain none cur me k = (now (negsuc 0), k)
sys_remain (some new_time) cur me k =
    if leb_ℤ new_time (pos 0)
    then (now (negsuc 0), k)
    else (let (yielded, k') = set_remain new_time cur me k in
        (if yielded then later (pos 0) else now (pos 0), k'))

unfoldable pub sys_give_cpu : ℕ → Kernel → Return × Kernel
unfolding yield_cpu
sys_give_cpu cur k = (
  later (pos 0),
  yield_cpu cur
      (record (in_slot cur (λ p. record p { skip_once = true }) k) { skip_target = some cur }),
)
