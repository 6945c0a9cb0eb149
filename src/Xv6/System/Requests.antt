-- ===== src/Xv6/System/Requests.antt =====
-- `sleep`, `remain`, `give_cpu` and the return from a sleep keep the invariant.
use systems_programming_port.Prelude.{
  ℕ, ◌+◌, ◌-◌, ◌%◌, ◌^◌, ◌≡◌, inl, inr, true, Option, none, some, arith, ltb, Bool-cases,
}
use systems_programming_port.Prelude.Int.{ℤ, pos, ltb_ℤ, leb_ℤ, eq_ℤ, uint_of_int}
use systems_programming_port.Xv6.Proc.{Proc, Kernel, Chan, ticks_addr}
use systems_programming_port.Xv6.Scheduler.{wake_cleanup}
use systems_programming_port.Xv6.Lifecycle.{in_slot}
use systems_programming_port.Xv6.Syscalls.{
  sys_sleep, sleep_loop, sys_remain, set_remain, sys_give_cpu,
}
use systems_programming_port.Xv6.System.Inv.{modify_inv}
use systems_programming_port.Xv6.System.Keeps.{KernelInv}
use systems_programming_port.Xv6.System.Updates.{slot-Inv, yield-Inv, sleep-Inv}

sleep_loop-Inv :
    (n : ℤ) (ticks0 cur : ℕ) (me : Proc) (k : Kernel)
    → k.cpu_proc ≡ some cur
    → KernelInv k
    → KernelInv (sleep_loop n ticks0 cur me k).1
unfolding sleep_loop
sleep_loop-Inv n ticks0 cur me k e v =
    elim (Bool-cases (ltb ((k.ticks + 2 ^ 32 - ticks0) % 2 ^ 32) (uint_of_int n))) [
      | inl early ↦ elim (Bool-cases me.killed) [
        | inl dead ↦ rw (early, dead) v
        | inr live ↦ rw (early, live) (sleep-Inv k cur ticks_addr e v)
      ]
      | inr late ↦ rw late (slot-Inv cur _ k (λ p g. ground arith) v)
    ]

pub nap-Inv :
    (n : Option ℤ) (cur : ℕ) (me : Proc) (k : Kernel)
    → k.cpu_proc ≡ some cur
    → KernelInv k
    → KernelInv (sys_sleep n cur me k).1
unfolding sys_sleep
nap-Inv none cur me k e v = v
nap-Inv (some n) cur me k e v = elim (Bool-cases (eq_ℤ n (pos 0))) [
  | inl nothing ↦ rw nothing (yield-Inv k cur e v)
  | inr some_time ↦
      rw some_time (sleep_loop-Inv n k.ticks cur me _ e (slot-Inv cur _ k (λ p g. ground arith) v))
]

set_remain-Inv :
    (n : ℤ) (cur : ℕ) (me : Proc) (k : Kernel)
    → k.cpu_proc ≡ some cur
    → KernelInv k
    → KernelInv (set_remain n cur me k).1
unfolding set_remain
set_remain-Inv n cur me k e v =
    let v' = slot-Inv cur (λ p. record p { t_remain = n }) k (λ p g. ground arith) v in
    elim (Bool-cases (ltb_ℤ me.t_remain n)) [
      | inl grows ↦ rw grows (yield-Inv (in_slot cur (λ p. record p { t_remain = n }) k) cur e v')
      | inr falls ↦ rw falls v'
    ]

pub remain-Inv :
    (n : Option ℤ) (cur : ℕ) (me : Proc) (k : Kernel)
    → k.cpu_proc ≡ some cur
    → KernelInv k
    → KernelInv (sys_remain n cur me k).1
unfolding sys_remain
remain-Inv none cur me k e v = v
remain-Inv (some n) cur me k e v = elim (Bool-cases (leb_ℤ n (pos 0))) [
  | inl bad ↦ rw bad v
  | inr good ↦ rw good (set_remain-Inv n cur me k e v)
]

-- Only the caller of `give_cpu` may be marked while it is on the CPU.
pub give-Inv :
    (cur : ℕ) (k : Kernel) → k.cpu_proc ≡ some cur → KernelInv k → KernelInv (sys_give_cpu cur k).1
unfolding sys_give_cpu
give-Inv cur k e v =
    yield-Inv
      (record (in_slot cur (λ p. record p { skip_once = true }) k) { skip_target = some cur }) cur e
      (record {
        on_cpu = λ j q h.
            let (p, g, s) = modify_inv k.ptable cur _ j q h in ground (arith, v.on_cpu j p g);
        marked = λ j q h m.
            let (p, g, s) = modify_inv k.ptable cur _ j q h in
            ground (arith, v.marked j p g, v.own cur j e);
        own = λ i j a b. ground arith;
        below = λ j q h u.
            let (p, g, s) = modify_inv k.ptable cur _ j q h in ground (arith, v.below j p g);
        distinct = λ i j p q hp hq up uq s.
            let (p', gp, sp) = modify_inv k.ptable cur _ i p hp in
            let (q', gq, sq) = modify_inv k.ptable cur _ j q hq in
            ground (arith, v.distinct i j p' q' gp gq);
      })

pub cleanup-Inv : (cur : ℕ) (k : Kernel) → KernelInv k → KernelInv (wake_cleanup cur k)
unfolding wake_cleanup
cleanup-Inv cur k v = slot-Inv cur (λ p. record p { chan = Chan.null }) k (λ p g. ground arith) v
