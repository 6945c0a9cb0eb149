-- ===== src/Xv6/System/GiveCpu.antt =====
-- `give_cpu` and the next round of the scheduler.
use systems_programming_port.Prelude.{
  ℕ, ◌≡◌, refl, sym, ◌∙◌, ◌≢◌, inl, inr, get_elem?-modify_ne, true, none, some, arith, get_elem?,
  modify, Option-cases, Bool-cases, false,
}
use mathlib.Core.Bool.{true≢false}
use systems_programming_port.Xv6.Proc.{Proc, Kernel, is_runnable}
use systems_programming_port.Xv6.Scheduler.{pick, schedule, run_on_cpu, consume_skip, consume_for}
use systems_programming_port.Xv6.Scheduler.Best.{pick-IsBest, pick-none_iff}
use systems_programming_port.Xv6.Syscalls.{sys_give_cpu}
use systems_programming_port.Xv6.System.Keeps.{KernelInv, schedule-Inv}
use systems_programming_port.Xv6.System.Requests.{give-Inv}
use systems_programming_port.Xv6.System.{OnCpu}

-- The other slots, and the mark, after `give_cpu`.
give_others :
    (k : Kernel) (cur j : ℕ) (q : Proc)
    → cur ≢ j
    → get_elem? k.ptable j ≡ some q
    → get_elem? (sys_give_cpu cur k).1.ptable j ≡ some q
unfolding sys_give_cpu
give_others k cur j q ne g =
    get_elem?-modify_ne (modify k.ptable cur (λ p. record p { skip_once = true })) cur j _ ne
    ∙ get_elem?-modify_ne k.ptable cur j _ ne
    ∙ g

give_target : (k : Kernel) (cur : ℕ) → (sys_give_cpu cur k).1.skip_target ≡ some cur
unfolding sys_give_cpu
give_target k cur = refl

-- While another process is runnable, the pick after `give_cpu` is not its caller.
give_pick :
    (k : Kernel) (cur j : ℕ) (me q : Proc)
    → KernelInv k
    → OnCpu k cur me
    → get_elem? k.ptable j ≡ some q
    → is_runnable q.state ≡ true
    → cur ≢ j
    → (i : ℕ) × (p : Proc) × (pick (sys_give_cpu cur k).1 ≡ some (i, p)) × (i ≢ cur)
give_pick k cur j me q v on g ready ne =
    let k1 = (sys_give_cpu cur k).1 in
    let v1 = give-Inv cur k on.current v in
    let g1 = give_others k cur j q ne g in
    elim (Option-cases (pick k1)) [
      | inl e ↦ absurd (true≢false (sym ready ∙ (pick-none_iff k1).0 e j q g1))
      | inr ((i, p), e) ↦ (
        i,
        p,
        e,
        elim (pick-IsBest k1 i p e).first [
          | inl (free, best) ↦ λ same. absurd (ground (arith, give_target k cur, free))
          | inr (skipped, best) ↦
              absurd (ground (arith, give_target k cur, skipped j q g1 ready, v1.marked j q g1))
        ],
      )
    ]

consume-other :
    (i t : ℕ) (k : Kernel) → i ≢ t → k.skip_target ≡ some t → (consume_skip i k).skip_target ≡ none
unfolding consume_skip consume_for
consume-other i t k ne e = ground arith

give_idle : (k : Kernel) (cur : ℕ) → (sys_give_cpu cur k).1.cpu_proc ≡ none
unfolding sys_give_cpu
give_idle k cur = refl

unmarked :
    (k : Kernel)
    → k.cpu_proc ≡ none
    → KernelInv k
    → (schedule k).skip_target ≡ none
    → (a : ℕ) (p : Proc) → get_elem? (schedule k).ptable a ≡ some p
    → p.skip_once ≡ false
unmarked k idle v used_up a p h = elim (Bool-cases p.skip_once) [
  | inl t ↦ cc (sym used_up ∙ (schedule-Inv k idle v).marked a p h t)
  | inr f ↦ f
]

-- `give_cpu` gives up the CPU: in a kernel that satisfies the invariant, while another process is
-- runnable, the next round of the scheduler runs a process other than the caller, and the skip is
-- used up: there is no target, and no process is marked to be skipped any more.
pub give_cpu-schedule :
    (k : Kernel) (cur j : ℕ) (me q : Proc)
    → KernelInv k
    → OnCpu k cur me
    → get_elem? k.ptable j ≡ some q
    → is_runnable q.state ≡ true
    → cur ≢ j
    → (i : ℕ) × (i ≢ cur)
      × ((schedule (sys_give_cpu cur k).1).cpu_proc ≡ some i)
      × ((schedule (sys_give_cpu cur k).1).skip_target ≡ none)
      × ((a : ℕ) (p : Proc)
          → get_elem? (schedule (sys_give_cpu cur k).1).ptable a ≡ some p
          → p.skip_once ≡ false)
unfolding schedule run_on_cpu
give_cpu-schedule k cur j me q v on g ready ne =
    let (i, p, e, other) = give_pick k cur j me q v on g ready ne in
    let used_up : (schedule (sys_give_cpu cur k).1).skip_target ≡ none =
      rw (e, schedule) (consume-other i cur _ other (give_target k cur)) in
    (
      i,
      other,
      rw (e, schedule),
      used_up,
      unmarked (sys_give_cpu cur k).1 (give_idle k cur) (give-Inv cur k on.current v) used_up,
    )
