-- ===== src/Xv6/System/Families.antt =====
-- `fork`, `clone`, `exit` and `wait` keep the invariant.
use systems_programming_port.Prelude.{
  ℕ, zero, suc, ◌+◌, ◌≡◌, refl, ◌≢◌, inl, inr, subst, Bool, true, ◌&&◌, Option, none, some, List,
  [], ◌∷◌, map, arith, length, get_elem?, modify, ◌==◌, if◌then◌else◌, Bool-cases, Option-cases,
}
use systems_programming_port.Prelude.Int.{ℤ}
use systems_programming_port.Xv6.Proc.{
  Proc, Kernel, is_zombie, proc_addr, embryo, unused, zombie, Uvmdesc,
}
use systems_programming_port.Xv6.Scheduler.{stcf_account, leave_cpu, yield_cpu, sleep_on, wakeup1}
use systems_programming_port.Xv6.Lifecycle.{
  share_uvm, in_slot, Outcome, done, panic, fault, unshare_uvm,
}
use systems_programming_port.Xv6.ForkExit.{
  Files, forked, cloned, abandon_one, is_child, reap_done, wait_found, fork_done, fork_into,
  clone_done, clone_into, farewell, exit_done, exit, wait, abandon, Waited, reap, wait_scan, Scan,
  zombie_at, alive, childless, dup_all, close_all, chan_of, buried,
}
use systems_programming_port.Xv6.System.Inv.{
  Quietly, modify-Quietly, Quietly-refl, Quietly-trans, Inv-Quietly,
}
use systems_programming_port.Xv6.System.Keeps.{KernelInv}
use systems_programming_port.Xv6.System.Updates.{
  account-keeps, slot-Inv, off_cpu-Inv, yield-Inv, sleep-Inv, wakeup1-Quietly, Allocates,
}

abandon_one-Quietly :
    (cur init i : ℕ) (p : Proc) (t : List Proc) → Quietly t (abandon_one cur init i p t)
unfolding abandon_one
abandon_one-Quietly cur init i p t =
    let moved = modify t i (λ q. record q { parent = some init }) in
    let quiet : Quietly t moved = modify-Quietly t i _ (λ q g. ground arith) in
    elim (Bool-cases (is_child cur p)) [
      | inl child ↦ elim (Bool-cases (is_zombie p.state)) [
        | inl dead ↦
            rw (child, dead)
              (Quietly-trans t moved _ quiet (wakeup1-Quietly (proc_addr init) moved))
        | inr live ↦ rw (child, live) quiet
      ]
      | inr other ↦ rw other (Quietly-refl t)
    ]

abandon-Quietly : (cur init n i : ℕ) (t : List Proc) → Quietly t (abandon cur init n i t)
unfolding abandon
abandon-Quietly cur init zero i t = Quietly-refl t
abandon-Quietly cur init (suc n) i t = elim (Option-cases (get_elem? t i)) [
  | inl e ↦ rw (e, abandon) (Quietly-refl t)
  | inr (p, e) ↦
      rw (e, abandon)
        (Quietly-trans t (abandon_one cur init i p t) _ (abandon_one-Quietly cur init i p t)
          (abandon-Quietly cur init n (suc i) (abandon_one cur init i p t)))
]

reap_done-Inv :
    (i : ℕ) (p : Proc) (k : Kernel) (o : Outcome (Bool × List Uvmdesc)) (w : Waited) (k' : Kernel)
    → get_elem? k.ptable i ≡ some p
    → is_zombie p.state ≡ true
    → KernelInv k
    → reap_done i p k o ≡ done (w, k')
    → KernelInv k'
unfolding reap_done
reap_done-Inv i p k panic w k' g z v h = cc
reap_done-Inv i p k fault w k' g z v h = cc
reap_done-Inv i p k (done (gone, us)) w k' g z v h =
    let k'' = record k { uvmrefcount = us } in
    let same : in_slot i buried k'' ≡ k' = ground arith in
    subst KernelInv same (slot-Inv i buried k'' (λ q g'. ground arith) v)

reap-Inv :
    (i : ℕ) (o : Option Proc) (k : Kernel) (w : Waited) (k' : Kernel)
    → get_elem? k.ptable i ≡ o
    → ((p : Proc) → o ≡ some p → is_zombie p.state ≡ true)
    → KernelInv k
    → reap i o k ≡ done (w, k')
    → KernelInv k'
unfolding reap
reap-Inv i none k w k' g z v h = cc
reap-Inv i (some p) k w k' g z v h =
    reap_done-Inv i p k (unshare_uvm p.pgdir k.uvmrefcount) w k' g (z p refl) v h

-- A child that the scan reports is a zombie.
wait_scan-zombie :
    (cur i : ℕ) (seen : Scan) (ps : List Proc) (n : ℕ)
    → seen ≢ zombie_at n
    → wait_scan cur i seen ps ≡ zombie_at n
    → (j : ℕ) × (p : Proc) × (n ≡ i + j) × (get_elem? ps j ≡ some p) × (is_zombie p.state ≡ true)
unfolding wait_scan
wait_scan-zombie cur i seen [] n ne h = absurd (ne h)
wait_scan-zombie cur i seen (p ∷ ps) n ne h =
    elim (Bool-cases (is_child cur p && is_zombie p.state)) [
      | inl hit ↦ (0, p, ground arith, refl, ground arith)
      | inr miss ↦
          let (j, q, e, g, z) =
            wait_scan-zombie cur (suc i) (if is_child cur p then alive else seen) ps n
              (ground arith) (ground arith) in
          (suc j, q, ground arith, g, z)
    ]

wait_found-Inv :
    (cur : ℕ) (me : Proc) (k : Kernel) (sc : Scan) (w : Waited) (k' : Kernel)
    → k.cpu_proc ≡ some cur
    → KernelInv k
    → ((i : ℕ) (p : Proc)
        → sc ≡ zombie_at i
        → get_elem? k.ptable i ≡ some p
        → is_zombie p.state ≡ true)
    → wait_found cur me k sc ≡ done (w, k')
    → KernelInv k'
unfolding wait_found
wait_found-Inv cur me k (zombie_at i) w k' on v z h =
    reap-Inv i (get_elem? k.ptable i) k w k' refl (λ p e. z i p refl e) v h
wait_found-Inv cur me k childless w k' on v z h =
    let same : k ≡ k' = ground arith in subst KernelInv same v
wait_found-Inv cur me k alive w k' on v z h = elim (Bool-cases me.killed) [
  | inl dead ↦ let same : k ≡ k' = ground arith in subst KernelInv same v
  | inr live ↦
      let same : sleep_on cur (proc_addr cur) k ≡ k' = ground arith in
      subst KernelInv same (sleep-Inv k cur (proc_addr cur) on v)
]

pub wait-Inv :
    (cur : ℕ) (me : Proc) (k : Kernel) (w : Waited) (k' : Kernel)
    → k.cpu_proc ≡ some cur
    → KernelInv k
    → wait cur me k ≡ done (w, k')
    → KernelInv k'
unfolding wait
wait-Inv cur me k w k' on v h =
    wait_found-Inv cur me k (wait_scan cur 0 childless k.ptable) w k' on v zombies h
  where
    zombies :
        (i : ℕ) (p : Proc)
        → wait_scan cur 0 childless k.ptable ≡ zombie_at i
        → get_elem? k.ptable i ≡ some p
        → is_zombie p.state ≡ true
    zombies i p e g =
        let (j, q, a, g', z) = wait_scan-zombie cur 0 childless k.ptable i (λ c. cc) e in
        ground arith

farewell-Quietly : (cur init : ℕ) (me : Proc) (t : List Proc) → Quietly t (farewell cur init me t)
unfolding farewell
farewell-Quietly cur init me t =
    let closed : Proc → Proc = λ p. record p { ofile = map (λ f. 0) p.ofile; cwd = 0 } in
    let shut = modify t cur closed in
    let woken = wakeup1 (chan_of me.parent) shut in
    Quietly-trans t woken (abandon cur init (length woken) 0 woken)
      (Quietly-trans t shut woken (modify-Quietly t cur closed (λ p g. ground arith))
        (wakeup1-Quietly (chan_of me.parent) shut))
      (abandon-Quietly cur init (length woken) 0 woken)

module _ (files : Files) where
  fork_done-Inv :
      (i pid pgdir cur : ℕ) (me : Proc) (k : Kernel) (o : Option files.State) (r : ℤ) (k' : Kernel)
      (s' : files.State)
      → k.cpu_proc ≡ some cur
      → KernelInv k
      → ((p : Proc) → get_elem? k.ptable i ≡ some p → p.state ≡ embryo)
      → fork_done files i pid pgdir cur me k o ≡ done (r, k', s')
      → KernelInv k'
  unfolding fork_done
  fork_done-Inv i pid pgdir cur me k none r k' s' on v young h = cc
  fork_done-Inv i pid pgdir cur me k (some s) r k' s' on v young h =
      let same : yield_cpu cur (in_slot i (forked pgdir cur me) k) ≡ k' = ground arith in
      subst KernelInv same (
        yield-Inv (in_slot i (forked pgdir cur me) k) cur on
          (slot-Inv i _ k (λ p g. ground (arith, young p g)) v))

  pub fork_into-Inv :
      (slot : Option ℕ) (pid pgdir cur : ℕ) (me : Proc) (k : Kernel) (s : files.State) (r : ℤ)
      (k' : Kernel) (s' : files.State)
      → k.cpu_proc ≡ some cur
      → Allocates (slot, k)
      → fork_into files slot pid pgdir cur me k s ≡ done (r, k', s')
      → KernelInv k'
  unfolding fork_into
  fork_into-Inv none pid pgdir cur me k s r k' s' on a h =
      let same : k ≡ k' = ground arith in subst KernelInv same a.0
  fork_into-Inv (some i) pid pgdir cur me k s r k' s' on a h = elim (Bool-cases (pgdir == 0)) [
    | inl bad ↦
        let same : in_slot i (λ p. record p { kstack = 0; state = unused }) k ≡ k' = ground arith in
        subst KernelInv same (slot-Inv i _ k (λ p g. ground (arith, a.1 i p refl g)) a.0)
    | inr good ↦
        fork_done-Inv i pid pgdir cur me k (dup_all files me.ofile s) r k' s' on a.0
          (λ p g. a.1 i p refl g) (rw good at h)
  ]

  clone_done-Inv :
      (i pid fn stack arg cur : ℕ) (me : Proc) (k : Kernel) (o : Option files.State) (r : ℤ)
      (k' : Kernel) (s' : files.State) (w : List (ℕ × ℕ))
      → KernelInv k
      → ((p : Proc) → get_elem? k.ptable i ≡ some p → p.state ≡ embryo)
      → clone_done files i pid fn stack arg cur me k o ≡ done (r, k', s', w)
      → KernelInv k'
  unfolding clone_done
  clone_done-Inv i pid fn stack arg cur me k none r k' s' w v young h = cc
  clone_done-Inv i pid fn stack arg cur me k (some s) r k' s' w v young h =
      let k1 : Kernel = record k { uvmrefcount = share_uvm me.pgdir k.uvmrefcount } in
      let bump : Proc → Proc = λ p. record p { nclone = p.nclone + 1 } in
      let same : in_slot cur bump (in_slot i (cloned fn stack cur me) k1) ≡ k' = ground arith in
      subst KernelInv same (
        slot-Inv cur bump (in_slot i (cloned fn stack cur me) k1) (λ p g. ground arith)
          (slot-Inv i (cloned fn stack cur me) k1 (λ p g. ground (arith, young p g)) v))

  pub clone_into-Inv :
      (slot : Option ℕ) (pid fn stack arg cur : ℕ) (me : Proc) (k : Kernel) (s : files.State)
      (r : ℤ) (k' : Kernel) (s' : files.State) (w : List (ℕ × ℕ))
      → Allocates (slot, k)
      → clone_into files slot pid fn stack arg cur me k s ≡ done (r, k', s', w)
      → KernelInv k'
  unfolding clone_into
  clone_into-Inv none pid fn stack arg cur me k s r k' s' w a h =
      let same : k ≡ k' = ground arith in subst KernelInv same a.0
  clone_into-Inv (some i) pid fn stack arg cur me k s r k' s' w a h =
      clone_done-Inv i pid fn stack arg cur me k (dup_all files me.ofile s) r k' s' w a.0
        (λ p g. a.1 i p refl g) h

  exit_done-Inv :
      (cur : ℕ) (me : Proc) (k : Kernel) (o : Option files.State) (k' : Kernel) (s' : files.State)
      → k.cpu_proc ≡ some cur
      → KernelInv k
      → exit_done files cur me k o ≡ done (k', s')
      → KernelInv k'
  unfolding exit_done
  exit_done-Inv cur me k none k' s' on v h = cc
  exit_done-Inv cur me k (some s) k' s' on v h =
      let k1 : Kernel = record k { ptable = farewell cur k.initproc me k.ptable } in
      let gone : Proc → Proc = λ p. record (stcf_account k.ticks p) { state = zombie } in
      let same : leave_cpu cur gone k1 ≡ k' = ground arith in
      subst KernelInv same (
        off_cpu-Inv k1 cur gone on (λ p. ground (arith, account-keeps k.ticks p))
          (Inv-Quietly k.ptable _ _ _ _ v (farewell-Quietly cur k.initproc me k.ptable)))

  pub exit-Inv :
      (cur : ℕ) (me : Proc) (k : Kernel) (s : files.State) (k' : Kernel) (s' : files.State)
      → k.cpu_proc ≡ some cur
      → KernelInv k
      → exit files cur me k s ≡ done (k', s')
      → KernelInv k'
  unfolding exit
  exit-Inv cur me k s k' s' on v h = elim (Bool-cases (cur == k.initproc)) [
    | inl init ↦ cc (rw init at h)
    | inr other ↦ exit_done-Inv cur me k (close_all files me.ofile s) k' s' on v (rw other at h)
  ]
