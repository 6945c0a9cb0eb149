-- ===== src/Xv6/ForkExit.antt =====
-- 03-xv6-stcf-scheduler/proc.c: `fork`, `clone`, `exit` and `wait`.
-- `Files` stands for the file layer of the kernel (`filedup`, `fileclose`, `idup`, `iput`), which
-- these functions call; a failed check there (`panic`) is `none`.
pub mod Waiting
pub mod Leaving
use systems_programming_port.Prelude.{
  ℕ, zero, suc, ◌+◌, ◌-◌, ◌%◌, ◌^◌, Bool, false, ◌&&◌, Option, none, some, List, [], ◌∷◌, map,
  length, get_elem?, modify, ◌==◌, if◌then◌else◌,
}
use systems_programming_port.Prelude.Int.{ℤ, pos, negsuc}
use systems_programming_port.Xv6.Proc.{
  Proc, Kernel, Chan, null, proc_addr, unused, runnable, zombie, is_zombie, Uvmdesc,
}
use systems_programming_port.Xv6.Scheduler.{stcf_account, leave_cpu, yield_cpu, sleep_on, wakeup1}
use systems_programming_port.Xv6.Lifecycle.{
  Outcome, done, panic, fault, in_slot, allocproc, copy_name, clone_name, share_uvm, unshare_uvm,
}

pub record Files : Type 1 where
  pub State : Type 0
  pub filedup : ℕ → State → Option State
  pub fileclose : ℕ → State → Option State
  pub idup : ℕ → State → State
  pub iput : ℕ → State → State

abbrev pub chan_of : Option ℕ → Chan
chan_of none = null
chan_of (some i) = proc_addr i

-- The child's descriptors: the parent's where it has one open, else what the slot held.
unfoldable pub inherit : List ℕ → List ℕ → List ℕ
inherit [] cs = []
inherit (f ∷ fs) [] = []
inherit (f ∷ fs) (c ∷ cs) = (if f == 0 then c else f) ∷ inherit fs cs

abbrev pub is_child : ℕ → Proc → Bool
is_child cur p = elim p.parent [ none ↦ false | some c ↦ c == cur ]

-- One round of the loop of `exit` that hands the children of `cur` to the init process.
unfoldable pub abandon_one : ℕ → ℕ → ℕ → Proc → List Proc → List Proc
unfolding wakeup1
abandon_one cur init i p t =
    let moved = modify t i (λ q. record q { parent = some init }) in
    if is_child cur p
    then (if is_zombie p.state then wakeup1 (proc_addr init) moved else moved)
    else t

-- The loop from slot `i` on, for `n` more slots.
unfoldable pub abandon : ℕ → ℕ → ℕ → ℕ → List Proc → List Proc
unfolding abandon_one
abandon cur init zero i t = t
abandon cur init (suc n) i t = elim (get_elem? t i) [
  | none ↦ t
  | some p ↦ abandon cur init n (suc i) (abandon_one cur init i p t)
]

-- What the scan of `wait` finds: a zombie child, children that all live, or none.
pub data Scan : Type 0 where
  zombie_at : ℕ → Scan
  alive : Scan
  childless : Scan

unfoldable pub wait_scan : ℕ → ℕ → Scan → List Proc → Scan
wait_scan cur i seen [] = seen
wait_scan cur i seen (p ∷ ps) =
    let rest = wait_scan cur (suc i) (if is_child cur p then alive else seen) ps in
    if is_child cur p && is_zombie p.state then zombie_at i else rest

-- `wait` returns the child's PID or -1, or goes to sleep and scans again when it runs next.
pub data Waited : Type 0 where
  reaped : ℕ → Waited
  failed : Waited
  blocked : Waited

abbrev pub buried : Proc → Proc
buried p = record p {
  kstack = 0;
  pid = 0;
  parent = none;
  name = [];
  killed = false;
  state = unused;
}

unfoldable pub reap_done :
    ℕ → Proc → Kernel → Outcome (Bool × List Uvmdesc) → Outcome (Waited × Kernel)
reap_done i p k panic = panic
reap_done i p k fault = fault
reap_done i p k (done (gone, us)) =
    if gone && (p.pgdir == 0)
    then panic
    else done (reaped p.pid, in_slot i buried (record k { uvmrefcount = us }))

unfoldable pub reap : ℕ → Option Proc → Kernel → Outcome (Waited × Kernel)
unfolding reap_done unshare_uvm
reap i none k = fault
reap i (some p) k = reap_done i p k (unshare_uvm p.pgdir k.uvmrefcount)

unfoldable pub wait_found : ℕ → Proc → Kernel → Scan → Outcome (Waited × Kernel)
unfolding reap sleep_on
wait_found cur me k (zombie_at i) = reap i (get_elem? k.ptable i) k
wait_found cur me k childless = done (failed, k)
wait_found cur me k alive =
    if me.killed then done (failed, k) else done (blocked, sleep_on cur (proc_addr cur) k)

unfoldable pub wait : ℕ → Proc → Kernel → Outcome (Waited × Kernel)
unfolding wait_scan wait_found
wait cur me k = wait_found cur me k (wait_scan cur 0 childless k.ptable)

abbrev pub forked : ℕ → ℕ → Proc → Proc → Proc
forked pgdir cur parent np = record np {
  pgdir = pgdir;
  sz = parent.sz;
  parent = some cur;
  tf = record (parent.tf) { eax = 0 };
  ofile = inherit parent.ofile np.ofile;
  cwd = parent.cwd;
  name = copy_name parent.name;
  t_remain = parent.t_remain;
  t_last_scheduled = negsuc 0;
  skip_once = false;
  state = runnable;
}

abbrev pub cloned : ℕ → ℕ → ℕ → Proc → Proc → Proc
cloned fn stack cur parent np = record np {
  pgdir = parent.pgdir;
  chan = null;
  sz = parent.sz;
  parent = some cur;
  tf = record (parent.tf) { eax = 0; esp = (stack + 2 ^ 32 - 8) % 2 ^ 32; eip = fn };
  ofile = inherit parent.ofile np.ofile;
  cwd = parent.cwd;
  name = clone_name parent.name (parent.nclone + 1);
  nclone = np.nclone + 1;
  state = runnable;
}

-- The table once the exiting process has closed its files and told its parent and children.
unfoldable pub farewell : ℕ → ℕ → Proc → List Proc → List Proc
unfolding wakeup1 abandon
farewell cur init me t =
    let closed : Proc → Proc = λ p. record p { ofile = map (λ f. 0) p.ofile; cwd = 0 } in
    let woken = wakeup1 (chan_of me.parent) (modify t cur closed) in
    abandon cur init (length woken) 0 woken

module _ (files : Files) where
  open files use {State, filedup, fileclose, idup, iput}

  unfoldable pub dup_all : List ℕ → State → Option State
  dup_all [] s = some s
  dup_all (f ∷ fs) s =
      let rest = λ (s' : State). dup_all fs s' in
      if f == 0 then rest s else elim (filedup f s) [ none ↦ none | some s' ↦ rest s' ]

  unfoldable pub close_all : List ℕ → State → Option State
  close_all [] s = some s
  close_all (f ∷ fs) s =
      let rest = λ (s' : State). close_all fs s' in
      if f == 0 then rest s else elim (fileclose f s) [ none ↦ none | some s' ↦ rest s' ]

  unfoldable pub fork_done :
      ℕ → ℕ → ℕ → ℕ → Proc → Kernel → Option State → Outcome (ℤ × Kernel × State)
  unfolding yield_cpu inherit
  fork_done i pid pgdir cur me k none = panic
  fork_done i pid pgdir cur me k (some s) =
      done (pos pid, yield_cpu cur (in_slot i (forked pgdir cur me) k), idup me.cwd s)

  unfoldable pub fork_into :
      Option ℕ → ℕ → ℕ → ℕ → Proc → Kernel → State → Outcome (ℤ × Kernel × State)
  unfolding dup_all fork_done
  fork_into none pid pgdir cur me k s = done (negsuc 0, k, s)
  fork_into (some i) pid pgdir cur me k s =
      if pgdir == 0
      then done (negsuc 0, in_slot i (λ p. record p { kstack = 0; state = unused }) k, s)
      else fork_done i pid pgdir cur me k (dup_all me.ofile s)

  -- `fork` by the process `me` in slot `cur`, up to the context switch of its `yield`.
  unfoldable pub fork : ℕ → ℕ → ℕ → Proc → Kernel → State → Outcome (ℤ × Kernel × State)
  unfolding allocproc fork_into
  fork kstack pgdir cur me k s =
      fork_into (allocproc kstack k).0 k.nextpid pgdir cur me (allocproc kstack k).1 s

  abbrev pub Cloned : Type 0
  Cloned = Outcome (ℤ × Kernel × State × List (ℕ × ℕ))

  unfoldable pub clone_done : ℕ → ℕ → ℕ → ℕ → ℕ → ℕ → Proc → Kernel → Option State → Cloned
  unfolding clone_name share_uvm inherit
  clone_done i pid fn stack arg cur me k none = panic
  clone_done i pid fn stack arg cur me k (some s) = done (
    pos pid,
    in_slot cur (λ p. record p { nclone = p.nclone + 1 })
        (in_slot i (cloned fn stack cur me)
          (record k { uvmrefcount = share_uvm me.pgdir k.uvmrefcount })),
    idup me.cwd s,
    ((stack + 2 ^ 32 - 4) % 2 ^ 32, arg) ∷ ((stack + 2 ^ 32 - 8) % 2 ^ 32, 0xffffffff) ∷ [],
  )

  unfoldable pub clone_into : Option ℕ → ℕ → ℕ → ℕ → ℕ → ℕ → Proc → Kernel → State → Cloned
  unfolding dup_all clone_done
  clone_into none pid fn stack arg cur me k s = done (negsuc 0, k, s, [])
  clone_into (some i) pid fn stack arg cur me k s =
      clone_done i pid fn stack arg cur me k (dup_all me.ofile s)

  -- `clone`; the two words that it writes to the new thread's stack come last in the result.
  unfoldable pub clone : ℕ → ℕ → ℕ → ℕ → ℕ → Proc → Kernel → State → Cloned
  unfolding allocproc clone_into
  clone kstack fn stack arg cur me k s =
      clone_into (allocproc kstack k).0 k.nextpid fn stack arg cur me (allocproc kstack k).1 s

  unfoldable pub exit_done : ℕ → Proc → Kernel → Option State → Outcome (Kernel × State)
  unfolding farewell leave_cpu stcf_account
  exit_done cur me k none = panic
  exit_done cur me k (some s) = done (
    leave_cpu cur (λ p. record (stcf_account k.ticks p) { state = zombie })
        (record k { ptable = farewell cur k.initproc me k.ptable }),
    iput me.cwd s,
  )

  -- `exit`, which leaves the CPU for good.
  unfoldable pub exit : ℕ → Proc → Kernel → State → Outcome (Kernel × State)
  unfolding close_all exit_done
  exit cur me k s = if cur == k.initproc then panic else exit_done cur me k (close_all me.ofile s)
