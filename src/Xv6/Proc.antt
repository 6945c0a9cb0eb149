-- ===== src/Xv6/Proc.antt =====
-- 03-xv6-stcf-scheduler/proc.h: the process table entry, and the kernel's scheduling state.
-- A `struct proc *` is the index of its slot in `ptable.proc`; a user or kernel address is a
-- number, 0 for the null pointer. There is one CPU.
use systems_programming_port.Prelude.{
  ℕ, ◌==◌, Bool, true, false, Option, none, List, Bytes, replicate,
}
use systems_programming_port.Prelude.Int.{ℤ, pos}

abbrev pub nproc : ℕ
nproc = 64

abbrev pub nofile : ℕ
nofile = 16

abbrev pub max_proc_name_len : ℕ
max_proc_name_len = 16

abbrev pub stcf_init_remain : ℤ
stcf_init_remain = pos 0x7fffffff

pub data ProcState : Type 0 where
  unused embryo sleeping runnable running zombie : ProcState

abbrev pub is_unused : ProcState → Bool
is_unused unused = true
is_unused _ = false

abbrev pub is_runnable : ProcState → Bool
is_runnable runnable = true
is_runnable _ = false

abbrev pub is_running : ProcState → Bool
is_running running = true
is_running _ = false

abbrev pub is_sleeping : ProcState → Bool
is_sleeping sleeping = true
is_sleeping _ = false

abbrev pub is_zombie : ProcState → Bool
is_zombie zombie = true
is_zombie _ = false

-- The `void *chan` that a process sleeps on: null, `&ticks`, a slot of the table, or another
-- address.
pub data Chan : Type 0 where
  null : Chan
  ticks_addr : Chan
  proc_addr : ℕ → Chan
  other_addr : ℕ → Chan

abbrev pub chan_eq : Chan → Chan → Bool
chan_eq null null = true
chan_eq ticks_addr ticks_addr = true
chan_eq (proc_addr i) (proc_addr j) = i == j
chan_eq (other_addr a) (other_addr b) = a == b
chan_eq _ _ = false

-- The registers of the trap frame that the process code reads or writes.
pub record TrapFrame : Type 0 where
  pub eax : ℕ
  pub esp : ℕ
  pub eip : ℕ
  pub cs : ℕ
  pub ds : ℕ
  pub es : ℕ
  pub ss : ℕ
  pub eflags : ℕ

pub record Proc : Type 0 where
  pub sz : ℕ
  pub pgdir : ℕ
  pub kstack : ℕ
  pub state : ProcState
  pub pid : ℕ
  pub parent : Option ℕ
  pub tf : TrapFrame
  pub chan : Chan
  pub killed : Bool
  pub ofile : List ℕ
  pub cwd : ℕ
  pub name : Bytes
  pub nclone : ℕ
  pub sleepticks : ℤ
  pub t_remain : ℤ
  pub t_last_scheduled : ℤ
  pub skip_once : Bool

-- An entry of `uvmrefcount`; `none` is the count -1 of a free entry.
pub record Uvmdesc : Type 0 where
  pub refcount : Option ℕ
  pub pgdir : ℕ

-- PIDs and `nextpid` are the 32 bits of an `int`, which compare as the `int`s do below 2^31.
pub record Kernel : Type 0 where
  pub ptable : List Proc
  pub nextpid : ℕ
  pub initproc : ℕ
  pub skip_target : Option ℕ
  pub ticks : ℕ
  pub cpu_proc : Option ℕ
  pub uvmrefcount : List Uvmdesc

abbrev pub empty_frame : TrapFrame
empty_frame = record { eax = 0; esp = 0; eip = 0; cs = 0; ds = 0; es = 0; ss = 0; eflags = 0 }

-- A slot of the zeroed table that the kernel starts with.
abbrev pub empty_proc : Proc
empty_proc = record {
  sz = 0;
  pgdir = 0;
  kstack = 0;
  state = unused;
  pid = 0;
  parent = none;
  tf = empty_frame;
  chan = null;
  killed = false;
  ofile = replicate nofile 0;
  cwd = 0;
  name = List.[];
  nclone = 0;
  sleepticks = pos 0;
  t_remain = pos 0;
  t_last_scheduled = pos 0;
  skip_once = false;
}
