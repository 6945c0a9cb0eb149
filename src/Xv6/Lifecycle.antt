-- ===== src/Xv6/Lifecycle.antt =====
-- 03-xv6-stcf-scheduler/proc.c: `allocproc`, `userinit`, `growproc`, the names that `fork` and `clone`
-- give, and the reference counts of page tables that `clone` and `wait` share with vm.c.
-- What `kalloc`, `setupkvm` and `namei` return is an argument, 0 for a failure.
pub mod Reuse
use systems_programming_port.Prelude.{
  ℕ, zero, suc, ◌+◌, ◌-◌, ◌/◌, ◌%◌, ◌^◌, Bool, true, false, ◌&&◌, ◌||◌, Option, none, some, List,
  [], ◌∷◌, ◌++◌, length, get_elem?, take, modify, ◌==◌, if◌then◌else◌, Bytes, codes,
}
use systems_programming_port.Prelude.Int.{ℤ, pos, negsuc, ltb_ℤ, uint_of_int}
use systems_programming_port.Xv6.Proc.{
  Proc, Kernel, TrapFrame, Uvmdesc, null, unused, embryo, runnable, is_unused, max_proc_name_len,
  stcf_init_remain,
}

-- A kernel call either returns or panics; a `fault` is a dereference of a null pointer.
pub data Outcome {ℓ} (A : Type ℓ) : Type ℓ where
  done : A → Outcome A
  panic : Outcome A
  fault : Outcome A

unfoldable pub find_unused : ℕ → List Proc → Option ℕ
find_unused i [] = none
find_unused i (p ∷ ps) = if is_unused p.state then some i else find_unused (suc i) ps

-- The slot while it is claimed under the lock, and once its kernel stack is there.
abbrev pub claimed : ℕ → Proc → Proc
claimed pid p = record p {
  state = embryo;
  pid = pid;
  nclone = 0;
  sleepticks = negsuc 0;
  chan = null;
}

abbrev pub fresh : ℕ → Proc → Proc
fresh kstack p = record p {
  kstack = kstack;
  t_remain = stcf_init_remain;
  t_last_scheduled = negsuc 0;
  skip_once = false;
}

abbrev pub in_slot : ℕ → (Proc → Proc) → Kernel → Kernel
in_slot i f k = record k { ptable = modify k.ptable i f }

unfoldable pub allocproc : ℕ → Kernel → Option ℕ × Kernel
unfolding find_unused
allocproc kstack k = elim (find_unused 0 k.ptable) [
  | none ↦ (none, k)
  | some i ↦
      let k' : Kernel = record (in_slot i (claimed k.nextpid) k) {
        nextpid = (k.nextpid + 1) % 2 ^ 32;
      } in
      if kstack == 0
      then (none, in_slot i (λ p. record p { kstack = 0; state = unused }) k')
      else (some i, in_slot i (fresh kstack) k')
]

-- `(SEG_UCODE << 3) | DPL_USER`, `(SEG_UDATA << 3) | DPL_USER`, `FL_IF`, `PGSIZE`
abbrev pub user_code : ℕ
user_code = 0x1b

abbrev pub user_data : ℕ
user_data = 0x23

abbrev pub fl_if : ℕ
fl_if = 0x200

abbrev pub pgsize : ℕ
pgsize = 4096

abbrev pub init_frame : TrapFrame
init_frame = record {
  eax = 0;
  esp = pgsize;
  eip = 0;
  cs = user_code;
  ds = user_data;
  es = user_data;
  ss = user_data;
  eflags = fl_if;
}

abbrev pub first_process : ℕ → ℕ → Proc → Proc
first_process pgdir root p = record p {
  pgdir = pgdir;
  sz = pgsize;
  tf = init_frame;
  name = codes "initcode";
  cwd = root;
  state = runnable;
  t_remain = stcf_init_remain;
  t_last_scheduled = negsuc 0;
  skip_once = false;
}

-- The slot is not checked for 0 here.
unfoldable pub first_into : Option ℕ → ℕ → ℕ → Kernel → Outcome Kernel
first_into none pgdir root k = fault
first_into (some i) pgdir root k =
    if pgdir == 0
    then panic
    else done (in_slot i (first_process pgdir root) (record k { initproc = i }))

unfoldable pub userinit : ℕ → ℕ → ℕ → Kernel → Outcome Kernel
unfolding allocproc first_into
userinit kstack pgdir root k = first_into (allocproc kstack k).0 pgdir root (allocproc kstack k).1

-- `growproc`, over the two functions of vm.c that it calls: page directory, old and new size give
-- the size reached, or 0.
module _ (allocuvm deallocuvm : ℕ → ℕ → ℕ → ℕ) where
  unfoldable pub new_size : ℤ → Proc → ℕ
  new_size n p =
      let target = (p.sz + uint_of_int n) % 2 ^ 32 in
      if ltb_ℤ (pos 0) n
      then allocuvm p.pgdir p.sz target
      else if ltb_ℤ n (pos 0)
      then deallocuvm p.pgdir p.sz target
      else p.sz

  unfoldable pub growproc : ℤ → ℕ → Proc → Kernel → ℤ × Kernel
  unfolding new_size
  growproc n cur p k =
      let sz = new_size n p in
      if (ltb_ℤ (pos 0) n || ltb_ℤ n (pos 0)) && (sz == 0)
      then (negsuc 0, k)
      else (pos 0, in_slot cur (λ q. record q { sz = sz }) k)

-- `safestrcpy` into a name: at most 15 bytes and the NUL.
abbrev pub copy_name : Bytes → Bytes
copy_name = take (max_proc_name_len - 1)

-- The digits that `clone` appends while there is room, least significant first.
unfoldable pub name_suffix : ℕ → ℕ → Bytes
name_suffix zero n = []
name_suffix (suc room) n =
    let rest = name_suffix room (n / 10) in if n == 0 then [] else (48 + n % 10) ∷ rest

unfoldable pub clone_name : Bytes → ℕ → Bytes
unfolding name_suffix
clone_name name nclone =
    copy_name name ++ name_suffix (max_proc_name_len - 1 - length (copy_name name)) nclone

unfoldable pub locate_uvmrefcount : ℕ → ℕ → List Uvmdesc → Option ℕ
locate_uvmrefcount pgdir i [] = none
locate_uvmrefcount pgdir i (u ∷ us) =
    let rest = locate_uvmrefcount pgdir (suc i) us in
    elim u.refcount [ none ↦ rest | some n ↦ if u.pgdir == pgdir then some i else rest ]

unfoldable pub allocate_uvmrefcount : ℕ → ℕ → List Uvmdesc → List Uvmdesc
allocate_uvmrefcount pgdir n [] = []
allocate_uvmrefcount pgdir n (u ∷ us) =
    let rest = allocate_uvmrefcount pgdir n us in
    elim u.refcount [ none ↦ record { refcount = some n; pgdir = pgdir } ∷ us | some m ↦ u ∷ rest ]

abbrev bump : Uvmdesc → Uvmdesc
bump u = record u { refcount = elim u.refcount [ none ↦ some 0 | some n ↦ some (n + 1) ] }

-- One more thread on a page table that so far had one user, or one more still.
unfoldable pub share_uvm : ℕ → List Uvmdesc → List Uvmdesc
unfolding locate_uvmrefcount allocate_uvmrefcount
share_uvm pgdir us = elim (locate_uvmrefcount pgdir 0 us) [
  | some i ↦ modify us i bump
  | none ↦ allocate_uvmrefcount pgdir 2 us
]

-- The head of `freevm`: whether the memory goes, and the new counts.
unfoldable pub unshare_uvm : ℕ → List Uvmdesc → Outcome (Bool × List Uvmdesc)
unfolding locate_uvmrefcount
unshare_uvm pgdir us = elim (locate_uvmrefcount pgdir 0 us) [
  | none ↦ done (true, us)
  | some i ↦ elim (get_elem? us i) [
    | none ↦ fault
    | some u ↦ elim u.refcount [
      | none ↦ panic
      | some n ↦
          if n == 0
          then panic
          else if n == 1
          then done (true, modify us i (λ v. record v { refcount = none }))
          else done (false, modify us i (λ v. record v { refcount = some (n - 1) }))
    ]
  ]
]
