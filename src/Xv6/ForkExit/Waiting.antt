-- ===== src/Xv6/ForkExit/Waiting.antt =====
-- What `wait` of 03-xv6-stcf-scheduler/proc.c answers.
use systems_programming_port.Prelude.{
  ℕ, ◌+◌, ◌≡◌, ◌⊎◌, true, false, ◌&&◌, ◌≢◌, none, some, List, get_elem?,
}
use systems_programming_port.Xv6.Proc.{Proc, Kernel, proc_addr, is_zombie, unused, sleeping}
use systems_programming_port.Xv6.Lifecycle.{Outcome, done, panic, fault, unshare_uvm}
use systems_programming_port.Xv6.ForkExit.{
  is_child, Scan, zombie_at, alive, wait_scan, Waited, reaped,
}

-- A zombie child of `cur` in slot `i`.
abbrev pub ZombieAt : ℕ → List Proc → ℕ → Proc → Type 0
ZombieAt cur t i p = (get_elem? t i ≡ some p) × ((is_child cur p && is_zombie p.state) ≡ true)

abbrev pub NoZombie : ℕ → List Proc → Type 0
NoZombie cur t =
    (j : ℕ) (q : Proc) → get_elem? t j ≡ some q → (is_child cur q && is_zombie q.state) ≡ false

abbrev pub ChildAt : ℕ → List Proc → ℕ → Proc → Type 0
ChildAt cur t i p = (get_elem? t i ≡ some p) × (is_child cur p ≡ true)

abbrev pub NoChild : ℕ → List Proc → Type 0
NoChild cur t = (j : ℕ) (q : Proc) → get_elem? t j ≡ some q → is_child cur q ≡ false

abbrev Scanned : ℕ → ℕ → Scan → List Proc → Type 0
Scanned cur i seen t =
    ((j : ℕ) × (p : Proc) × ZombieAt cur t j p × (wait_scan cur i seen t ≡ zombie_at (i + j)))
    ⊎ (NoZombie cur t
        × (((j : ℕ) × (p : Proc) × ChildAt cur t j p × (wait_scan cur i seen t ≡ alive))
            ⊎ (NoChild cur t × (wait_scan cur i seen t ≡ seen))))

-- What reaping the child `p` of slot `i` comes to: the slot is free and nothing else of the table changes. It panics
-- or faults only where the count of the child's page table does, or where there is no page table to free.
abbrev pub Buried : ℕ → Proc → Kernel → Outcome (Waited × Kernel) → Type 0
Buried i p k panic = (unshare_uvm p.pgdir k.uvmrefcount ≡ panic) ⊎ (p.pgdir ≡ 0)
Buried i p k fault = unshare_uvm p.pgdir k.uvmrefcount ≡ fault
Buried i p k (done (w, k')) =
    (w ≡ reaped p.pid)
    × ((q : Proc) × (get_elem? k'.ptable i ≡ some q)
        × (q.state ≡ unused)
        × (q.pid ≡ 0)
        × (q.parent ≡ none)
        × (q.killed ≡ false))
    × ((j : ℕ) → i ≢ j → get_elem? k'.ptable j ≡ get_elem? k.ptable j)
    × (k'.cpu_proc ≡ k.cpu_proc)

-- The caller gone to sleep on its own slot.
abbrev pub AsleepAt : ℕ → Kernel → Type 0
AsleepAt cur k =
    (k.cpu_proc ≡ none)
    × ((q : Proc)
        → get_elem? k.ptable cur ≡ some q
        → (q.state ≡ sleeping) × (q.chan ≡ proc_addr cur))
