-- ===== src/Xv6/Pipe.antt =====
-- 03-xv6-stcf-scheduler/pipe.c: the ring of a pipe, and its two ends. A read or a write is run up to
-- the point where it returns or goes to sleep; a write that sleeps goes on with the bytes left.
pub mod Bounds
pub mod Fifo
use systems_programming_port.Prelude.{
  ℕ, zero, suc, ◌+◌, ◌-◌, ◌*◌, ◌/◌, ◌%◌, ◌^◌, ◌≤◌, ◌<◌, ◌≡◌, refl, sym, ap, subst, ◌∙◌, ◌≢◌, ◌↔◌,
  ◌⊎◌, inl, inr, Bool, true, false, not, ◌&&◌, ◌||◌, Option, none, some, List, [], ◌∷◌, ◌++◌, map,
  arith, length, get_elem?, set, get_or, take, drop, replicate, modify, ltb, leb, ◌==◌,
  if◌then◌else◌, Bool-cases, Option-cases, Bytes, codes, str_eq, ==_refl, ne→==, ==→eq, ==→ne,
  tests,
}

abbrev pub pipesize : ℕ
pipesize = 512

-- `nread` and `nwrite` are of 32 bits.
pub record Pipe : Type 0 where
  pub bytes : List ℕ
  pub nread : ℕ
  pub nwrite : ℕ
  pub readopen : Bool
  pub writeopen : Bool

-- The pipe that `pipealloc` makes in a page with these bytes, where both files and the page are there.
unfoldable pub pipealloc : (files_ok page_ok : Bool) → List ℕ → Option Pipe
pipealloc files_ok page_ok bytes =
    if files_ok && page_ok
    then some (record { bytes = bytes; nread = 0; nwrite = 0; readopen = true; writeopen = true })
    else none

-- One end closes; `none` once both have, and the page is freed.
unfoldable pub pipeclose : Bool → Pipe → Option Pipe
pipeclose writable p =
    let closed : Pipe =
      if writable then record p { writeopen = false } else record p { readopen = false } in
    if not closed.readopen && not closed.writeopen then none else some closed

abbrev pub is_full : Pipe → Bool
is_full p = p.nwrite == ((p.nread + pipesize) % 2 ^ 32)

abbrev pub push : ℕ → Pipe → Pipe
push b p = record p {
  bytes = set p.bytes (p.nwrite % pipesize) b;
  nwrite = (p.nwrite + 1) % 2 ^ 32;
}

-- The loop of `pipewrite` until the ring is full, with the bytes that are left.
unfoldable pub write_bytes : List ℕ → Pipe → List ℕ × Pipe
write_bytes [] p = ([], p)
write_bytes (b ∷ bs) p =
    let rest = write_bytes bs (push b p) in if is_full p then (b ∷ bs, p) else rest

pub data Written : Type 0 where
  wrote : Pipe → Written
  broken : Pipe → Written
  full : List ℕ → Pipe → Written

unfoldable pub pipewrite : Bool → List ℕ → Pipe → Written
unfolding write_bytes
pipewrite killed addr p =
    let (left, p') = write_bytes addr p in
    elim left [
      | [] ↦ wrote p'
      | b ∷ bs ↦ if not p'.readopen || killed then broken p' else full (b ∷ bs) p'
    ]

abbrev pub is_empty : Pipe → Bool
is_empty p = p.nread == p.nwrite

abbrev pub pop : Pipe → Pipe
pop p = record p { nread = (p.nread + 1) % 2 ^ 32 }

-- At most `n` bytes, until the ring is empty.
unfoldable pub read_bytes : ℕ → Pipe → List ℕ × Pipe
read_bytes zero p = ([], p)
read_bytes (suc n) p =
    let (bs, p') = read_bytes n (pop p) in
    if is_empty p then ([], p) else (get_or p.bytes (p.nread % pipesize) 0 ∷ bs, p')

pub data Read : Type 0 where
  got : List ℕ → Pipe → Read
  killed_reader : Read
  waits : Read

unfoldable pub piperead : Bool → ℕ → Pipe → Read
unfolding read_bytes
piperead killed n p =
    if is_empty p && p.writeopen
    then (if killed then killed_reader else waits)
    else (let (bs, p') = read_bytes n p in got bs p')
