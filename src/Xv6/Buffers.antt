-- ===== src/Xv6/Buffers.antt =====
-- 03-xv6-stcf-scheduler/bio.c and the disk of memide.c: the cache of disk blocks. A `struct buf *` is the
-- index of a buffer, and the chained list from `head.next` to `head.prev` a list of them. A buffer has no more
-- references than there are processes, so its count stays far below 2^32.
pub mod Lookup
pub mod Coherent
pub mod Calls
pub mod Reads
pub mod Clients
pub mod Tests
use systems_programming_port.Prelude.{
  ℕ, zero, suc, ◌+◌, ◌-◌, ◌*◌, ◌/◌, ◌%◌, ◌^◌, ◌≤◌, ◌<◌, ◌≡◌, refl, sym, ap, subst, ◌∙◌, ◌≢◌, ◌↔◌,
  ◌⊎◌, inl, inr, Bool, true, false, not, ◌&&◌, ◌||◌, Option, none, some, List, [], ◌∷◌, ◌++◌, map,
  arith, length, get_elem?, set, get_or, take, drop, replicate, modify, ltb, leb, ◌==◌,
  if◌then◌else◌, Bool-cases, Option-cases, Bytes, codes, str_eq, ==_refl, ne→==, ==→eq, ==→ne,
  tests, ltb→lt, ltb→ge, lt→ltb,
}
use systems_programming_port.Prelude.Maps.{update}
use systems_programming_port.Xv6.Log.{Block}

abbrev pub nbuf : ℕ
nbuf = 30

-- `valid` and `dirty` are the two flags, `locked` the sleep lock, `words` the data.
pub record Buf : Type 0 where
  pub valid : Bool
  pub dirty : Bool
  pub dev : ℕ
  pub blockno : ℕ
  pub locked : Bool
  pub refcnt : ℕ
  pub words : Block

pub record Bcache : Type 0 where
  pub buf : ℕ → Buf
  pub order : List ℕ
  pub disk : ℕ → Block
  pub disksize : ℕ

abbrev pub with_buf : ℕ → Buf → Bcache → Bcache
with_buf i b s = record s { buf = update s.buf i b }

-- The loop of `binit` after the first `n` buffers.
abbrev pub chained : ℕ → List ℕ
chained zero = []
chained (suc n) = n ∷ chained n

abbrev pub zero_buf : Buf
zero_buf = record {
  valid = false;
  dirty = false;
  dev = 0;
  blockno = 0;
  locked = false;
  refcnt = 0;
  words = λ i. 0;
}

abbrev pub binit : (ℕ → Block) → ℕ → Bcache
binit disk size = record { buf = λ i. zero_buf; order = chained nbuf; disk = disk; disksize = size }

abbrev pub is_cached : ℕ → ℕ → Buf → Bool
is_cached dev blockno b = (b.dev == dev) && (b.blockno == blockno)

-- From `head.next` on.
unfoldable pub cached : ℕ → ℕ → (ℕ → Buf) → List ℕ → Option ℕ
cached dev blockno buf [] = none
cached dev blockno buf (i ∷ is) =
    let rest = cached dev blockno buf is in if is_cached dev blockno (buf i) then some i else rest

abbrev pub is_spare : Buf → Bool
is_spare b = (b.refcnt == 0) && not b.dirty

-- From `head.prev` back.
unfoldable pub spare : (ℕ → Buf) → List ℕ → Option ℕ
spare buf [] = none
spare buf (i ∷ is) = elim (spare buf is) [
  | some j ↦ some j
  | none ↦ if is_spare (buf i) then some i else none
]

abbrev pub referenced : Buf → Buf
referenced b = record b { refcnt = b.refcnt + 1 }

abbrev pub recycled : ℕ → ℕ → Buf → Buf
recycled dev blockno b = record b {
  valid = false;
  dirty = false;
  dev = dev;
  blockno = blockno;
  refcnt = 1;
}

-- Up to the release of `bcache.lock`; `none` for the panic.
unfoldable pub bget : ℕ → ℕ → Bcache → Option (ℕ × Bcache)
unfolding cached spare
bget dev blockno s = elim (cached dev blockno s.buf s.order) [
  | some i ↦ some (i, with_buf i (referenced (s.buf i)) s)
  | none ↦ elim (spare s.buf s.order) [
    | none ↦ none
    | some i ↦ some (i, with_buf i (recycled dev blockno (s.buf i)) s)
  ]
]

-- `none` for a panic.
unfoldable pub iderw : ℕ → Bcache → Option Bcache
iderw i s =
    let b = s.buf i in
    if not b.locked || (b.valid && not b.dirty)
    then none
    else if not (b.dev == 1) || leb s.disksize b.blockno
    then none
    else if b.dirty
    then some (
        with_buf i (record b { valid = true; dirty = false })
          (record s { disk = update s.disk b.blockno b.words }))
    else some (with_buf i (record b { valid = true; words = s.disk b.blockno }) s)

pub data Bread : Type 0 where
  got : ℕ → Bcache → Bread
  asleep : ℕ → Bcache → Bread
  panic : Bread

abbrev pub loaded : ℕ → Option Bcache → Bread
loaded i none = panic
loaded i (some s) = got i s

-- From `acquiresleep` on, which sleeps while the buffer is locked.
unfoldable pub bread_on : ℕ → Bcache → Bread
unfolding iderw
bread_on i s =
    let locked = with_buf i (record (s.buf i) { locked = true }) s in
    if (s.buf i).locked
    then asleep i s
    else if (s.buf i).valid
    then got i locked
    else loaded i (iderw i locked)

unfoldable pub bread : ℕ → ℕ → Bcache → Bread
unfolding bget bread_on
bread dev blockno s = elim (bget dev blockno s) [ none ↦ panic | some (i, t) ↦ bread_on i t ]

unfoldable pub bwrite : ℕ → Bcache → Option Bcache
unfolding iderw
bwrite i s =
    if not (s.buf i).locked
    then none
    else iderw i (with_buf i (record (s.buf i) { dirty = true }) s)

abbrev pub unlink : ℕ → List ℕ → List ℕ
unlink i [] = []
unlink i (j ∷ js) = if j == i then unlink i js else j ∷ unlink i js

unfoldable pub brelse : ℕ → Bcache → Option Bcache
brelse i s =
    let b : Buf = record (s.buf i) { locked = false; refcnt = (s.buf i).refcnt - 1 } in
    if not (s.buf i).locked
    then none
    else if b.refcnt == 0
    then some (record (with_buf i b s) { order = i ∷ unlink i s.order })
    else some (with_buf i b s)

-- The holder of a buffer changes its bytes and hands it to `log_write`.
abbrev pub modified : ℕ → Block → Bcache → Bcache
modified i blk s = with_buf i (record (s.buf i) { dirty = true; words = blk }) s
