-- ===== src/Xv6/Log.antt =====
-- 03-xv6-stcf-scheduler/log.c: the redo log of the filesystem.
-- A block is its 32-bit words. `cache` is what `bread` answers with: the copy in a buffer or, where
-- there is none, the block on the disk. `left` is the number of block writes that reach the disk
-- before the power fails; from there on the disk stays as it is. `lh` is the header up to its `n`.
pub mod View
pub mod Header
pub mod Phases
pub mod Recovery
pub mod Crash
pub mod Calls
pub mod Space
pub mod Tests
use systems_programming_port.Prelude.{
  ℕ, zero, suc, ◌+◌, ◌-◌, ◌*◌, ◌/◌, ◌%◌, ◌^◌, ◌≤◌, ◌<◌, ◌≡◌, refl, sym, ap, subst, ◌∙◌, ◌≢◌, ◌↔◌,
  ◌⊎◌, inl, inr, Bool, true, false, not, ◌&&◌, ◌||◌, Option, none, some, List, [], ◌∷◌, ◌++◌, map,
  arith, length, get_elem?, set, get_or, take, drop, replicate, modify, ltb, leb, ◌==◌,
  if◌then◌else◌, Bool-cases, Option-cases, Bytes, codes, str_eq, ==_refl, ne→==, ==→eq, ==→ne,
  tests, ltb→lt, ltb→ge, lt→ltb,
}
use systems_programming_port.Prelude.Maps.{update}

abbrev pub log_size : ℕ
log_size = 30

abbrev pub max_op_blocks : ℕ
max_op_blocks = 10

abbrev pub Block : Type 0
Block = ℕ → ℕ

pub record Log : Type 0 where
  pub start : ℕ
  pub size : ℕ
  pub outstanding : ℕ
  pub committing : Bool
  pub lh : List ℕ
  pub disk : ℕ → Block
  pub cache : ℕ → Block
  pub pinned : ℕ → Bool
  pub left : ℕ

-- `iderw` clears the flag that keeps the buffer in the cache.
abbrev pub bwrite : ℕ → Log → Log
bwrite b l = record l {
  disk = if l.left == 0 then l.disk else update l.disk b (l.cache b);
  pinned = update l.pinned b false;
  left = l.left - 1;
}

-- `memmove(to->data, from->data, BSIZE)`
abbrev pub copy_block : ℕ → ℕ → Log → Log
copy_block to from l = record l { cache = update l.cache to (l.cache from) }

unfoldable pub install_from : ℕ → List ℕ → Log → Log
install_from tail [] l = l
install_from tail (b ∷ bs) l =
    install_from (suc tail) bs (bwrite b (copy_block b (l.start + tail + 1) l))

unfoldable pub install_trans : Log → Log
unfolding install_from
install_trans l = install_from 0 l.lh l

unfoldable pub read_words : ℕ → ℕ → Block → List ℕ
read_words zero i blk = []
read_words (suc n) i blk = blk i ∷ read_words n (suc i) blk

-- The header in a block: the count, then as many block numbers.
unfoldable pub header_of : Block → List ℕ
unfolding read_words
header_of blk = read_words (blk 0) 1 blk

unfoldable pub put_words : ℕ → List ℕ → Block → Block
put_words i [] blk = blk
put_words i (w ∷ ws) blk = put_words (suc i) ws (update blk i w)

unfoldable pub read_head : Log → Log
unfolding header_of
read_head l = record l { lh = header_of (l.cache l.start) }

unfoldable pub write_head : Log → Log
unfolding put_words
write_head l = bwrite l.start (record l {
  cache = update l.cache l.start (put_words 0 (length l.lh ∷ l.lh) (l.cache l.start));
})

unfoldable pub recover_from_log : Log → Log
unfolding read_head install_trans write_head
recover_from_log l = write_head (record (install_trans (read_head l)) { lh = [] })

-- With the log's place from the superblock.
unfoldable pub initlog : ℕ → ℕ → Log → Log
unfolding recover_from_log
initlog start size l = recover_from_log (record l { start = start; size = size })

-- `none` where the operation has to sleep.
unfoldable pub begin_op : Log → Option Log
begin_op l =
    if l.committing
    then none
    else if ltb log_size (length l.lh + (l.outstanding + 1) * max_op_blocks)
    then none
    else some (record l { outstanding = l.outstanding + 1 })

unfoldable pub write_log_from : ℕ → List ℕ → Log → Log
write_log_from tail [] l = l
write_log_from tail (b ∷ bs) l =
    write_log_from (suc tail) bs (bwrite (l.start + tail + 1) (copy_block (l.start + tail + 1) b l))

unfoldable pub write_log : Log → Log
unfolding write_log_from
write_log l = write_log_from 0 l.lh l

unfoldable pub commit : Log → Log
unfolding write_log write_head install_trans
commit l =
    if ltb 0 (length l.lh)
    then write_head (record (install_trans (write_head (write_log l))) { lh = [] })
    else l

-- Up to the release of the lock, with whether the caller is to commit; `none` for the panic. The calls
-- of `wakeup` are left to the scheduler. An operation that ends has begun, so the count is above 0.
unfoldable pub end_op : Log → Option (Bool × Log)
end_op l =
    let l' = record l { outstanding = l.outstanding - 1 } in
    if l.committing
    then none
    else if l'.outstanding == 0
    then some (true, record l' { committing = true })
    else some (false, l')

-- The rest of `end_op` for the caller that commits. The commit itself holds no lock.
unfoldable pub end_commit : Log → Log
unfolding commit
end_commit l = record (commit l) { committing = false }

abbrev pub has_block : ℕ → List ℕ → Bool
has_block b [] = false
has_block b (x ∷ xs) = (x == b) || has_block b xs

-- The caller has modified the block `b` in the cache; `none` for a panic.
unfoldable pub log_write : ℕ → Log → Option Log
log_write b l =
    if leb log_size (length l.lh) || leb (l.size - 1) (length l.lh)
    then none
    else if ltb l.outstanding 1
    then none
    else some (record l {
      lh = if has_block b l.lh then l.lh else l.lh ++ (b ∷ []);
      pinned = update l.pinned b true;
    })

-- What is left after the power failed: the disk. The next boot has `left` writes of its own.
abbrev pub reboot : ℕ → Log → Log
reboot left l = record l {
  outstanding = 0;
  committing = false;
  lh = [];
  cache = l.disk;
  pinned = λ b. false;
  left = left;
}
