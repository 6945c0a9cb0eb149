-- ===== src/Wfs/Data.antt =====
-- 01-fuse-filesystem-wfs/wfs.c: `data_offset`, and the loops of `wfs_read` and `wfs_write` over it.
pub mod Slots
pub mod Alloc
pub mod Grow
pub mod Fill
pub mod Enter
pub mod Find
pub mod Lookup
pub mod Put
pub mod Drop
pub mod Returned
pub mod Free
pub mod Erase
use systems_programming_port.Prelude.{
  ℕ, zero, suc, ◌+◌, ◌-◌, ◌*◌, ◌/◌, ◌%◌, ◌^◌, ◌≤◌, ◌<◌, ◌≡◌, refl, sym, ap, subst, ◌∙◌, ◌≢◌, ◌↔◌,
  ◌⊎◌, inl, inr, Bool, true, false, not, ◌&&◌, ◌||◌, Option, none, some, List, [], ◌∷◌, ◌++◌, map,
  arith, length, get_elem?, set, get_or, take, drop, replicate, modify, ltb, leb, ◌==◌,
  if◌then◌else◌, Bool-cases, Option-cases, Bytes, codes, str_eq, ==_refl, ne→==, ==→eq, ==→ne,
  tests, ltb→lt, ltb→ge, lt→ltb,
}
use systems_programming_port.Prelude.Maps.{update}
use systems_programming_port.Wfs.Memory.{Memory, memset_zero, load, store_num, peek, poke}
use systems_programming_port.Wfs.Disk.{
  Inode, Disk, enospc, block_size, d_block, ind_block, with_inode, set_error, allocate_data_block,
}

abbrev pub indir_entries : ℕ
indir_entries = 64

abbrev pub max_blocks : ℕ
max_blocks = d_block + indir_entries

abbrev pub blocks_of : Disk → ℕ → ℕ → ℕ
blocks_of d ino i = (d.inodes ino).blocks i

-- `inode->blocks[i] = blk`
abbrev pub set_block : ℕ → ℕ → ℕ → Disk → Disk
set_block ino i blk d =
    with_inode ino (record (d.inodes ino) { blocks = update (blocks_of d ino) i blk }) d

-- The answer of `allocate_data_block` stored in a pointer of the inode.
unfoldable pub link_block : ℕ → ℕ → ℕ → Disk → Option ℕ × Disk
link_block ino i blk d = if blk == 0 then (none, d) else (some blk, set_block ino i blk d)

unfoldable pub fill_direct : ℕ → ℕ → Disk → Option ℕ × Disk
unfolding allocate_data_block link_block
fill_direct ino i d = let (blk, d') = allocate_data_block d in link_block ino i blk d'

abbrev pub entry_at : ℕ → ℕ → ℕ
entry_at ind idx = ind + idx * 8

abbrev pub nonnull : ℕ → Option ℕ
nonnull p = if p == 0 then none else some p

unfoldable pub direct_block : ℕ → ℕ → Bool → Disk → Option ℕ × Disk
unfolding fill_direct
direct_block ino i alloc d =
    if (blocks_of d ino i == 0) && alloc
    then fill_direct ino i d
    else (nonnull (blocks_of d ino i), d)

-- The second `memset` of a new indirect block.
unfoldable pub clear_array : Option ℕ → Disk → Option ℕ × Disk
unfolding memset_zero
clear_array none d = (none, d)
clear_array (some ind) d = (some ind, record d { mem = memset_zero ind block_size d.mem })

unfoldable pub indirect_array : ℕ → Bool → Disk → Option ℕ × Disk
unfolding fill_direct clear_array
indirect_array ino alloc d =
    if (blocks_of d ino ind_block == 0) && alloc
    then (let (ind, d') = fill_direct ino ind_block d in clear_array ind d')
    else (nonnull (blocks_of d ino ind_block), d)

unfoldable pub enter_block : ℕ → ℕ → ℕ → Disk → Option ℕ × Disk
unfolding store_num
enter_block ind idx blk d =
    if blk == 0
    then (none, d)
    else (some blk, record d { mem = store_num 8 (entry_at ind idx) blk d.mem })

unfoldable pub indirect_block : Option ℕ → ℕ → Bool → Disk → Option ℕ × Disk
unfolding allocate_data_block enter_block load
indirect_block none idx alloc d = (none, d)
indirect_block (some ind) idx alloc d =
    if (load 8 (entry_at ind idx) d.mem == 0) && alloc
    then (let (blk, d') = allocate_data_block d in enter_block ind idx blk d')
    else (nonnull (load 8 (entry_at ind idx) d.mem), d)

-- The data block of a block of the file, `none` for the null pointer.
unfoldable pub file_block : ℕ → ℕ → Bool → Disk → Option ℕ × Disk
unfolding direct_block indirect_array indirect_block
file_block ino block_index alloc d =
    if leb max_blocks block_index
    then (none, set_error enospc d)
    else if ltb block_index d_block
    then direct_block ino block_index alloc d
    else (let (ind, d') = indirect_array ino alloc d in
        indirect_block ind (block_index - d_block) alloc d')

unfoldable pub data_offset : ℕ → ℕ → Bool → Disk → Option ℕ × Disk
unfolding file_block
data_offset ino offset alloc d =
    let (blk, d') = file_block ino (offset / block_size) alloc d in
    (elim blk [ none ↦ none | some b ↦ some (b + offset % block_size) ], d')
