-- ===== src/Wfs/Disk.antt =====
-- 01-fuse-filesystem-wfs/wfs.h and wfs.c: the mounted disk, its inodes and data blocks, and how they
-- are taken and given back.
-- The superblock's counts and offsets are fields. An inode is the record in its slot, and a pointer
-- to it is the slot's number. A data block is named as on the disk, by the offset of its first byte,
-- 0 for none. `mem` is the image from `d_blocks_ptr` on. The clock and the user are arguments.
use systems_programming_port.Prelude.{◌^◌}
use systems_programming_port.Prelude.{
  ℕ, ◌+◌, ◌-◌, ◌*◌, ◌/◌, ◌%◌, Bool, true, false, ◌&&◌, Option, none, some, ltb, leb, ◌==◌,
  if◌then◌else◌,
}
use systems_programming_port.Prelude.Maps.{update}
use systems_programming_port.Wfs.Memory.{Memory, memset_zero}
use systems_programming_port.Wfs.Bitmap.{Bitmap, bitmap_test, free_bitmap, allocate_block}

abbrev pub block_size : ℕ
block_size = 512

abbrev pub max_name : ℕ
max_name = 28

abbrev pub d_block : ℕ
d_block = 6

abbrev pub ind_block : ℕ
ind_block = d_block + 1

-- What `S_IFMT` leaves of the mode, and its permission bits.
pub data Kind : Type 0 where
  no_kind regular directory : Kind

abbrev pub is_dir : Kind → Bool
is_dir directory = true
is_dir _ = false

pub record Inode : Type 0 where
  pub num : ℕ
  pub kind : Kind
  pub perm : ℕ
  pub uid : ℕ
  pub gid : ℕ
  pub size : ℕ
  pub nlinks : ℕ
  pub atim : ℕ
  pub mtim : ℕ
  pub ctim : ℕ
  pub color : ℕ
  pub blocks : ℕ → ℕ

abbrev pub zero_inode : Inode
zero_inode = record {
  num = 0;
  kind = no_kind;
  perm = 0;
  uid = 0;
  gid = 0;
  size = 0;
  nlinks = 0;
  atim = 0;
  mtim = 0;
  ctim = 0;
  color = 0;
  blocks = λ i. 0;
}

-- The error codes that the filesystem answers with.
pub data Errno : Type 0 where
  enoent einval enotdir eexist enametoolong enospc eisdir eperm ebusy enotempty enotsup erange :
      Errno

pub record Disk : Type 0 where
  pub num_inodes : ℕ
  pub num_data_blocks : ℕ
  pub d_blocks_ptr : ℕ
  pub ibm : Bitmap
  pub dbm : Bitmap
  pub inodes : ℕ → Inode
  pub mem : Memory
  pub wfs_error : Option Errno

-- `time`, `getuid` and `getgid` during one call.
pub record Env : Type 0 where
  pub now : ℕ
  pub uid : ℕ
  pub gid : ℕ

abbrev pub bitmap_len_words : ℕ → ℕ
bitmap_len_words n = (n + 31) / 32

abbrev pub with_inode : ℕ → Inode → Disk → Disk
with_inode i node d = record d { inodes = update d.inodes i node }

abbrev pub set_error : Errno → Disk → Disk
set_error e d = record d { wfs_error = some e }

unfoldable pub update_times : ℕ → (atime mtime ctime : Bool) → Inode → Inode
update_times now atime mtime ctime node = record node {
  atim = if atime then now else node.atim;
  mtim = if mtime then now else node.mtim;
  ctim = if ctime then now else node.ctim;
}

abbrev pub valid_inum : ℕ → Disk → Bool
valid_inum inum d = ltb inum d.num_inodes

-- The slot, where the number is in range and in use.
unfoldable pub retrieve_inode : ℕ → Disk → Option ℕ
unfolding bitmap_test
retrieve_inode inum d = if ltb inum d.num_inodes && bitmap_test inum d.ibm then some inum else none

-- The position that the bitmap gave; one past the last slot stays taken there.
unfoldable pub give_inode : ℕ → Option ℕ → Disk → Option ℕ × Disk
unfolding update_times
give_inode now none d = (none, set_error enospc d)
give_inode now (some idx) d =
    if ltb idx d.num_inodes
    then (
      some idx,
      with_inode idx (update_times now true true true (record zero_inode { num = idx })) d,
    )
    else (none, set_error enospc d)

unfoldable pub allocate_inode : ℕ → Disk → Option ℕ × Disk
unfolding allocate_block give_inode
allocate_inode now d =
    let (taken, bm) = allocate_block d.ibm (bitmap_len_words d.num_inodes) in
    give_inode now taken (record d { ibm = bm })

abbrev pub block_at : Disk → ℕ → ℕ
block_at d idx = d.d_blocks_ptr + idx * block_size

unfoldable pub give_block : Option ℕ → Disk → ℕ × Disk
unfolding memset_zero
give_block none d = (0, set_error enospc d)
give_block (some idx) d =
    if ltb idx d.num_data_blocks
    then (block_at d idx, record d { mem = memset_zero (block_at d idx) block_size d.mem })
    else (0, set_error enospc d)

-- The block's offset, or 0.
unfoldable pub allocate_data_block : Disk → ℕ × Disk
unfolding allocate_block give_block
allocate_data_block d =
    let (taken, bm) = allocate_block d.dbm (bitmap_len_words d.num_data_blocks) in
    give_block taken (record d { dbm = bm })

unfoldable pub free_inode : ℕ → Disk → Disk
unfolding free_bitmap
free_inode i d = with_inode i zero_inode (record d { ibm = free_bitmap ((d.inodes i).num) d.ibm })

-- Only the offset of a data block is freed. The index is a `uint32_t`.
unfoldable pub free_block : ℕ → Disk → Disk
unfolding free_bitmap memset_zero
free_block blk d =
    let idx = ((blk - d.d_blocks_ptr) / block_size) % 2 ^ 32 in
    if leb d.d_blocks_ptr blk
      && ((blk - d.d_blocks_ptr) % block_size == 0)
      && ltb idx d.num_data_blocks
    then record d { dbm = free_bitmap idx d.dbm; mem = memset_zero blk block_size d.mem }
    else d

unfoldable pub fillin_inode : Env → Kind → ℕ → Inode → Inode
unfolding update_times
fillin_inode env kind perm node = update_times env.now true true true (record node {
  kind = kind;
  perm = perm;
  uid = env.uid;
  gid = env.gid;
  size = 0;
  nlinks = 1;
  color = 0;
  blocks = λ i. 0;
})
