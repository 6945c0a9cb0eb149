-- ===== src/Wfs/Mkfs.antt =====
-- 01-fuse-filesystem-wfs/mkfs.c: the layout of a new filesystem, and its first inode. Counts are those that
-- `main` lets through; products and sums wrap where the C ones do, an `int` to 32 bits before it becomes an `off_t`.
pub mod Layout
use systems_programming_port.Prelude.{
  ℕ, zero, suc, ◌+◌, ◌-◌, ◌*◌, ◌/◌, ◌%◌, ◌^◌, ◌≤◌, ◌<◌, ◌≡◌, refl, sym, ap, subst, ◌∙◌, ◌≢◌, ◌↔◌,
  ◌⊎◌, inl, inr, Bool, true, false, not, ◌&&◌, ◌||◌, Option, none, some, List, [], ◌∷◌, ◌++◌, map,
  arith, length, get_elem?, set, get_or, take, drop, replicate, modify, ltb, leb, ◌==◌,
  if◌then◌else◌, Bool-cases, Option-cases, Bytes, codes, str_eq, ==_refl, ne→==, ==→eq, ==→ne,
  tests, ltb→lt, ltb→ge, lt→ltb,
}
use systems_programming_port.Wfs.Disk.{Disk, Inode, Env, directory, zero_inode, block_size}
use systems_programming_port.Wfs.Memory.{Memory}

unfoldable pub roundup : ℕ → ℕ → ℕ
roundup num factor = if num % factor == 0 then num else (num + (factor - num % factor)) % 2 ^ 32

pub record Superblock : Type 0 where
  pub num_inodes : ℕ
  pub num_data_blocks : ℕ
  pub i_bitmap_ptr : ℕ
  pub d_bitmap_ptr : ℕ
  pub i_blocks_ptr : ℕ
  pub d_blocks_ptr : ℕ

abbrev pub sb_size : ℕ
sb_size = 48

-- The `int` product as 64 bits, with its sign.
abbrev pub int_times : ℕ → ℕ → ℕ
int_times a b = let w = (a * b) % 2 ^ 32 in if ltb w (2 ^ 31) then w else w + (2 ^ 64 - 2 ^ 32)

abbrev pub layout : ℕ → ℕ → Superblock
layout inodes blocks =
    let d_bitmap = sb_size + inodes / 8 in
    let i_blocks = d_bitmap + blocks / 8 in
    record {
      num_inodes = inodes;
      num_data_blocks = blocks;
      i_bitmap_ptr = sb_size;
      d_bitmap_ptr = d_bitmap;
      i_blocks_ptr = i_blocks;
      d_blocks_ptr = (i_blocks + int_times inodes block_size) % 2 ^ 64;
    }

abbrev pub needed : Superblock → ℕ
needed sb =
    (sb.i_blocks_ptr + sb.num_inodes * block_size + sb.num_data_blocks * block_size) % 2 ^ 64

-- The superblock, where the layout fits an image of `sz` bytes.
unfoldable pub setup_sb : ℕ → ℕ → ℕ → Option Superblock
unfolding roundup
setup_sb inodes blocks sz =
    let sb = layout (roundup inodes 32) (roundup blocks 32) in
    if ltb (needed sb) sz then some sb else none

abbrev pub root_inode : Env → Inode
root_inode env = record zero_inode {
  kind = directory;
  perm = 448;
  uid = env.uid;
  gid = env.gid;
  nlinks = 1;
  atim = env.now;
  mtim = env.now;
  ctim = env.now;
}

-- What is mounted after the superblock, the first bit of the inode bitmap and the root inode are
-- written to an image of zeros.
abbrev pub fresh_disk : Env → Superblock → Disk
fresh_disk env sb = record {
  num_inodes = sb.num_inodes;
  num_data_blocks = sb.num_data_blocks;
  d_blocks_ptr = sb.d_blocks_ptr;
  ibm = λ w. if w == 0 then 1 else 0;
  dbm = λ w. 0;
  inodes = λ i. if i == 0 then root_inode env else zero_inode;
  mem = λ x. 0;
  wfs_error = none;
}

unfoldable pub wfs_mkfs : Env → ℕ → ℕ → ℕ → Option Disk
unfolding setup_sb
wfs_mkfs env inodes blocks sz = elim (setup_sb inodes blocks sz) [
  | none ↦ none
  | some sb ↦ some (fresh_disk env sb)
]

-- The counts that the command line may ask for.
unfoldable pub main : Env → Bool → ℕ → ℕ → ℕ → Option Disk
unfolding wfs_mkfs
main env diskimg inodes blocks sz =
    if not diskimg || (inodes == 0) || (blocks == 0) then none else wfs_mkfs env inodes blocks sz
