-- ===== src/Wfs/Ops.antt =====
-- 01-fuse-filesystem-wfs/wfs.c: the handlers of the FUSE table that read, write, create and list. A path is a
-- C string without its NUL, and reads and writes are as in File, on the inode of the path.
pub mod Remove
pub mod Attr
pub mod FreedDirect
pub mod Freed
pub mod Wipe
pub mod Trip
use systems_programming_port.Prelude.{
  ℕ, zero, suc, ◌+◌, ◌-◌, ◌*◌, ◌/◌, ◌%◌, ◌^◌, ◌≤◌, ◌<◌, ◌≡◌, refl, sym, ap, subst, ◌∙◌, ◌≢◌, ◌↔◌,
  ◌⊎◌, inl, inr, Bool, true, false, not, ◌&&◌, ◌||◌, Option, none, some, List, [], ◌∷◌, ◌++◌, map,
  arith, length, get_elem?, set, get_or, take, drop, replicate, modify, ltb, leb, ◌==◌,
  if◌then◌else◌, Bool-cases, Option-cases, Bytes, codes, str_eq, ==_refl, ne→==, ==→eq, ==→ne,
  tests, ltb→lt, ltb→ge, lt→ltb,
}
use systems_programming_port.Wfs.Memory.{load}
use systems_programming_port.Wfs.Path.{clean_path, split_path, Split, parts, refused}
use systems_programming_port.Wfs.Color.{decorated}
use systems_programming_port.Wfs.Disk.{
  Disk, Env, Inode, Kind, regular, directory, Errno, enotdir, eexist, is_dir, block_size,
  with_inode, retrieve_inode, allocate_inode, fillin_inode, free_inode, update_times,
}
use systems_programming_port.Wfs.File.{Answer, ok, err, touch, read_inode, write_inode}
use systems_programming_port.Wfs.Directory.{
  add_dentry, dentry_to_num, dentry_num, dentry_at, dentry_name, dir_entries, live_entry,
  entries_per_block, get_inode_from_path, holds_name, error_of,
}
use systems_programming_port.Wfs.Disk.{d_block}

pub record Stat : Type 0 where
  pub kind : Kind
  pub perm : ℕ
  pub nlink : ℕ
  pub uid : ℕ
  pub gid : ℕ
  pub size : ℕ
  pub blksize : ℕ
  pub blocks : ℕ
  pub atime : ℕ
  pub mtime : ℕ
  pub ctime : ℕ

abbrev pub stat_of : Inode → Stat
stat_of node = record {
  kind = node.kind;
  perm = node.perm;
  nlink = node.nlinks;
  uid = node.uid;
  gid = node.gid;
  size = node.size;
  blksize = block_size;
  blocks = (node.size + block_size - 1) / block_size;
  atime = node.atim;
  mtime = node.mtim;
  ctime = node.ctim;
}

unfoldable pub wfs_getattr : Bytes → Disk → Answer Stat
unfolding get_inode_from_path clean_path
wfs_getattr path d = elim (get_inode_from_path (clean_path path) d) [
  | err e ↦ err e
  | ok ino ↦ ok (stat_of (d.inodes ino))
]

unfoldable pub wfs_read : ℕ → Bytes → ℕ → ℕ → Disk → Option (Answer Bytes × Disk)
unfolding get_inode_from_path clean_path read_inode
wfs_read now path len off d = elim (get_inode_from_path (clean_path path) d) [
  | err e ↦ some (err e, d)
  | ok ino ↦ read_inode now ino len off d
]

unfoldable pub wfs_write : ℕ → Bytes → Bytes → ℕ → Disk → Option (Answer ℕ × Disk)
unfolding get_inode_from_path clean_path write_inode
wfs_write now path buf off d = elim (get_inode_from_path (clean_path path) d) [
  | err e ↦ some (err e, d)
  | ok ino ↦ write_inode now ino buf off d
]

-- The directory of a new name, where it can be made there.
unfoldable pub parent_for : Bytes → Bytes → Disk → Answer ℕ
unfolding get_inode_from_path dentry_to_num
parent_for dir name d = elim (get_inode_from_path dir d) [
  | err e ↦ err e
  | ok parent ↦
      if not (is_dir (d.inodes parent).kind)
      then err enotdir
      else if holds_name (dentry_to_num name parent d)
      then err eexist
      else ok parent
]

abbrev pub add_links : ℕ → ℕ → Disk → Disk
add_links ino n d = with_inode ino (record (d.inodes ino) { nlinks = n }) d

abbrev pub mknod_done : ℕ → Answer ℕ × Disk → Answer ℕ × Disk
mknod_done ino (ok n, d) = (ok 0, d)
mknod_done ino (err e, d) = (err e, free_inode ino d)

unfoldable pub mknod_at : Env → ℕ → ℕ → Bytes → Disk → Answer ℕ × Disk
unfolding allocate_inode fillin_inode add_dentry free_inode
mknod_at env perm parent name d =
    let (slot, e) = allocate_inode env.now d in
    elim slot [
      | none ↦ (err (error_of e), e)
      | some ino ↦
          let f = with_inode ino (fillin_inode env regular perm (e.inodes ino)) e in
          mknod_done ino (add_dentry env.now parent (f.inodes ino).num name f)
    ]

-- Every mode becomes that of a regular file with the 9 permission bits.
unfoldable pub wfs_mknod : Env → Bytes → ℕ → Disk → Answer ℕ × Disk
unfolding clean_path split_path parent_for mknod_at
wfs_mknod env path mode d = elim (split_path (clean_path path)) [
  | refused e ↦ (err e, d)
  | parts dir name ↦ elim (parent_for dir name d) [
    | err e ↦ (err e, d)
    | ok parent ↦ mknod_at env (mode % 512) parent name d
  ]
]

abbrev pub mkdir_done : ℕ → ℕ → Answer ℕ × Disk → Answer ℕ × Disk
mkdir_done parent ino (ok n, d) = (ok 0, d)
mkdir_done parent ino (err e, d) =
    let d' = free_inode ino d in (err e, add_links parent ((d'.inodes parent).nlinks - 1) d')

unfoldable pub mkdir_at : Env → ℕ → ℕ → Bytes → Disk → Answer ℕ × Disk
unfolding allocate_inode fillin_inode add_dentry free_inode
mkdir_at env perm parent name d =
    let (slot, e) = allocate_inode env.now d in
    elim slot [
      | none ↦ (err (error_of e), e)
      | some ino ↦
          let f =
            add_links ino 2 (with_inode ino (fillin_inode env directory perm (e.inodes ino)) e) in
          let g = add_links parent ((f.inodes parent).nlinks + 1) f in
          mkdir_done parent ino (add_dentry env.now parent (g.inodes ino).num name g)
    ]

unfoldable pub wfs_mkdir : Env → Bytes → ℕ → Disk → Answer ℕ × Disk
unfolding clean_path split_path parent_for mkdir_at
wfs_mkdir env path mode d = elim (split_path (clean_path path)) [
  | refused e ↦ (err e, d)
  | parts dir name ↦ elim (parent_for dir name d) [
    | err e ↦ (err e, d)
    | ok parent ↦ mkdir_at env (mode % 512) parent name d
  ]
]

-- The name given to the filler, in color for `ls`.
unfoldable pub shown_name : Bool → Disk → ℕ → Bytes
unfolding retrieve_inode decorated dentry_name load
shown_name is_ls d a = elim (retrieve_inode (dentry_num d a) d) [
  | none ↦ dentry_name d a
  | some child ↦
      if is_ls && not ((d.inodes child).color == 0)
      then decorated (d.inodes child).color (dentry_name d a)
      else dentry_name d a
]

unfoldable pub list_from : Bool → Disk → ℕ → ℕ → ℕ → List Bytes
unfolding live_entry shown_name
list_from is_ls d ino zero idx = []
list_from is_ls d ino (suc count) idx =
    let rest = list_from is_ls d ino count (idx + 1) in
    if leb d_block (idx / entries_per_block)
    then []
    else if live_entry d ino idx
    then shown_name is_ls d (dentry_at d ino idx) ∷ rest
    else rest

-- The names that the filler is given, `is_ls` being whether the caller's command is `ls`.
unfoldable pub wfs_readdir : ℕ → Bool → Bytes → Disk → Answer (List Bytes) × Disk
unfolding clean_path get_inode_from_path list_from update_times
wfs_readdir now is_ls path d = elim (get_inode_from_path (clean_path path) d) [
  | err e ↦ (err e, d)
  | ok dir ↦ if not (is_dir (d.inodes dir).kind) then (err enotdir, d) else (
    ok (codes "." ∷ codes ".." ∷ list_from is_ls d dir (dir_entries d dir) 0),
    touch now dir true false false d,
  )
]
