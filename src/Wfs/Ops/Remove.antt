-- ===== src/Wfs/Ops/Remove.antt =====
-- 01-fuse-filesystem-wfs/wfs.c: `wfs_unlink` and `wfs_rmdir`. A link count that the source lets fall below
-- 0 stays at 0 here.
use systems_programming_port.Prelude.{
  ℕ, zero, suc, ◌+◌, ◌-◌, Bool, true, false, not, ◌&&◌, ◌||◌, none, some, ◌==◌, if◌then◌else◌,
  Bytes, codes, str_eq,
}
use systems_programming_port.Wfs.Memory.{load, store_num}
use systems_programming_port.Wfs.Path.{clean_path, split_path, parts, refused, root}
use systems_programming_port.Wfs.Disk.{
  Disk, Errno, enoent, enotdir, eisdir, eperm, ebusy, enotempty, is_dir, d_block, ind_block,
  retrieve_inode, free_inode, free_block, update_times,
}
use systems_programming_port.Wfs.Data.{blocks_of, set_block, entry_at, indir_entries}
use systems_programming_port.Wfs.File.{Answer, ok, err, touch}
use systems_programming_port.Wfs.Directory.{
  remove_dentry, dentry_to_num, dentry_at, dentry_name, dir_entries, live_entry, find_entry,
  get_inode_from_path,
}
use systems_programming_port.Wfs.Ops.{add_links}

-- The direct blocks from `i` on.
unfoldable pub free_direct : ℕ → ℕ → ℕ → Disk → Disk
unfolding free_block
free_direct zero i ino d = d
free_direct (suc n) i ino d =
    let freed = set_block ino i 0 (free_block (blocks_of d ino i) d) in
    free_direct n (i + 1) ino (if blocks_of d ino i == 0 then d else freed)

-- The entries of an indirect block from `j` on.
unfoldable pub free_entries : ℕ → ℕ → ℕ → Disk → Disk
unfolding free_block load store_num
free_entries zero j ind d = d
free_entries (suc n) j ind d =
    let blk = load 8 (entry_at ind j) d.mem in
    let e = free_block blk d in
    let freed = record e { mem = store_num 8 (entry_at ind j) 0 e.mem } in
    free_entries n (j + 1) ind (if blk == 0 then d else freed)

unfoldable pub free_indirect : ℕ → Disk → Disk
unfolding free_entries free_block
free_indirect ino d =
    let e = free_entries indir_entries 0 (blocks_of d ino ind_block) d in
    let freed = set_block ino ind_block 0 (free_block (blocks_of e ino ind_block) e) in
    if blocks_of d ino ind_block == 0 then d else freed

unfoldable pub free_file : ℕ → Disk → Disk
unfolding free_direct free_indirect free_inode
free_file ino d = free_inode ino (free_indirect ino (free_direct d_block 0 ino d))

-- The parent, and the inode that a name of it leads to.
pub data Target : Type 0 where
  target : (parent inum ino : ℕ) → Target
  no_target : Errno → Target

unfoldable pub find_target : Bytes → Bytes → Disk → Target
unfolding get_inode_from_path dentry_to_num retrieve_inode
find_target dir name d = elim (get_inode_from_path dir d) [
  | err e ↦ no_target e
  | ok parent ↦
      if not (is_dir (d.inodes parent).kind)
      then no_target enotdir
      else elim (dentry_to_num name parent d) [
        | err e ↦ no_target e
        | ok inum ↦ elim (retrieve_inode inum d) [
          | none ↦ no_target enoent
          | some ino ↦ target parent inum ino
        ]
      ]
]

abbrev pub unlink_done : ℕ → ℕ → ℕ → Answer ℕ × Disk → Answer ℕ × Disk
unlink_done now parent ino (err e, d) = (err e, d)
unlink_done now parent ino (ok n, d) =
    let d' = add_links ino ((d.inodes ino).nlinks - 1) d in
    let freed = free_file ino d' in
    (ok 0, touch now parent false true true (if (d'.inodes ino).nlinks == 0 then freed else d'))

unfoldable pub wfs_unlink : ℕ → Bytes → Disk → Answer ℕ × Disk
unfolding clean_path split_path find_target remove_dentry free_file update_times str_eq
wfs_unlink now path d = elim (split_path (clean_path path)) [
  | refused e ↦ (err e, d)
  | parts dir name ↦
      if str_eq name (codes ".") || str_eq name (codes "..")
      then (err eperm, d)
      else elim (find_target dir name d) [
        | no_target e ↦ (err e, d)
        | target parent inum ino ↦
            if is_dir (d.inodes ino).kind
            then (err eisdir, d)
            else unlink_done now parent ino (remove_dentry now parent inum d)
      ]
]

-- An entry that keeps a directory from being removed.
unfoldable pub keeps_dir : Disk → ℕ → ℕ → Bool
unfolding live_entry dentry_name str_eq
keeps_dir d ino idx =
    let name = dentry_name d (dentry_at d ino idx) in
    live_entry d ino idx && not (str_eq name (codes ".") || str_eq name (codes ".."))

abbrev pub rmdir_done : ℕ → ℕ → ℕ → Answer ℕ × Disk → Answer ℕ × Disk
rmdir_done now parent ino (err e, d) = (err e, d)
rmdir_done now parent ino (ok n, d) = (
  ok 0,
  touch now parent false true true
      (free_file ino (add_links parent ((d.inodes parent).nlinks - 1) d)),
)

unfoldable pub wfs_rmdir : ℕ → Bytes → Disk → Answer ℕ × Disk
unfolding clean_path split_path find_target remove_dentry free_file update_times str_eq find_entry
    keeps_dir
wfs_rmdir now path d =
    if str_eq (clean_path path) root then (err ebusy, d) else elim (split_path (clean_path path)) [
      | refused e ↦ (err e, d)
      | parts dir name ↦ elim (find_target dir name d) [
        | no_target e ↦ (err e, d)
        | target parent inum ino ↦
            if not (is_dir (d.inodes ino).kind)
            then (err enotdir, d)
            else elim (find_entry (keeps_dir d ino) (dir_entries d ino) 0) [
              | some idx ↦ (err enotempty, d)
              | none ↦ rmdir_done now parent ino (remove_dentry now parent inum d)
            ]
      ]
    ]
