-- ===== src/Wfs/Directory.antt =====
-- 01-fuse-filesystem-wfs/wfs.c: directory entries, and the way from a path to an inode. An entry is the 28
-- bytes of its name and the 4 of its number, which is below 2^31.
pub mod Entries
pub mod Paths
use systems_programming_port.Prelude.{
  ℕ, zero, suc, ◌+◌, ◌-◌, ◌*◌, ◌/◌, ◌%◌, Bool, true, false, not, ◌&&◌, ◌||◌, Option, none, some,
  List, [], ◌∷◌, length, take, ltb, leb, ◌==◌, if◌then◌else◌, Bytes, str_eq,
}
use systems_programming_port.Wfs.Memory.{poke, peek, load, memset_zero, store_num}
use systems_programming_port.Wfs.Path.{components, root}
use systems_programming_port.Wfs.Disk.{
  Disk, Errno, enoent, enotdir, eexist, enametoolong, enospc, is_dir, block_size, max_name, d_block,
  with_inode, retrieve_inode, update_times,
}
use systems_programming_port.Wfs.Data.{blocks_of, fill_direct, clear_array}
use systems_programming_port.Wfs.File.{Answer, ok, err, touch, least}

abbrev pub dentry_size : ℕ
dentry_size = 32

abbrev pub entries_per_block : ℕ
entries_per_block = block_size / dentry_size

-- Up to the first NUL.
abbrev pub cut_nul : Bytes → Bytes
cut_nul [] = []
cut_nul (c ∷ cs) = if c == 0 then [] else c ∷ cut_nul cs

abbrev pub dentry_num : Disk → ℕ → ℕ
dentry_num d a = load 4 (a + max_name) d.mem

unfoldable pub dentry_name : Disk → ℕ → Bytes
unfolding peek
dentry_name d a = cut_nul (peek a max_name d.mem)

-- The place of an entry in a block of the directory.
abbrev pub dentry_at : Disk → ℕ → ℕ → ℕ
dentry_at d ino idx =
    blocks_of d ino (idx / entries_per_block) + idx % entries_per_block * dentry_size

abbrev pub free_entry : Disk → ℕ → Bool
free_entry d a = (dentry_num d a == 0) || (d.mem a == 0)

-- The entry is in a block that is there, and in use.
unfoldable pub live_entry : Disk → ℕ → ℕ → Bool
unfolding load
live_entry d ino idx =
    not (blocks_of d ino (idx / entries_per_block) == 0) && not (free_entry d (dentry_at d ino idx))

-- The first entry that passes the test, of `count` entries from `idx` on in the direct blocks.
unfoldable pub find_entry : (ℕ → Bool) → ℕ → ℕ → Option ℕ
find_entry test zero idx = none
find_entry test (suc count) idx =
    let rest = find_entry test count (idx + 1) in
    if leb d_block (idx / entries_per_block) then none else if test idx then some idx else rest

abbrev pub dir_entries : Disk → ℕ → ℕ
dir_entries d ino = (d.inodes ino).size / dentry_size

-- `strncmp(d->name, name, MAX_NAME) == 0` on an entry that is in use.
unfoldable pub named_entry : Bytes → Disk → ℕ → ℕ → Bool
unfolding live_entry dentry_name str_eq
named_entry name d ino idx =
    live_entry d ino idx && str_eq (dentry_name d (dentry_at d ino idx)) (take max_name name)

unfoldable pub dentry_to_num : Bytes → ℕ → Disk → Answer ℕ
unfolding find_entry named_entry
dentry_to_num name ino d =
    if not (is_dir (d.inodes ino).kind)
    then err enotdir
    else elim (find_entry (named_entry name d ino) (dir_entries d ino) 0) [
      | none ↦ err enoent
      | some idx ↦ ok (dentry_num d (dentry_at d ino idx))
    ]

abbrev pub error_of : Disk → Errno
error_of d = elim d.wfs_error [ none ↦ enospc | some e ↦ e ]

-- The block of the directory, made where it is not there.
unfoldable pub dir_block : ℕ → ℕ → Disk → Option ℕ × Disk
unfolding fill_direct clear_array
dir_block ino blk d =
    if blocks_of d ino blk == 0
    then (let (b, d') = fill_direct ino blk d in clear_array b d')
    else (some (blocks_of d ino blk), d)

abbrev pub dir_size : ℕ → ℕ → Disk → Disk
dir_size ino needed d =
    if ltb ((d.inodes ino).size) needed
    then with_inode ino (record (d.inodes ino) { size = needed }) d
    else d

-- The name and number stored in a free entry.
unfoldable pub store_dentry : ℕ → ℕ → Bytes → Disk → Disk
unfolding store_num memset_zero poke
store_dentry a num name d = record d {
  mem =
      store_num 4 (a + max_name) num
        (poke a (take (max_name - 1) name) (memset_zero a max_name d.mem));
}

unfoldable pub place_dentry : ℕ → ℕ → ℕ → ℕ → ℕ → Bytes → Disk → Disk
unfolding store_dentry update_times
place_dentry now ino idx a num name d =
    touch now ino false true true
      (dir_size ino ((idx + 1) * dentry_size) (store_dentry a num name d))

unfoldable pub add_from : ℕ → ℕ → ℕ → Bytes → ℕ → ℕ → Disk → Answer ℕ × Disk
unfolding dir_block place_dentry load
add_from now ino num name zero idx d = (err enospc, d)
add_from now ino num name (suc count) idx d =
    let (b, d') = dir_block ino (idx / entries_per_block) d in
    elim b [
      | none ↦ (err (error_of d'), d')
      | some blk ↦
          let a = blk + idx % entries_per_block * dentry_size in
          let rest = add_from now ino num name count (idx + 1) d' in
          if free_entry d' a then (ok 0, place_dentry now ino idx a num name d') else rest
    ]

abbrev pub holds_name : Answer ℕ → Bool
holds_name (ok n) = true
holds_name (err e) = false

unfoldable pub add_dentry : ℕ → ℕ → ℕ → Bytes → Disk → Answer ℕ × Disk
unfolding dentry_to_num add_from
add_dentry now ino num name d =
    let nlen = least (length name) max_name in
    if not (is_dir (d.inodes ino).kind)
    then (err enotdir, d)
    else if holds_name (dentry_to_num name ino d)
    then (err eexist, d)
    else if (nlen == 0) || leb max_name nlen
    then (err enametoolong, d)
    else add_from now ino num name (d_block * entries_per_block) 0 d

unfoldable pub numbered_entry : ℕ → Disk → ℕ → ℕ → Bool
unfolding load
numbered_entry inum d ino idx =
    not (blocks_of d ino (idx / entries_per_block) == 0)
    && (dentry_num d (dentry_at d ino idx) == inum)
    && not (dentry_num d (dentry_at d ino idx) == 0)

unfoldable pub clear_dentry : ℕ → Disk → Disk
unfolding store_num poke
clear_dentry a d = record d { mem = poke a (0 ∷ []) (store_num 4 (a + max_name) 0 d.mem) }

unfoldable pub remove_dentry : ℕ → ℕ → ℕ → Disk → Answer ℕ × Disk
unfolding find_entry numbered_entry clear_dentry update_times
remove_dentry now ino inum d =
    if not (is_dir (d.inodes ino).kind)
    then (err enotdir, d)
    else elim (find_entry (numbered_entry inum d ino) (dir_entries d ino) 0) [
      | none ↦ (err enoent, d)
      | some idx ↦ (ok 0, touch now ino false true true (clear_dentry (dentry_at d ino idx) d))
    ]

-- From an inode through the names of a path.
unfoldable pub walk : List Bytes → ℕ → Disk → Answer ℕ
unfolding dentry_to_num retrieve_inode
walk [] cur d = ok cur
walk (comp ∷ comps) cur d = elim (dentry_to_num comp cur d) [
  | err e ↦ err e
  | ok child ↦ elim (retrieve_inode child d) [ none ↦ err enoent | some next ↦ walk comps next d ]
]

unfoldable pub get_inode_from_path : Bytes → Disk → Answer ℕ
unfolding walk retrieve_inode components str_eq
get_inode_from_path path d = elim (retrieve_inode 0 d) [
  | none ↦ err enoent
  | some cur ↦ if str_eq path root then ok cur else walk (components path) cur d
]
