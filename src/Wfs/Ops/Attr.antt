-- ===== src/Wfs/Ops/Attr.antt =====
-- 01-fuse-filesystem-wfs/wfs.c: `wfs_statfs`, and the color of a file as an extended attribute.
use systems_programming_port.Prelude.{
  ℕ, zero, suc, ◌+◌, true, false, not, none, some, [], ◌∷◌, ◌++◌, length, ltb, leb, ◌==◌,
  if◌then◌else◌, Bytes, codes, str_eq,
}
use systems_programming_port.Wfs.Bitmap.{Bitmap, bitmap_test}
use systems_programming_port.Wfs.Path.{clean_path}
use systems_programming_port.Wfs.Color.{parse_color_name, wfs_color_from_code}
use systems_programming_port.Wfs.Disk.{
  Disk, einval, enotsup, erange, block_size, max_name, with_inode, valid_inum, update_times,
}
use systems_programming_port.Wfs.File.{Answer, ok, err, touch}
use systems_programming_port.Wfs.Directory.{get_inode_from_path, cut_nul}

-- The clear bits of positions `i` to `i + n - 1`.
unfoldable pub count_free : ℕ → ℕ → Bitmap → ℕ
unfolding bitmap_test
count_free zero i bm = 0
count_free (suc n) i bm = (if bitmap_test i bm then 0 else 1) + count_free n (i + 1) bm

pub record StatVfs : Type 0 where
  pub bsize : ℕ
  pub frsize : ℕ
  pub blocks : ℕ
  pub bfree : ℕ
  pub bavail : ℕ
  pub files : ℕ
  pub ffree : ℕ
  pub favail : ℕ
  pub namemax : ℕ

unfoldable pub wfs_statfs : Disk → StatVfs
unfolding count_free
wfs_statfs d = record {
  bsize = block_size;
  frsize = block_size;
  blocks = d.num_data_blocks;
  bfree = count_free d.num_data_blocks 0 d.dbm;
  bavail = count_free d.num_data_blocks 0 d.dbm;
  files = d.num_inodes;
  ffree = count_free d.num_inodes 0 d.ibm;
  favail = count_free d.num_inodes 0 d.ibm;
  namemax = max_name;
}

abbrev pub color_key : Bytes
color_key = codes "user.color"

-- The inode of the path, for the attribute that there is.
unfoldable pub color_inode : Bytes → Bytes → Disk → Answer ℕ
unfolding get_inode_from_path clean_path str_eq
color_inode path name d =
    if not (str_eq name color_key)
    then err enotsup
    else elim (get_inode_from_path (clean_path path) d) [
      | err e ↦ err e
      | ok ino ↦ if valid_inum ((d.inodes ino).num) d then ok ino else err einval
    ]

abbrev pub paint : ℕ → ℕ → ℕ → Disk → Disk
paint now ino code d =
    touch now ino false false true (with_inode ino (record (d.inodes ino) { color = code }) d)

-- The value is the `size` bytes that the caller gives.
unfoldable pub set_color : ℕ → ℕ → Bytes → Disk → Answer ℕ × Disk
unfolding parse_color_name update_times
set_color now ino value d =
    if length value == 0
    then (err einval, d)
    else if leb 32 (length value)
    then (err erange, d)
    else elim (parse_color_name (cut_nul value)) [
      | none ↦ (err einval, d)
      | some code ↦ (ok 0, paint now ino code d)
    ]

unfoldable pub wfs_setxattr : ℕ → Bytes → Bytes → Bytes → Disk → Answer ℕ × Disk
unfolding color_inode set_color
wfs_setxattr now path name value d = elim (color_inode path name d) [
  | err e ↦ (err e, d)
  | ok ino ↦ set_color now ino value d
]

-- The answer, and what stands in the caller's buffer of `size` bytes from its start.
unfoldable pub give_color : ℕ → Bytes → Answer (ℕ × Bytes)
give_color size cname =
    let needed = length cname in
    if size == 0
    then ok (needed, [])
    else if ltb size needed
    then err erange
    else ok (needed, if ltb needed size then cname ++ (0 ∷ []) else cname)

unfoldable pub wfs_getxattr : Bytes → Bytes → ℕ → Disk → Answer (ℕ × Bytes)
unfolding color_inode wfs_color_from_code give_color
wfs_getxattr path name size d = elim (color_inode path name d) [
  | err e ↦ err e
  | ok ino ↦ give_color size ((wfs_color_from_code (d.inodes ino).color).name)
]

unfoldable pub wfs_removexattr : ℕ → Bytes → Bytes → Disk → Answer ℕ × Disk
unfolding color_inode update_times
wfs_removexattr now path name d = elim (color_inode path name d) [
  | err e ↦ (err e, d)
  | ok ino ↦ (ok 0, paint now ino 0 d)
]
