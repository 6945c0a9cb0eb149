-- ===== src/Wfs/Tests.antt =====
-- Concrete runs of the filesystem.
use systems_programming_port.Prelude.{
  ℕ, ◌-◌, ◌≡◌, refl, true, Option, none, some, [], ◌∷◌, arith, Bytes, codes,
}
use systems_programming_port.Wfs.Disk.{Disk, Env, enoent}
use systems_programming_port.Prelude.{replicate, ◌++◌, ◌==◌, if◌then◌else◌}
use systems_programming_port.Prelude.Maps.{update}
use systems_programming_port.Wfs.Disk.{Kind, regular, directory}
use systems_programming_port.Wfs.Directory.{get_inode_from_path}
use systems_programming_port.Wfs.File.Fields.{one-SamePtrs, inodes-Calm, ibm-Sound}
use systems_programming_port.Wfs.Ops.Trip.{wfs_read-wfs_write, wfs_write-get_inode_from_path}
use systems_programming_port.Wfs.Memory.{peek}
use systems_programming_port.Wfs.Data.{file_block}
use systems_programming_port.Wfs.Data.Slots.{Sound, data_slot, content}
use systems_programming_port.Wfs.Data.Find.{Found, file_block-Found}
use systems_programming_port.Wfs.File.{Answer, ok, err, least, read_inode, write_inode}
use systems_programming_port.Wfs.File.Trip.{ReadsAs, WritesAs, read_inode_lem, write_inode_lem}
use systems_programming_port.Wfs.Color.{strip_ansi_codes, decorated}
use systems_programming_port.Wfs.Color.Shown.{strip_ansi_codes-decorated}
use systems_programming_port.Wfs.Ops.{wfs_read, wfs_write, wfs_mknod, wfs_mkdir, wfs_readdir}
use systems_programming_port.Wfs.Ops.Remove.{wfs_unlink, free_file}
use systems_programming_port.Wfs.Ops.Freed.{free_file_lem}
use systems_programming_port.Wfs.Data.Drop.{Spares}
use systems_programming_port.Prelude.{◌≢◌, false}
use systems_programming_port.Wfs.Bitmap.{bitmap_test}
use systems_programming_port.Wfs.Disk.{block_at}
use systems_programming_port.Wfs.Data.Slots.{ptr}
use systems_programming_port.Wfs.Mkfs.{fresh_disk, layout, setup_sb, wfs_mkfs, main}
use systems_programming_port.Wfs.Mkfs.Layout.{Laid, Served, setup_sb_lem, wfs_mkfs_lem}

abbrev env : Env
env = record { now = 5; uid = 1; gid = 1 }

-- 32 inodes and 32 blocks.
abbrev small : Disk
small = fresh_disk env (layout 32 32)

small-Sound : Sound small
unfolding wfs_mkfs
small-Sound =
    (wfs_mkfs_lem env 20 32 40000 (omega arith) (omega arith) (omega arith) (omega arith)).0

abbrev text : Bytes
text = codes "abc"

abbrev disk_of : {A : Type 0} → Disk → Option (Answer A × Disk) → Disk
disk_of d none = d
disk_of d (some (a, e)) = e

abbrev answer_of : {A : Type 0} → Option (Answer A × Disk) → Option (Answer A)
answer_of none = none
answer_of (some (a, e)) = some a

-- Over the end of a block.
abbrev after : Disk
after = disk_of small (write_inode 7 1 text 510 small)

after_write : write_inode 7 1 text 510 small ≡ some (ok 3, after)
unfolding write_inode
after_write = refl

write_inode_lem_example : WritesAs small 1 510 text (write_inode 7 1 text 510 small)
write_inode_lem_example = write_inode_lem 7 1 text 510 small small-Sound refl

read_inode_lem_example :
    ReadsAs after
      (peek 509 (least 10 ((after.inodes 1).size - 509)) (content after 1))
      (read_inode 8 1 10 509 after)
unfolding write_inode
read_inode_lem_example = read_inode_lem 8 1 10 509 after refl

after-Sound : Sound after
unfolding write_inode
after-Sound = (write_inode_lem 7 1 text 510 small small-Sound refl).1

free_file_lem_example :
    Spares after 1 (free_file 1 after)
    × ((x : ℕ) → content (free_file 1 after) 1 x ≡ 0)
    × ((t q : ℕ)
        → t ≢ 6
        → ptr after 1 t ≢ 0
        → block_at after q ≡ ptr after 1 t
        → bitmap_test q (free_file 1 after).dbm ≡ false)
unfolding write_inode
free_file_lem_example = free_file_lem 1 after (omega arith) after-Sound

file_block-Found_example : Found small 1 (data_slot 9) (file_block 1 9 true small)
file_block-Found_example = file_block-Found small 1 9 small-Sound (omega arith)

wfs_mkfs_lem_example : Served 20 32 40000 (wfs_mkfs env 20 32 40000)
wfs_mkfs_lem_example =
    wfs_mkfs_lem env 20 32 40000 (omega arith) (omega arith) (omega arith) (omega arith)

setup_sb_lem_example : Laid 20 32 40000 (setup_sb 20 32 40000)
setup_sb_lem_example = setup_sb_lem 20 32 40000 (omega arith) (omega arith)

strip_ansi_codes-decorated_example : strip_ansi_codes (decorated 9 text) 4096 ≡ text
strip_ansi_codes-decorated_example =
    strip_ansi_codes-decorated 9 text 4096
      (
        (λ e. absurd (omega (arith, e))),
        ((λ e. absurd (omega (arith, e))), ((λ e. absurd (omega (arith, e))), refl)),
      )
      (omega arith)

-- A directory and a file in it, written, read, listed and removed.
abbrev made : Disk
made = ((wfs_mknod env (codes "/d/f") 33188 ((wfs_mkdir env (codes "/d") 493 small).1)).1)

abbrev written : Disk
written = disk_of made (wfs_write 7 (codes "/d/f") text 0 made)

read_back : answer_of (wfs_read 8 (codes "//d/f") 9 1 written) ≡ some (ok (codes "bc"))
unfolding wfs_mknod wfs_mkdir wfs_write wfs_read
read_back = refl

listed : (wfs_readdir 8 true (codes "/d") written).0 ≡ ok (codes "." ∷ codes ".." ∷ codes "f" ∷ [])
unfolding wfs_mknod wfs_mkdir wfs_write wfs_readdir
listed = refl

gone :
    answer_of (wfs_read 8 (codes "/d/f") 9 1 ((wfs_unlink 8 (codes "/d/f") written).1))
    ≡ some (err enoent)
unfolding wfs_mknod wfs_mkdir wfs_write wfs_unlink wfs_read
gone = refl

no_room : main env true 20 32 32824 ≡ none
unfolding main
no_room = refl

-- A root with one entry, the file `f` of the inode 1.
abbrev entry : Bytes
entry = codes "f" ++ (replicate 27 0 ++ 1 ∷ 0 ∷ 0 ∷ 0 ∷ [])

abbrev of_kind : Kind → Disk → Disk
of_kind k d = record d { inodes = update d.inodes 0 (record (d.inodes 0) { kind = k }) }

of_kind-Sound : (k : Kind) (d : Disk) → Sound d → Sound (of_kind k d)
of_kind-Sound k d v =
    (inodes-Calm d _ (one-SamePtrs d 0 (record (d.inodes 0) { kind = k }) (λ s. refl)) v).0

abbrev plain : Disk
plain = of_kind regular small

plain-Sound : Sound plain
plain-Sound = of_kind-Sound regular small small-Sound

abbrev filled : Disk
filled = disk_of plain (write_inode 7 0 entry 0 plain)

filled-Sound : Sound filled
unfolding write_inode
filled-Sound = (write_inode_lem 7 0 entry 0 plain plain-Sound refl).1

abbrev rooted : Disk
rooted = of_kind directory (record filled { ibm = λ i. if i == 0 then 3 else 0 })

rooted-Sound : Sound rooted
rooted-Sound =
    of_kind-Sound directory (record filled { ibm = λ i. if i == 0 then 3 else 0 })
      (ibm-Sound filled (λ i. if i == 0 then 3 else 0) filled-Sound)

abbrev path : Bytes
path = codes "/f"

abbrev changed : Disk
changed = disk_of rooted (wfs_write 7 path text 510 rooted)

write_changed : wfs_write 7 path text 510 rooted ≡ some (ok 3, changed)
unfolding write_inode wfs_write
write_changed = refl

wfs_read-wfs_write_example : (f : Disk) × (wfs_read 8 path 3 510 changed ≡ some (ok text, f))
wfs_read-wfs_write_example =
    wfs_read-wfs_write 7 8 path text 510 3 rooted changed rooted-Sound write_changed

wfs_write-get_inode_from_path_example :
    get_inode_from_path path changed ≡ get_inode_from_path path rooted
wfs_write-get_inode_from_path_example =
    wfs_write-get_inode_from_path 7 path text 510 rooted changed (ok 3) rooted-Sound write_changed
      path

-- With 2^22 inodes the `int` product is negative.
overflow : (layout 4194304 32).d_blocks_ptr ≡ 0xffffffff80080034
overflow = refl
