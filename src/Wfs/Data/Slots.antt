-- ===== src/Wfs/Data/Slots.antt =====
-- The abstract view of the disk of 01-fuse-filesystem-wfs/wfs.c: where each inode's block pointers
-- stand, and the bytes that a file holds.
use systems_programming_port.Prelude.{
  ℕ, ◌+◌, ◌-◌, ◌*◌, ◌/◌, ◌%◌, ◌^◌, ◌<◌, ◌≡◌, ◌≢◌, true, ltb, ◌==◌, if◌then◌else◌,
}
use systems_programming_port.Wfs.Memory.{load}
use systems_programming_port.Wfs.Bitmap.{bitmap_test}
use systems_programming_port.Wfs.Disk.{Disk, block_size, d_block, ind_block, block_at}
use systems_programming_port.Wfs.Data.{blocks_of, entry_at, max_blocks}

-- The slots of an inode's pointers: 0 to 7 in the inode, 8 to 71 in its indirect block.
abbrev pub indirect_ptr : Disk → ℕ → ℕ → ℕ
indirect_ptr d ino j =
    if blocks_of d ino ind_block == 0
    then 0
    else load 8 (entry_at (blocks_of d ino ind_block) j) d.mem

unfoldable pub ptr : Disk → ℕ → ℕ → ℕ
ptr d ino s =
    if ltb s 8 then blocks_of d ino s else if ltb s 72 then indirect_ptr d ino (s - 8) else 0

-- The slot of a block of the file.
abbrev pub data_slot : ℕ → ℕ
data_slot k = if ltb k d_block then k else k + 2

abbrev pub byte_in : Disk → ℕ → ℕ → ℕ
byte_in d p o = if p == 0 then 0 else d.mem (p + o)

-- The byte of a file at each offset: 0 in a hole, and past the last block that it can have.
unfoldable pub content : Disk → ℕ → ℕ → ℕ
unfolding ptr
content d ino x =
    if ltb (x / block_size) max_blocks
    then byte_in d (ptr d ino (data_slot (x / block_size))) (x % block_size)
    else 0

-- A data block in use.
pub record IsUsed (d : Disk) (p : ℕ) : Type 0 where
  pub idx : ℕ
  pub in_range : idx < d.num_data_blocks
  pub at : p ≡ block_at d idx
  pub marked : bitmap_test idx d.dbm ≡ true

-- Every pointer names a data block in use, and no two pointers the same one.
pub record Sound (d : Disk) : Type 0 where
  pub based : 0 < d.d_blocks_ptr
  pub fits : d.d_blocks_ptr + d.num_data_blocks * block_size < 2 ^ 63
  pub valid : (ino s : ℕ) → ptr d ino s ≢ 0 → IsUsed d (ptr d ino s)
  pub distinct :
      (ino s ino' s' : ℕ) → ptr d ino s ≢ 0 → ptr d ino s ≡ ptr d ino' s' → (ino ≡ ino') × (s ≡ s')

-- What a call leaves as it was: the layout, and every byte of every file.
pub record Same (d d' : Disk) : Type 0 where
  pub count : d'.num_data_blocks ≡ d.num_data_blocks
  pub base : d'.d_blocks_ptr ≡ d.d_blocks_ptr
  pub bytes : (ino x : ℕ) → content d' ino x ≡ content d ino x
