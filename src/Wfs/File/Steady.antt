-- ===== src/Wfs/File/Steady.antt =====
-- What 01-fuse-filesystem-wfs/wfs.c leaves of the inodes when it takes blocks and stores bytes.
use systems_programming_port.Prelude.{
  ℕ, zero, suc, ◌+◌, ◌-◌, ◌/◌, ◌≡◌, refl, ◌∙◌, inl, inr, Bool, true, ◌&&◌, Option, none, some,
  length, take, drop, ltb, leb, ◌==◌, Bool-cases, Bytes, ==→eq,
}
use systems_programming_port.Wfs.Memory.{poke, load}
use systems_programming_port.Wfs.Bitmap.{allocate_block}
use systems_programming_port.Wfs.Disk.{
  Disk, block_size, ind_block, bitmap_len_words, give_block, allocate_data_block,
}
use systems_programming_port.Wfs.Data.{
  blocks_of, max_blocks, link_block, fill_direct, direct_block, clear_array, indirect_array,
  enter_block, indirect_block, file_block, data_offset, set_block, entry_at,
}
use systems_programming_port.Wfs.File.{chunk_of, Wrote, finished, stopped, out_of_fuel, write_loop}

-- The same sizes and kinds of all inodes, and the same inodes in use.
abbrev pub Steady : Disk → Disk → Type 0
Steady d e =
    (i : ℕ)
    → ((e.inodes i).size ≡ (d.inodes i).size)
      × ((e.inodes i).kind ≡ (d.inodes i).kind)
      × (e.ibm ≡ d.ibm)
      × (e.num_inodes ≡ d.num_inodes)

still : (d : Disk) → Steady d d
still d i = (refl, refl, refl, refl)

Steady-trans : (d e f : Disk) → Steady d e → Steady e f → Steady d f
Steady-trans d e f a b i =
    let (size, kind, ibm, count) = a i in
    let (size', kind', ibm', count') = b i in
    (size' ∙ size, kind' ∙ kind, ibm' ∙ ibm, count' ∙ count)

set_block-Steady : (ino s blk : ℕ) (d : Disk) → Steady d (set_block ino s blk d)
set_block-Steady ino s blk d i = elim (Bool-cases (ino == i)) [
  | inl own ↦ rw (own, ==→eq _ _ own) (refl, refl, refl, refl)
  | inr other ↦ rw other (refl, refl, refl, refl)
]

give_block-Steady : (o : Option ℕ) (d : Disk) → Steady d (give_block o d).1
unfolding give_block
give_block-Steady none d i = (refl, refl, refl, refl)
give_block-Steady (some idx) d i = elim (Bool-cases (ltb idx d.num_data_blocks)) [
  | inl t ↦ rw t (refl, refl, refl, refl)
  | inr f ↦ rw f (refl, refl, refl, refl)
]

allocate_data_block-Steady : (d : Disk) → Steady d (allocate_data_block d).1
unfolding allocate_data_block
allocate_data_block-Steady d i =
    give_block-Steady (allocate_block d.dbm (bitmap_len_words d.num_data_blocks)).0
      (record d { dbm = (allocate_block d.dbm (bitmap_len_words d.num_data_blocks)).1 }) i

link_block-Steady : (ino s blk : ℕ) (d : Disk) → Steady d (link_block ino s blk d).1
unfolding link_block
link_block-Steady ino s blk d i = elim (Bool-cases (blk == 0)) [
  | inl z ↦ rw z (refl, refl, refl, refl)
  | inr nz ↦ rw nz (set_block-Steady ino s blk d i)
]

enter_block-Steady : (ind j blk : ℕ) (d : Disk) → Steady d (enter_block ind j blk d).1
unfolding enter_block
enter_block-Steady ind j blk d i = elim (Bool-cases (blk == 0)) [
  | inl z ↦ rw z (refl, refl, refl, refl)
  | inr nz ↦ rw nz (refl, refl, refl, refl)
]

clear_array-Steady : (o : Option ℕ) (d : Disk) → Steady d (clear_array o d).1
unfolding clear_array
clear_array-Steady none d i = (refl, refl, refl, refl)
clear_array-Steady (some ind) d i = (refl, refl, refl, refl)

fill_direct-Steady : (ino s : ℕ) (d : Disk) → Steady d (fill_direct ino s d).1
unfolding fill_direct
fill_direct-Steady ino s d =
    Steady-trans d (allocate_data_block d).1
      (link_block ino s (allocate_data_block d).0 (allocate_data_block d).1).1
      (allocate_data_block-Steady d)
      (link_block-Steady ino s (allocate_data_block d).0 (allocate_data_block d).1)

direct_block-Steady :
    (ino s : ℕ) (alloc : Bool) (d : Disk) → Steady d (direct_block ino s alloc d).1
unfolding direct_block
direct_block-Steady ino s alloc d i = elim (Bool-cases ((blocks_of d ino s == 0) && alloc)) [
  | inl t ↦ rw t (fill_direct-Steady ino s d i)
  | inr f ↦ rw f (refl, refl, refl, refl)
]

indirect_array-Steady :
    (ino : ℕ) (alloc : Bool) (d : Disk) → Steady d (indirect_array ino alloc d).1
unfolding indirect_array
indirect_array-Steady ino alloc d i =
    elim (Bool-cases ((blocks_of d ino ind_block == 0) && alloc)) [
      | inl t ↦ rw t (
          Steady-trans d (fill_direct ino ind_block d).1
            (clear_array (fill_direct ino ind_block d).0 (fill_direct ino ind_block d).1).1
            (fill_direct-Steady ino ind_block d) (clear_array-Steady _ _) i)
      | inr f ↦ rw f (refl, refl, refl, refl)
    ]

indirect_block-Steady :
    (o : Option ℕ) (j : ℕ) (alloc : Bool) (d : Disk) → Steady d (indirect_block o j alloc d).1
unfolding indirect_block
indirect_block-Steady none j alloc d i = (refl, refl, refl, refl)
indirect_block-Steady (some ind) j alloc d i =
    elim (Bool-cases ((load 8 (entry_at ind j) d.mem == 0) && alloc)) [
      | inl t ↦ rw t (
          Steady-trans d (allocate_data_block d).1
            (enter_block ind j (allocate_data_block d).0 (allocate_data_block d).1).1
            (allocate_data_block-Steady d) (enter_block-Steady ind j _ _) i)
      | inr f ↦ rw f (refl, refl, refl, refl)
    ]

file_block-Steady : (ino k : ℕ) (alloc : Bool) (d : Disk) → Steady d (file_block ino k alloc d).1
unfolding file_block
file_block-Steady ino k alloc d i = elim (Bool-cases (leb max_blocks k)) [
  | inl past ↦ rw past (refl, refl, refl, refl)
  | inr inside ↦ elim (Bool-cases (ltb k 6)) [
    | inl near ↦ rw (inside, near) (direct_block-Steady ino k alloc d i)
    | inr far ↦
        rw (inside, far)
          (Steady-trans d (indirect_array ino alloc d).1
            (indirect_block (indirect_array ino alloc d).0 (k - 6) alloc
              (indirect_array ino alloc d).1).1
            (indirect_array-Steady ino alloc d)
            (indirect_block-Steady (indirect_array ino alloc d).0 (k - 6) alloc
              (indirect_array ino alloc d).1)
            i)
  ]
]

pub data_offset-Steady :
    (ino off : ℕ) (alloc : Bool) (d : Disk) → Steady d (data_offset ino off alloc d).1
unfolding data_offset
data_offset-Steady ino off alloc d = file_block-Steady ino (off / block_size) alloc d

-- The sizes and kinds after the loop of `wfs_write`.
abbrev pub SteadyAfter : Disk → Wrote → Type 0
SteadyAfter d (finished e) = Steady d e
SteadyAfter d (stopped e) = Steady d e
SteadyAfter d out_of_fuel = Steady d d

SteadyAfter-trans : (d e : Disk) (w : Wrote) → Steady d e → SteadyAfter e w → SteadyAfter d w
SteadyAfter-trans d e (finished f) a b = Steady-trans d e f a b
SteadyAfter-trans d e (stopped f) a b = Steady-trans d e f a b
SteadyAfter-trans d e out_of_fuel a b = still d

stored_step :
    (o : Option ℕ) (d e : Disk) (n : ℕ) (buf : Bytes) (more : Disk → Wrote)
    → Steady d e
    → ((f : Disk) → SteadyAfter f (more f))
    → SteadyAfter d
        (elim o [ none ↦ stopped e | some a ↦ more (record e { mem = poke a (take n buf) e.mem }) ])
stored_step none d e n buf more s ih = s
stored_step (some a) d e n buf more s ih =
    SteadyAfter-trans d (record e { mem = poke a (take n buf) e.mem })
      (more (record e { mem = poke a (take n buf) e.mem })) s (ih _)

pub write_loop-Steady :
    (fuel ino cur : ℕ) (buf : Bytes) (d : Disk) → SteadyAfter d (write_loop fuel ino cur buf d)
unfolding write_loop
write_loop-Steady zero ino cur buf d = still d
write_loop-Steady (suc fuel) ino cur buf d = elim (Bool-cases (length buf == 0)) [
  | inl t ↦ rw t (still d)
  | inr f ↦ rw f (
      stored_step (data_offset ino cur true d).0 d (data_offset ino cur true d).1
        (chunk_of (length buf) cur) buf _ (data_offset-Steady ino cur true d)
        (λ f.
          write_loop-Steady fuel ino (cur + chunk_of (length buf) cur)
            (drop (chunk_of (length buf) cur) buf) f))
]
