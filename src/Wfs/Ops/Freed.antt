-- ===== src/Wfs/Ops/Freed.antt =====
-- `wfs_unlink` and `wfs_rmdir` of 01-fuse-filesystem-wfs/wfs.c give back the blocks of a file.
use systems_programming_port.Prelude.{
  ℕ, zero, suc, ◌+◌, ◌≤◌, ◌<◌, ◌≡◌, refl, sym, ap, subst, ◌∙◌, ◌≢◌, inl, inr, ◌&&◌, arith, ◌==◌,
  if◌then◌else◌, Bool-cases, ==_refl, ==→eq, ==→ne,
}
use systems_programming_port.Prelude.{◌^◌, ltb, ltb→lt, ltb→ge, lt→ltb, true, false, inl, inr}
use systems_programming_port.Wfs.Bitmap.{bitmap_test}
use systems_programming_port.Wfs.Memory.{load, store_num}
use systems_programming_port.Wfs.Disk.{Disk, d_block, ind_block, block_at, free_block, free_inode}
use systems_programming_port.Wfs.Data.{blocks_of, entry_at, indir_entries, set_block}
use systems_programming_port.Wfs.Data.Slots.{ptr, content, Sound}
use systems_programming_port.Wfs.Data.Find.{high_slot}
use systems_programming_port.Wfs.Data.Drop.{Drops, Spares, Spares-trans, freed, free_block-IsUsed}
use systems_programming_port.Wfs.Data.Returned.{Gives, Gives-refl, Gives-trans, Drops-Gives}
use systems_programming_port.Wfs.Data.Erase.{erased-Drops}
use systems_programming_port.Wfs.Ops.Wipe.{free_inode-Spares}
use systems_programming_port.Wfs.Ops.Remove.{free_direct, free_entries, free_indirect, free_file}
use systems_programming_port.Wfs.Ops.FreedDirect.{cut-Gives, own_slot, free_direct-Gives}

-- The entries below `j` of the indirect block are null.
record Emptied (d : Disk) (ino ind j : ℕ) (d' : Disk) : Type 0 where
  spares : Gives d ino d'
  array : blocks_of d' ino ind_block ≡ ind
  null : (k : ℕ) → k < j → ptr d' ino (k + 8) ≡ 0

abbrev erase_entry : ℕ → ℕ → Disk → Disk
erase_entry ind j e = record e { mem = store_num 8 (entry_at ind j) 0 e.mem }

entry_dropped :
    (d : Disk) (ino ind j : ℕ)
    → d.num_data_blocks ≤ 2 ^ 32
    → Sound d
    → j < 64
    → ind ≢ 0
    → blocks_of d ino ind_block ≡ ind
    → load 8 (entry_at ind j) d.mem ≢ 0
    → (let after = erase_entry ind j (free_block (load 8 (entry_at ind j) d.mem) d) in
        Drops d ino (j + 8) after × (blocks_of after ino ind_block ≡ blocks_of d ino ind_block))
entry_dropped d ino ind j few v lt nz at there =
    let array : blocks_of d ino ind_block ≢ 0 = λ z. nz (sym at ∙ z) in
    let entry : ptr d ino (j + 8) ≡ load 8 (entry_at ind j) d.mem =
      high_slot d ino j lt array ∙ ap (λ p. load 8 (entry_at p j) d.mem) at in
    let used : ptr d ino (j + 8) ≢ 0 = λ z. there (sym entry ∙ z) in
    let same : free_block (load 8 (entry_at ind j) d.mem) d ≡ freed (ptr d ino (j + 8)) d =
      ap (λ p. free_block p d) (sym entry)
      ∙ free_block-IsUsed d (ptr d ino (j + 8)) few (v.valid ino (j + 8) used) in
    subst
      (λ (x : Disk).
        Drops d ino (j + 8) (erase_entry ind j x)
        × (blocks_of (erase_entry ind j x) ino ind_block ≡ blocks_of d ino ind_block))
      (sym same)
      (
        subst (λ p. Drops d ino (j + 8) (erase_entry p j (freed (ptr d ino (j + 8)) d))) at
            (erased-Drops d v ino j lt array used),
        refl,
      )

-- One entry of the loop.
entry_step :
    (ino ind j : ℕ) (d d' : Disk)
    → d.num_data_blocks ≤ 2 ^ 32
    → ind ≢ 0
    → j < 64
    → Emptied d ino ind j d'
    → Emptied d ino ind (j + 1) (
        if load 8 (entry_at ind j) d'.mem == 0
        then d'
        else erase_entry ind j (free_block (load 8 (entry_at ind j) d'.mem) d'))
entry_step ino ind j d d' few nz lt m = elim (Bool-cases (load 8 (entry_at ind j) d'.mem == 0)) [
  | inl zero_there ↦
      let entry : ptr d' ino (j + 8) ≡ 0 =
        high_slot d' ino j lt (λ z. nz (sym m.array ∙ z))
        ∙ (ap (λ p. load 8 (entry_at p j) d'.mem) m.array ∙ ==→eq _ _ zero_there) in
      rw zero_there (record {
        spares = m.spares;
        array = m.array;
        null = λ k below. elim (Bool-cases (k == j)) [
          | inl last ↦ ap (λ n. ptr d' ino (n + 8)) (==→eq _ _ last) ∙ entry
          | inr earlier ↦ m.null k (omega (arith, below, ==→ne _ _ earlier))
        ];
      })
  | inr there ↦
      let after = erase_entry ind j (free_block (load 8 (entry_at ind j) d'.mem) d') in
      let (g, array) =
        entry_dropped d' ino ind j (omega (arith, few, m.spares.2.count)) m.spares.0 lt nz m.array
          (==→ne _ _ there) in
      rw there (record {
        spares =
            Gives-trans d d' after ino m.spares (Drops-Gives d' after ino (j + 8) m.spares.0 g);
        array = array ∙ m.array;
        null = λ k below. g.ptrs ino (k + 8) ∙ still_null k below;
      })
]
  where
    still_null :
        (k : ℕ)
        → k < j + 1
        → (if (ino == ino) && ((k + 8) == (j + 8)) then 0 else ptr d' ino (k + 8)) ≡ 0
    still_null k below = elim (Bool-cases ((k + 8) == (j + 8))) [
      | inl last ↦ rw (==_refl ino, last) refl
      | inr earlier ↦ rw (==_refl ino, earlier) (m.null k (omega (arith, below, ==→ne _ _ earlier)))
    ]

free_entries-Emptied :
    (n j ino ind : ℕ) (d d' : Disk)
    → d.num_data_blocks ≤ 2 ^ 32
    → ind ≢ 0
    → n + j ≡ 64
    → Emptied d ino ind j d'
    → Emptied d ino ind 64 (free_entries n j ind d')
unfolding free_entries
free_entries-Emptied zero j ino ind d d' few nz h m =
    let all : j ≡ 64 = omega (arith, h) in subst (λ k. Emptied d ino ind k d') all m
free_entries-Emptied (suc n) j ino ind d d' few nz h m =
    free_entries-Emptied n (j + 1) ino ind d _ few nz (omega (arith, h))
      (entry_step ino ind j d d' few nz (omega (arith, h)) m)

no_slot : (d : Disk) (ino t : ℕ) → 72 ≤ t → ptr d ino t ≡ 0
unfolding ptr
no_slot d ino t h =
    let near : ltb t 8 ≡ false = ground (arith, h) in
    let inside : ltb t 72 ≡ false = ground (arith, h) in rw (near, inside) refl

no_array :
    (d : Disk) (ino : ℕ)
    → blocks_of d ino ind_block ≡ 0
    → (t : ℕ) → 7 ≤ t
    → t < 72
    → ptr d ino t ≡ 0
unfolding ptr
no_array d ino null t lo hi = elim (Bool-cases (ltb t 8)) [
  | inl low ↦
      let seven : 7 ≡ t = omega (arith, lo, ltb→lt _ _ low) in
      rw low (subst (λ k. blocks_of d ino k ≡ 0) seven null)
  | inr high ↦ let inside : ltb t 72 ≡ true = lt→ltb _ _ hi in rw (high, inside, null) refl
]

free_indirect-Gives :
    (ino : ℕ) (d : Disk)
    → d.num_data_blocks ≤ 2 ^ 32
    → Sound d
    → Gives d ino (free_indirect ino d)
      × ((t : ℕ) → 7 ≤ t → t < 72 → ptr (free_indirect ino d) ino t ≡ 0)
unfolding free_indirect
free_indirect-Gives ino d few v = elim (Bool-cases (blocks_of d ino ind_block == 0)) [
  | inl null ↦ rw null (Gives-refl d ino v, no_array d ino (==→eq _ _ null))
  | inr there ↦
      let nz = ==→ne _ _ there in
      let e = free_entries indir_entries 0 (blocks_of d ino ind_block) d in
      let m = free_entries-Emptied 64 0 ino (blocks_of d ino ind_block) d d few nz refl (record {
        spares = Gives-refl d ino v;
        array = refl;
        null = λ k below. absurd (omega (arith, below));
      }) in
      let last =
        cut-Gives e ino ind_block (omega (arith, few, m.spares.2.count)) m.spares.0 (omega arith)
          (λ z. nz (sym m.array ∙ z)) (λ seven j lt. m.null j lt) in
      rw there (
        Gives-trans d e _ ino m.spares last,
        no_array (set_block ino ind_block 0 (free_block (blocks_of e ino ind_block) e)) ino
            (own_slot e ino ind_block),
      )
]

-- On a sound disk of at most 2^32 blocks, giving back a file (its data blocks, those that the indirect block names and
-- the indirect block itself, and the inode) marks every block that a pointer of the file named as free (the slot 6 of
-- the inode is never used), and leaves the disk sound, every other file with the bytes that it had, and nothing in
-- the file.
pub free_file_lem :
    (ino : ℕ) (d : Disk)
    → d.num_data_blocks ≤ 2 ^ 32
    → Sound d
    → Spares d ino (free_file ino d)
      × ((x : ℕ) → content (free_file ino d) ino x ≡ 0)
      × ((t q : ℕ)
          → t ≢ 6
          → ptr d ino t ≢ 0
          → block_at d q ≡ ptr d ino t
          → bitmap_test q (free_file ino d).dbm ≡ false)
unfolding free_file free_inode
free_file_lem ino d few v =
    let e = free_direct d_block 0 ino d in
    let f = free_indirect ino e in
    let (direct, near) = free_direct-Gives d_block 0 ino d few v (omega arith) in
    let (indirect, far) = free_indirect-Gives ino e (omega (arith, few, direct.2.count)) direct.0 in
    let both = Gives-trans d e f ino direct indirect in
    let (last, empty) = free_inode-Spares f ino both.0 in
    let gone : (t : ℕ) → t ≢ 6 → ptr f ino t ≡ 0 = λ t ne. elim (Bool-cases (ltb t 6)) [
      | inl low ↦ indirect.2.null t (near t (omega arith) (omega (arith, ltb→lt _ _ low)))
      | inr high ↦ elim (Bool-cases (ltb t 72)) [
        | inl inside ↦ far t (omega (arith, ne, ltb→ge _ _ high)) (ltb→lt _ _ inside)
        | inr past ↦ no_slot f ino t (ltb→ge _ _ past)
      ]
    ] in
    (
      Spares-trans d f (free_inode ino f) ino (both.0, both.1) last,
      empty,
      λ t q ne nz at. elim (both.2.back t q nz at) [
        | inl same ↦ absurd (nz (sym same ∙ gone t ne))
        | inr free ↦ free
      ],
    )
