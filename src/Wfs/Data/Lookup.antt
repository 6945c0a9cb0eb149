-- ===== src/Wfs/Data/Lookup.antt =====
-- What `data_offset` of 01-fuse-filesystem-wfs/wfs.c answers when it may not allocate.
use systems_programming_port.Prelude.{
  ℕ, ◌+◌, ◌-◌, ◌<◌, ◌≡◌, refl, sym, ◌∙◌, ◌≢◌, inl, inr, Bool, true, false, ◌&&◌, Option, some,
  arith, ltb, leb, ◌==◌, if◌then◌else◌, Bool-cases, ==→eq, ==→ne, ltb→lt, ltb→ge,
}
use systems_programming_port.Wfs.Memory.{load}
use systems_programming_port.Wfs.Disk.{Disk, Errno, d_block, ind_block, enospc}
use systems_programming_port.Wfs.Data.{
  blocks_of, entry_at, max_blocks, nonnull, direct_block, indirect_array, indirect_block,
  file_block,
}
use systems_programming_port.Wfs.Data.Slots.{ptr, data_slot}
use systems_programming_port.Wfs.Data.Find.{low_slot, high_slot}

and_false : (b : Bool) → (b && false) ≡ false
and_false true = refl
and_false false = refl

-- An answer that leaves the disk as it was, but for the error.
abbrev Peeked : Disk → ℕ → Option ℕ × Disk → Type 0
Peeked d p r = (r.0 ≡ nonnull p) × ((e : Option Errno) × (r.1 ≡ record d { wfs_error = e }))

direct_block-Peeked :
    (d : Disk) (ino s : ℕ) → s < 8 → Peeked d (ptr d ino s) (direct_block ino s false d)
unfolding direct_block
direct_block-Peeked d ino s h =
    rw (and_false (blocks_of d ino s == 0), low_slot d ino s h) (refl, (d.wfs_error, refl))

indirect_block-Peeked :
    (d : Disk) (ino p j : ℕ)
    → j < 64
    → blocks_of d ino ind_block ≡ p
    → p ≢ 0
    → Peeked d (ptr d ino (j + 8)) (indirect_block (some p) j false d)
unfolding indirect_block
indirect_block-Peeked d ino p j h at nz =
    let there : blocks_of d ino ind_block ≢ 0 = (λ z. nz (sym at ∙ z)) in
    rw (and_false (load 8 (entry_at p j) d.mem == 0), high_slot d ino j h there, at)
      (refl, (d.wfs_error, refl))

no_slot : (d : Disk) (ino j : ℕ) → j < 64 → blocks_of d ino ind_block ≡ 0 → ptr d ino (j + 8) ≡ 0
unfolding ptr
no_slot d ino j h z =
    let near : ltb (j + 8) 8 ≡ false = ground arith in
    let inside : ltb (j + 8) 72 ≡ true = ground arith in rw (near, inside, z) refl

through-Peeked :
    (d : Disk) (ino j : ℕ)
    → j < 64
    → Peeked d
        (ptr d ino (j + 8))
        (let (ind, d') = indirect_array ino false d in indirect_block ind j false d')
unfolding indirect_array indirect_block
through-Peeked d ino j h = elim (Bool-cases (blocks_of d ino ind_block == 0)) [
  | inl z ↦
      rw (and_false (blocks_of d ino ind_block == 0), z, no_slot d ino j h (==→eq _ _ z))
        (refl, (d.wfs_error, refl))
  | inr nz ↦
      rw (and_false (blocks_of d ino ind_block == 0), nz)
        (indirect_block-Peeked d ino (blocks_of d ino ind_block) j h refl (==→ne _ _ nz))
]

-- Without allocation the answer is what stands in the slot, and only the error can change.
pub file_block-peek :
    (d : Disk) (ino k : ℕ)
    → Peeked d (if ltb k max_blocks then ptr d ino (data_slot k) else 0) (file_block ino k false d)
unfolding file_block
file_block-peek d ino k = elim (Bool-cases (ltb k max_blocks)) [
  | inr outside ↦
      let past : leb max_blocks k ≡ true = ground arith in
      rw (outside, past) (refl, (some enospc, refl))
  | inl inside ↦
      let before : leb max_blocks k ≡ false = ground arith in
      elim (Bool-cases (ltb k d_block)) [
        | inl near ↦
            rw (inside, before, near) (direct_block-Peeked d ino k (omega (arith, ltb→lt _ _ near)))
        | inr far ↦
            let j = k - d_block in
            let slot : k + 2 ≡ j + 8 = omega (arith, ltb→ge _ _ far) in
            rw (inside, before, far, slot)
              (through-Peeked d ino j (omega (arith, ltb→lt _ _ inside)))
      ]
]
