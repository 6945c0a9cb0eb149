-- ===== src/Wfs/Ops/Wipe.antt =====
-- `free_inode` of 01-fuse-filesystem-wfs/wfs.c, which clears the slot of an inode.
use systems_programming_port.Prelude.{
  ℕ, ◌/◌, ◌≡◌, refl, sym, ap, subst, ◌∙◌, ◌≢◌, inl, inr, Bool, ltb, if◌then◌else◌, Bool-cases,
  ==_refl, ne→==,
}
use systems_programming_port.Prelude.Maps.{update}
use systems_programming_port.Wfs.Bitmap.{free_bitmap}
use systems_programming_port.Wfs.Disk.{Disk, zero_inode, block_size, ind_block, free_inode}
use systems_programming_port.Wfs.Data.{blocks_of, max_blocks}
use systems_programming_port.Wfs.Data.Slots.{ptr, data_slot, content, IsUsed, Sound}
use systems_programming_port.Wfs.Data.Drop.{Spares}

-- The slot of the inode is cleared.
module _ (d : Disk) (v : Sound d) (ino : ℕ) where
  abbrev wiped : Disk
  wiped = record d {
    ibm = free_bitmap ((d.inodes ino).num) d.ibm;
    inodes = update d.inodes ino zero_inode;
  }

  abbrev node_blocks : ℕ → ℕ → Bool → ℕ
  node_blocks i t b = (if b then zero_inode else d.inodes i).blocks t

  own_blocks : (t : ℕ) → blocks_of wiped ino t ≡ 0
  own_blocks t = ap (node_blocks ino t) (==_refl ino)

  other_blocks : (i t : ℕ) → i ≢ ino → blocks_of wiped i t ≡ blocks_of d i t
  other_blocks i t ne = ap (node_blocks i t) (ne→== ino i (λ e. ne (sym e)))

  own_ptr : (t : ℕ) → ptr wiped ino t ≡ 0
  unfolding ptr
  own_ptr t = elim (Bool-cases (ltb t 8)) [
    | inl near ↦ rw near (own_blocks t)
    | inr far ↦ elim (Bool-cases (ltb t 72)) [
      | inl inside ↦ rw (far, inside, own_blocks ind_block) refl
      | inr past ↦ rw (far, past) refl
    ]
  ]

  other_ptr : (i t : ℕ) → i ≢ ino → ptr wiped i t ≡ ptr d i t
  unfolding ptr
  other_ptr i t ne = elim (Bool-cases (ltb t 8)) [
    | inl near ↦ rw near (other_blocks i t ne)
    | inr far ↦ elim (Bool-cases (ltb t 72)) [
      | inl inside ↦ rw (far, inside, other_blocks i ind_block ne) refl
      | inr past ↦ rw (far, past) refl
    ]
  ]

  kept-IsUsed : (p : ℕ) → IsUsed d p → IsUsed wiped p
  kept-IsUsed p u = record { idx = u.idx; in_range = u.in_range; at = u.at; marked = u.marked }

  of_other : (i t : ℕ) → ptr wiped i t ≢ 0 → i ≢ ino
  of_other i t nz e = nz (ap (λ n. ptr wiped n t) e ∙ own_ptr t)

  wiped-Sound : Sound wiped
  wiped-Sound = record {
    based = v.based;
    fits = v.fits;
    valid = λ i t nz.
        let same = other_ptr i t (of_other i t nz) in
        subst (IsUsed wiped) (sym same)
          (kept-IsUsed (ptr d i t) (v.valid i t (λ z. nz (same ∙ z))));
    distinct = λ i t i' t' nz e.
        let same = other_ptr i t (of_other i t nz) in
        let same' = other_ptr i' t' (of_other i' t' (λ z. nz (e ∙ z))) in
        v.distinct i t i' t' (λ z. nz (same ∙ z)) (sym same ∙ (e ∙ same'));
  }

  wiped-content : (i x : ℕ) → i ≢ ino → content wiped i x ≡ content d i x
  unfolding content
  wiped-content i x ne = rw (other_ptr i (data_slot (x / block_size)) ne) refl

  own-content : (x : ℕ) → content wiped ino x ≡ 0
  unfolding content
  own-content x = elim (Bool-cases (ltb (x / block_size) max_blocks)) [
    | inl inside ↦ rw (inside, own_ptr (data_slot (x / block_size))) refl
    | inr outside ↦ rw outside refl
  ]

pub free_inode-Spares :
    (d : Disk) (ino : ℕ)
    → Sound d
    → Spares d ino (free_inode ino d) × ((x : ℕ) → content (free_inode ino d) ino x ≡ 0)
unfolding free_inode
free_inode-Spares d ino v = ((wiped-Sound d v ino, wiped-content d v ino), own-content d v ino)
