-- ===== src/Wfs/Data/Free.antt =====
-- The two kinds of pointer that `wfs_unlink` and `wfs_rmdir` of 01-fuse-filesystem-wfs/wfs.c set to null.
use systems_programming_port.Prelude.{
  ℕ, ◌+◌, ◌-◌, ◌<◌, ◌≡◌, refl, sym, ap, subst, ◌∙◌, ◌≢◌, inl, inr, true, false, ◌&&◌, arith, ltb,
  ◌==◌, if◌then◌else◌, Bool-cases, ne→==, ==→ne, ltb→lt, ltb→ge,
}
use systems_programming_port.Wfs.Disk.{Disk, ind_block}
use systems_programming_port.Wfs.Data.{blocks_of, set_block}
use systems_programming_port.Wfs.Data.Slots.{ptr, indirect_ptr, IsUsed, Sound}
use systems_programming_port.Wfs.Data.Find.{low_slot}
use systems_programming_port.Wfs.Data.Fill.{blocks_of-set_block, and-false}
use systems_programming_port.Wfs.Data.Grow.{slot-cases}
use systems_programming_port.Wfs.Data.Drop.{
  Drops, freed, freed_marks, freed_frees, freed_clear, freed_byte, freed_entry,
}

pub indirect_slot : (d : Disk) (i j : ℕ) → j < 64 → ptr d i (j + 8) ≡ indirect_ptr d i j
unfolding ptr
indirect_slot d i j lt =
    let near : ltb (j + 8) 8 ≡ false = ground arith in
    let inside : ltb (j + 8) 72 ≡ true = ground arith in
    let back : j + 8 - 8 ≡ j = omega arith in rw (near, inside, back) refl

-- A pointer in the inode itself; that to the indirect block only when no entry of it is left.
module _ (d : Disk) (v : Sound d) (ino s : ℕ) (low : s < 8) (nz : ptr d ino s ≢ 0)
    (last : s ≡ 7 → (j : ℕ) → j < 64 → ptr d ino (j + 8) ≡ 0) where
  abbrev cut : Disk
  cut = set_block ino s 0 (freed (ptr d ino s) d)

  cut_blocks :
      (i t : ℕ) → blocks_of cut i t ≡ (if (i == ino) && (t == s) then 0 else blocks_of d i t)
  cut_blocks i t = blocks_of-set_block (freed (ptr d ino s) d) ino s 0 i t

  own_array : (i j : ℕ) → j < 64 → i ≡ ino → ind_block ≡ s → indirect_ptr cut i j ≡ ptr d i (j + 8)
  own_array i j lt a b =
      let own : (i == ino) ≡ true = ground (arith, a) in
      let slot : (ind_block == s) ≡ true = ground (arith, b) in
      let null : ptr d i (j + 8) ≡ 0 = ap (λ n. ptr d n (j + 8)) a ∙ last (sym b) j lt in
      rw (cut_blocks i ind_block, own, slot, null) refl

  other_array :
      (i j : ℕ)
      → j < 64
      → ((i == ino) && (ind_block == s)) ≡ false
      → indirect_ptr cut i j ≡ indirect_ptr d i j
  other_array i j lt m =
      let at : blocks_of cut i ind_block ≡ blocks_of d i ind_block =
        cut_blocks i ind_block ∙ rw m refl in
      rw at (elim (Bool-cases (blocks_of d i ind_block == 0)) [
        | inl none_there ↦ rw none_there refl
        | inr there ↦
            let named : ptr d i 7 ≡ blocks_of d i ind_block = low_slot d i 7 (omega arith) in
            let nz' : ptr d i 7 ≢ 0 = λ z. ==→ne _ _ there (sym named ∙ z) in
            let u = subst (IsUsed d) named (v.valid i 7 nz') in
            let ne : blocks_of d i ind_block ≢ ptr d ino s =
              λ e. not_own i m (v.distinct i 7 ino s nz' (named ∙ e)) in
            rw there (freed_entry d v ino s nz (blocks_of d i ind_block) j u ne lt)
      ])
    where
      not_own : (n : ℕ) → ((n == ino) && (ind_block == s)) ≡ false → (n ≡ ino) × (7 ≡ s) → ⊥
      not_own n miss (a, b) =
          let own : (n == ino) ≡ true = ground (arith, a) in
          let slot : (ind_block == s) ≡ true = ground (arith, b) in ground (arith, own, slot, miss)

  cut_high : (i j : ℕ) → j < 64 → indirect_ptr cut i j ≡ ptr d i (j + 8)
  cut_high i j lt = elim (slot-cases ino s i ind_block) [
    | inl (a, b) ↦ own_array i j lt a b
    | inr m ↦ other_array i j lt m ∙ sym (indirect_slot d i j lt)
  ]

  cut-ptr : (i t : ℕ) → ptr cut i t ≡ (if (i == ino) && (t == s) then 0 else ptr d i t)
  unfolding ptr
  cut-ptr i t = elim (Bool-cases (ltb t 8)) [
    | inl h ↦ rw h (cut_blocks i t)
    | inr h ↦
        let off : ((i == ino) && (t == s)) ≡ false =
          rw (ne→== t s (λ e. absurd (omega (arith, e, low, ltb→ge _ _ h))))
            (and-false (i == ino)) in
        elim (Bool-cases (ltb t 72)) [
          | inl inside ↦
              let back : t - 8 + 8 ≡ t = omega (arith, ltb→ge _ _ h) in
              rw (off, h, inside)
                (cut_high i (t - 8) (omega (arith, ltb→lt _ _ inside, ltb→ge _ _ h))
                  ∙ (ap (ptr d i) back ∙ rw (h, inside) refl))
          | inr outside ↦ rw (off, h, outside) refl
        ]
  ]

  pub cut-Drops : Drops d ino s cut
  cut-Drops = record {
    count = refl;
    base = refl;
    marks = freed_marks d v ino s nz;
    frees = freed_frees d v ino s nz;
    clear = freed_clear d v ino s nz;
    ptrs = cut-ptr;
    kept = λ i t o nz' ne seven lt. freed_byte d v ino s nz (ptr d i t) o (v.valid i t nz') ne lt;
  }
