-- ===== src/Wfs/Data/Erase.antt =====
-- An entry of an indirect block that is set to null and its block given back, as in `wfs_unlink` and
-- `wfs_rmdir` of 01-fuse-filesystem-wfs/wfs.c.
use systems_programming_port.Prelude.{
  ℕ, ◌+◌, ◌-◌, ◌<◌, ◌≡◌, refl, sym, subst, ◌∙◌, ◌≢◌, inl, inr, false, ◌&&◌, arith, ltb, ◌==◌,
  if◌then◌else◌, Bool-cases, ne→==, ==→eq, ==→ne, ltb→lt, ltb→ge,
}
use systems_programming_port.Wfs.Memory.{memset_zero, load, store_num}
use systems_programming_port.Wfs.Memory.Laws.{Outside, store_num-Outside, load-store_num, load-ext}
use systems_programming_port.Wfs.Disk.{Disk, block_size, ind_block}
use systems_programming_port.Wfs.Data.{blocks_of, entry_at}
use systems_programming_port.Wfs.Data.Slots.{ptr, indirect_ptr, IsUsed, Sound}
use systems_programming_port.Wfs.Data.Put.{used_apart}
use systems_programming_port.Wfs.Data.Find.{low_slot}
use systems_programming_port.Wfs.Data.Fill.{entries_apart, and-false}
use systems_programming_port.Wfs.Data.Drop.{
  Drops, freed, freed_marks, freed_frees, freed_clear, freed_byte, freed_entry,
}

array-IsUsed :
    (d : Disk) (i : ℕ) → Sound d → blocks_of d i ind_block ≢ 0 → IsUsed d (blocks_of d i ind_block)
unfolding ptr
array-IsUsed d i v nz = v.valid i 7 nz

module _ (d : Disk) (v : Sound d) (ino j : ℕ) (low : j < 64) (there : blocks_of d ino ind_block ≢ 0)
    (nz : ptr d ino (j + 8) ≢ 0) where
  abbrev ind : ℕ
  ind = blocks_of d ino ind_block

  abbrev erased : Disk
  erased =
      let e = freed (ptr d ino (j + 8)) d in record e { mem = store_num 8 (entry_at ind j) 0 e.mem }

  slot7_is : (i : ℕ) → ptr d i 7 ≡ blocks_of d i ind_block
  slot7_is i = low_slot d i 7 (omega arith)

  -- The indirect block of an inode is not the block that is given back.
  array-ne : (i : ℕ) → blocks_of d i ind_block ≢ 0 → blocks_of d i ind_block ≢ ptr d ino (j + 8)
  array-ne i nz' e =
      let slots : 7 ≡ j + 8 =
        (v.distinct i 7 ino (j + 8) (λ z. nz' (sym (slot7_is i) ∙ z)) (slot7_is i ∙ e)).1 in
      absurd (omega (arith, slots))

  -- Bytes outside of the indirect block keep what they hold after the block is cleared.
  outer_byte :
      (p o : ℕ)
      → IsUsed d p
      → p ≢ ind
      → o < block_size
      → store_num 8 (entry_at ind j) 0 (memset_zero (ptr d ino (j + 8)) block_size d.mem) (p + o)
        ≡ memset_zero (ptr d ino (j + 8)) block_size d.mem (p + o)
  outer_byte p o u ne lt =
      store_num-Outside 8 (entry_at ind j) 0 (p + o) _
        (narrow (used_apart d ind p o (array-IsUsed d ino v there) u (λ e. ne (sym e)) lt))
    where
      narrow : Outside ind block_size (p + o) → Outside (entry_at ind j) 8 (p + o)
      narrow (inl h) = inl (omega (arith, h))
      narrow (inr h) = inr (omega (arith, h, low))

  own_entry :
      (k : ℕ) → k < 64 → indirect_ptr erased ino k ≡ (if k == j then 0 else indirect_ptr d ino k)
  own_entry k lt = rw (ne→== ind 0 there) (elim (Bool-cases (k == j)) [
    | inl hit ↦ rw hit (
        subst (λ n. load 8 (entry_at ind n) erased.mem ≡ 0) (sym (==→eq k j hit))
          (load-store_num 8 (entry_at ind j) 0 _ refl))
    | inr miss ↦ rw miss (
        load-ext 8 (entry_at ind k) erased.mem (freed (ptr d ino (j + 8)) d).mem (λ x lo hi.
          store_num-Outside 8 (entry_at ind j) 0 x _
            (entries_apart ind j k x (==→ne k j miss) lo hi))
        ∙ freed_entry d v ino (j + 8) nz ind k (array-IsUsed d ino v there) (array-ne ino there) lt)
  ])

  other_entry : (i k : ℕ) → i ≢ ino → k < 64 → indirect_ptr erased i k ≡ indirect_ptr d i k
  other_entry i k ne lt = elim (Bool-cases (blocks_of d i ind_block == 0)) [
    | inl none_there ↦ rw none_there refl
    | inr array ↦
        let nz' = ==→ne _ _ array in
        let p = blocks_of d i ind_block in
        let apart : p ≢ ind = λ e. ne (
          (v.distinct i 7 ino 7 (λ z. nz' (sym (slot7_is i) ∙ z))
            (slot7_is i ∙ (e ∙ sym (slot7_is ino)))).0) in
        let u = array-IsUsed d i v nz' in
        rw array (
          load-ext 8 (entry_at p k) erased.mem (freed (ptr d ino (j + 8)) d).mem (λ x lo hi.
            let back : p + (x - p) ≡ x = omega (arith, lo) in
            subst (λ y. erased.mem y ≡ (freed (ptr d ino (j + 8)) d).mem y) back
              (outer_byte p (x - p) u apart (omega (arith, lo, hi, lt))))
          ∙ freed_entry d v ino (j + 8) nz p k u (array-ne i nz') lt)
  ]

  erased_entry :
      (i k : ℕ)
      → k < 64
      → indirect_ptr erased i k ≡ (if (i == ino) && (k == j) then 0 else indirect_ptr d i k)
  erased_entry i k lt = elim (Bool-cases (i == ino)) [
    | inl own ↦ rw own (
        subst (λ n. indirect_ptr erased n k ≡ (if k == j then 0 else indirect_ptr d n k))
          (sym (==→eq _ _ own)) (own_entry k lt))
    | inr other ↦ rw other (other_entry i k (==→ne _ _ other) lt)
  ]

  erased-ptr : (i t : ℕ) → ptr erased i t ≡ (if (i == ino) && (t == (j + 8)) then 0 else ptr d i t)
  unfolding ptr
  erased-ptr i t = elim (Bool-cases (ltb t 8)) [
    | inl h ↦
        let off : ((i == ino) && (t == (j + 8))) ≡ false =
          rw (ne→== t (j + 8) (λ e. absurd (omega (arith, e, ltb→lt _ _ h))))
            (and-false (i == ino)) in
        rw (off, h) refl
    | inr h ↦
        let same : (t == (j + 8)) ≡ (t - 8 == j) = ground (arith, h) in
        elim (Bool-cases (ltb t 72)) [
          | inl inside ↦
              rw (h, inside, same)
                (erased_entry i (t - 8) (omega (arith, ltb→lt _ _ inside, ltb→ge _ _ h)))
          | inr past ↦
              let off : ((i == ino) && (t == (j + 8))) ≡ false =
                rw (ne→== t (j + 8) (λ e. absurd (omega (arith, e, low, ltb→ge _ _ past))))
                  (and-false (i == ino)) in
              rw (off, h, past) refl
        ]
  ]

  pub erased-Drops : Drops d ino (j + 8) erased
  erased-Drops = record {
    count = refl;
    base = refl;
    marks = freed_marks d v ino (j + 8) nz;
    frees = freed_frees d v ino (j + 8) nz;
    clear = freed_clear d v ino (j + 8) nz;
    ptrs = erased-ptr;
    kept = λ i t o nz' ne seven lt.
        let apart : ptr d i t ≢ ind =
          λ e. seven ((v.distinct i t ino 7 nz' (e ∙ sym (slot7_is ino))).1) in
        outer_byte (ptr d i t) o (v.valid i t nz') apart lt
        ∙ freed_byte d v ino (j + 8) nz (ptr d i t) o (v.valid i t nz') ne lt;
  }
