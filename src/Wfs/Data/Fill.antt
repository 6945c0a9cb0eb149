-- ===== src/Wfs/Data/Fill.antt =====
-- The two places where 01-fuse-filesystem-wfs/wfs.c stores a fresh block: the pointers of an inode,
-- and the entries of its indirect block.
use systems_programming_port.Prelude.{
  ℕ, ◌+◌, ◌-◌, ◌≤◌, ◌<◌, ◌≡◌, refl, sym, ap, subst, ◌∙◌, ◌≢◌, inl, inr, Bool, true, false, ◌&&◌,
  arith, ltb, ◌==◌, if◌then◌else◌, Bool-cases, ne→==, ==→eq, ==→ne, ap₂, ltb→lt, ltb→ge, lt→ltb,
}
use systems_programming_port.Prelude.Maps.{update}
use systems_programming_port.Wfs.Memory.{Memory, load}
use systems_programming_port.Wfs.Memory.Laws.{Outside, load-ext, load-zeroed}
use systems_programming_port.Wfs.Bitmap.{Bitmap, bitmap_test}
use systems_programming_port.Wfs.Disk.{Disk, block_size, ind_block, block_at}
use systems_programming_port.Wfs.Data.{blocks_of, entry_at, set_block}
use systems_programming_port.Wfs.Data.Slots.{ptr, indirect_ptr, IsUsed, Sound}
use systems_programming_port.Wfs.Data.Grow.{Grows, apart_blocks, used-ne}

-- A memory with a zeroed block, and otherwise the disk's.
pub record Zeroes (d : Disk) (blk : ℕ) (m : Memory) : Type 0 where
  pub zero_in : (x : ℕ) → blk ≤ x → x < blk + block_size → m x ≡ 0
  pub same_out : (x : ℕ) → Outside blk block_size x → m x ≡ d.mem x

-- A block that is free on the disk, and a bitmap in which it alone is set besides.
pub record Fresh (d : Disk) (blk idx : ℕ) (bm : Bitmap) : Type 0 where
  pub in_range : idx < d.num_data_blocks
  pub at : blk ≡ block_at d idx
  pub was_free : bitmap_test idx d.dbm ≡ false
  pub marks : (q : ℕ) → bitmap_test q bm ≡ (if idx == q then true else bitmap_test q d.dbm)

pub and-false : (b : Bool) → (b && false) ≡ false
and-false true = refl
and-false false = refl

pub blocks_of-set_block :
    (d : Disk) (ino s blk i t : ℕ)
    → blocks_of (set_block ino s blk d) i t
      ≡ (if (i == ino) && (t == s) then blk else blocks_of d i t)
blocks_of-set_block d ino s blk i t =
    let chosen : Bool → ℕ = λ b.
      (if b
          then record (d.inodes ino) { blocks = update (blocks_of d ino) s blk }
          else d.inodes i).blocks
        t in
    elim (Bool-cases (ino == i)) [
      | inr miss ↦
          let other : (i == ino) ≡ false = ne→== i ino (λ e. ==→ne ino i miss (sym e)) in
          ap chosen miss ∙ rw other refl
      | inl hit ↦
          let same : (i == ino) ≡ true = ground (arith, ==→eq ino i hit) in
          let node : blocks_of d ino t ≡ blocks_of d i t =
            ap (λ n. blocks_of d n t) (==→eq ino i hit) in
          ap chosen hit ∙ rw same (ground arith)
    ]

-- Two entries of an array do not overlap.
pub entries_apart :
    (ind j k x : ℕ)
    → k ≢ j
    → entry_at ind k ≤ x
    → x < entry_at ind k + 8
    → Outside (entry_at ind j) 8 x
entries_apart ind j k x ne lo hi = elim (Bool-cases (ltb k j)) [
  | inl lt ↦ inl (omega (arith, hi, ltb→lt _ _ lt))
  | inr ge ↦ inr (omega (arith, lo, ne, ltb→ge _ _ ge))
]

module _ (d : Disk) (v : Sound d) (blk idx : ℕ) (bm : Bitmap) (f : Fresh d blk idx bm) (m : Memory)
    (z : Zeroes d blk m) where
  -- Bytes of a block in use are not in the fresh one.
  pub used_byte : (p o : ℕ) → IsUsed d p → o < block_size → m (p + o) ≡ d.mem (p + o)
  used_byte p o u lt = z.same_out (p + o) (
      subst (λ b. Outside b block_size (p + o)) (sym f.at)
        (apart_blocks d.d_blocks_ptr u.idx idx (p + o) (used-ne d p idx u f.was_free)
          (omega (arith, u.at)) (omega (arith, u.at, lt))))

  pub used_entry :
      (q j : ℕ) → IsUsed d q → j < 64 → load 8 (entry_at q j) m ≡ load 8 (entry_at q j) d.mem
  used_entry q j u lt = load-ext 8 (entry_at q j) m d.mem (λ x lo hi.
      let at : q + (x - q) ≡ x = omega (arith, lo) in
      subst (λ y. m y ≡ d.mem y) at (used_byte q (x - q) u (omega (arith, lo, hi, lt))))

  zero_entry : (j : ℕ) → j < 64 → load 8 (entry_at blk j) m ≡ 0
  zero_entry j lt =
      load-zeroed 8 (entry_at blk j) m
        (λ x lo hi. z.zero_in x (omega (arith, lo)) (omega (arith, hi, lt)))

  pub slot7 : (i : ℕ) → blocks_of d i ind_block ≢ 0 → IsUsed d (blocks_of d i ind_block)
  unfolding ptr
  slot7 i nz = v.valid i 7 nz

  module _ (ino s : ℕ) (low : s < 8) (null : blocks_of d ino s ≡ 0) where
    abbrev linked : Disk
    linked = set_block ino s blk (record d { dbm = bm; mem = m })

    linked_blocks :
        (i t : ℕ) → blocks_of linked i t ≡ (if (i == ino) && (t == s) then blk else blocks_of d i t)
    linked_blocks i t = blocks_of-set_block (record d { dbm = bm; mem = m }) ino s blk i t

    linked_low :
        (i t : ℕ)
        → ltb t 8 ≡ true
        → ptr linked i t ≡ (if (i == ino) && (t == s) then blk else ptr d i t)
    unfolding ptr
    linked_low i t h = rw h (linked_blocks i t)

    linked_array : (i j : ℕ) → j < 64 → indirect_ptr linked i j ≡ indirect_ptr d i j
    linked_array i j lt = elim (Bool-cases ((i == ino) && (ind_block == s))) [
      | inl hit ↦
          let at : blocks_of linked i ind_block ≡ blk = linked_blocks i ind_block ∙ rw hit refl in
          let was : blocks_of d i ind_block ≡ 0 =
            ap₂ (blocks_of d) (ground arith) (ground arith) ∙ null in
          rw (at, was, zero_entry j lt) (ground arith)
      | inr miss ↦
          let at : blocks_of linked i ind_block ≡ blocks_of d i ind_block =
            linked_blocks i ind_block ∙ rw miss refl in
          rw at (elim (Bool-cases (blocks_of d i ind_block == 0)) [
            | inl none_there ↦ rw none_there refl
            | inr there ↦
                rw there (used_entry (blocks_of d i ind_block) j (slot7 i (==→ne _ _ there)) lt)
          ])
    ]

    linked_high :
        (i t : ℕ)
        → ltb t 8 ≡ false
        → ptr linked i t ≡ (if (i == ino) && (t == s) then blk else ptr d i t)
    unfolding ptr
    linked_high i t h =
        let off : ((i == ino) && (t == s)) ≡ false =
          rw (ne→== t s (λ e. absurd (omega (arith, e, low, ltb→ge _ _ h))))
            (and-false (i == ino)) in
        elim (Bool-cases (ltb t 72)) [
          | inl inside ↦
              rw (off, h, inside)
                (linked_array i (t - 8) (omega (arith, ltb→lt _ _ inside, ltb→ge _ _ h)))
          | inr outside ↦ rw (off, h, outside) refl
        ]

    low_null : ptr d ino s ≡ 0
    unfolding ptr
    low_null = rw (lt→ltb s 8 low) null

    pub link-Grows : Grows d ino s blk linked
    link-Grows = record {
      idx = idx;
      in_range = f.in_range;
      at = f.at;
      was_free = f.was_free;
      marks = f.marks;
      count = refl;
      base = refl;
      was_null = low_null;
      ptrs = λ i t. elim (Bool-cases (ltb t 8)) [
        | inl h ↦ linked_low i t h
        | inr h ↦ linked_high i t h
      ];
      kept = λ i t o nz ne lt. used_byte (ptr d i t) o (v.valid i t nz) lt;
      zeroed = λ ne o lt. z.zero_in (blk + o) (omega arith) (omega (arith, lt));
    }
