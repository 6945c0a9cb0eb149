-- ===== src/Wfs/Data/Enter.antt =====
-- An entry of an indirect block that was null is given a fresh block.
use systems_programming_port.Prelude.{
  ℕ, ◌+◌, ◌-◌, ◌≤◌, ◌<◌, ◌≡◌, refl, sym, ap, subst, ◌∙◌, ◌≢◌, inl, inr, true, false, ◌&&◌, arith,
  ltb, ◌==◌, if◌then◌else◌, Bool-cases, ne→==, ==→eq, ==→ne, ltb→lt, ltb→ge,
}
use systems_programming_port.Wfs.Memory.{Memory, load, store_num}
use systems_programming_port.Wfs.Memory.Laws.{
  Outside, Fits, load-ext, load-store_num, store_num-Outside,
}
use systems_programming_port.Wfs.Bitmap.{Bitmap}
use systems_programming_port.Wfs.Disk.{Disk, block_size, ind_block, block_at}
use systems_programming_port.Wfs.Data.{blocks_of, entry_at}
use systems_programming_port.Wfs.Data.Slots.{ptr, indirect_ptr, IsUsed, Sound}
use systems_programming_port.Wfs.Data.Grow.{Grows, apart_blocks, used-ne}
use systems_programming_port.Wfs.Data.Fill.{
  Zeroes, Fresh, and-false, entries_apart, used_byte, used_entry, slot7,
}

module _ (d : Disk) (v : Sound d) (blk idx : ℕ) (bm : Bitmap) (f : Fresh d blk idx bm) (m : Memory)
    (z : Zeroes d blk m) where
  -- The entry `j` of the indirect block of `ino`.
  module _ (ino j : ℕ) (low : j < 64) (there : blocks_of d ino ind_block ≢ 0)
      (null : load 8 (entry_at (blocks_of d ino ind_block) j) d.mem ≡ 0) where
    abbrev entered : Disk
    entered = record d {
      dbm = bm;
      mem = store_num 8 (entry_at (blocks_of d ino ind_block) j) blk m;
    }

    abbrev ind : ℕ
    ind = blocks_of d ino ind_block

    ind-IsUsed : IsUsed d ind
    ind-IsUsed = slot7 d v blk idx bm f m z ino there

    -- Bytes of another block are out of the way of the entry.
    entered_byte :
        (a x : ℕ)
        → a ≢ ind-IsUsed.idx
        → block_at d a ≤ x
        → x < block_at d a + block_size
        → store_num 8 (entry_at ind j) blk m x ≡ m x
    entered_byte a x ne lo hi =
        store_num-Outside 8 (entry_at ind j) blk x m
          (narrow (apart_blocks d.d_blocks_ptr a ind-IsUsed.idx x ne lo hi))
      where
        narrow : Outside (block_at d ind-IsUsed.idx) block_size x → Outside (entry_at ind j) 8 x
        narrow (inl h) = inl (omega (arith, h, ind-IsUsed.at))
        narrow (inr h) = inr (omega (arith, h, ind-IsUsed.at, low))

    other_byte :
        (p o : ℕ)
        → IsUsed d p
        → p ≢ ind
        → o < block_size
        → store_num 8 (entry_at ind j) blk m (p + o) ≡ d.mem (p + o)
    other_byte p o u ne lt =
        entered_byte u.idx (p + o) (λ e. ne (u.at ∙ (ap (block_at d) e ∙ sym ind-IsUsed.at)))
          (omega (arith, u.at)) (omega (arith, u.at, lt))
        ∙ used_byte d v blk idx bm f m z p o u lt

    blk-Fits : Fits 8 blk
    blk-Fits = omega (arith, f.at, f.in_range, v.fits)

    -- The entries of the same array.
    own_entry :
        (k : ℕ)
        → k < 64
        → load 8 (entry_at ind k) (store_num 8 (entry_at ind j) blk m)
          ≡ (if k == j then blk else load 8 (entry_at ind k) d.mem)
    own_entry k lt = elim (Bool-cases (k == j)) [
      | inl hit ↦ rw hit (
          subst (λ n. load 8 (entry_at ind n) (store_num 8 (entry_at ind j) blk m) ≡ blk)
            (sym (==→eq k j hit)) (load-store_num 8 (entry_at ind j) blk m blk-Fits))
      | inr miss ↦ rw miss (
          load-ext 8 (entry_at ind k) _ m (λ x lo hi.
            store_num-Outside 8 (entry_at ind j) blk x m
              (entries_apart ind j k x (==→ne k j miss) lo hi))
          ∙ used_entry d v blk idx bm f m z ind k ind-IsUsed lt)
    ]

    other_entry :
        (q k : ℕ)
        → IsUsed d q
        → q ≢ ind
        → k < 64
        → load 8 (entry_at q k) (store_num 8 (entry_at ind j) blk m) ≡ load 8 (entry_at q k) d.mem
    other_entry q k u ne lt = load-ext 8 (entry_at q k) _ d.mem (λ x lo hi.
        let at : q + (x - q) ≡ x = omega (arith, lo) in
        subst (λ y. store_num 8 (entry_at ind j) blk m y ≡ d.mem y) at
          (other_byte q (x - q) u ne (omega (arith, lo, hi, lt))))

    own_array :
        (k : ℕ)
        → k < 64
        → indirect_ptr entered ino k ≡ (if k == j then blk else indirect_ptr d ino k)
    own_array k lt = rw (ne→== ind 0 there) (own_entry k lt)

    other_array : (i k : ℕ) → i ≢ ino → k < 64 → indirect_ptr entered i k ≡ indirect_ptr d i k
    unfolding ptr
    other_array i k ne lt = elim (Bool-cases (blocks_of d i ind_block == 0)) [
      | inl none_there ↦ rw none_there refl
      | inr some_there ↦
          let nz : blocks_of d i ind_block ≢ 0 = ==→ne _ _ some_there in
          rw some_there (
            other_entry (blocks_of d i ind_block) k (slot7 d v blk idx bm f m z i nz)
              (λ e. ne (v.distinct i 7 ino 7 nz e).0) lt)
    ]

    entered_array :
        (i k : ℕ)
        → k < 64
        → indirect_ptr entered i k ≡ (if (i == ino) && (k == j) then blk else indirect_ptr d i k)
    entered_array i k lt = elim (Bool-cases (i == ino)) [
      | inl hit ↦ rw hit (
          subst (λ n. indirect_ptr entered n k ≡ (if k == j then blk else indirect_ptr d n k))
            (sym (==→eq i ino hit)) (own_array k lt))
      | inr miss ↦ rw miss (other_array i k (==→ne i ino miss) lt)
    ]

    entered-ptr :
        (i t : ℕ) → ptr entered i t ≡ (if (i == ino) && (t == (j + 8)) then blk else ptr d i t)
    unfolding ptr
    entered-ptr i t = elim (Bool-cases (ltb t 8)) [
      | inl near ↦
          let off : ((i == ino) && (t == (j + 8))) ≡ false =
            rw (ne→== t (j + 8) (λ e. absurd (omega (arith, e, ltb→lt _ _ near))))
              (and-false (i == ino)) in
          rw (off, near) refl
      | inr far ↦ elim (Bool-cases (ltb t 72)) [
        | inl inside ↦
            let k = t - 8 in
            let shift : (t == (j + 8)) ≡ (k == j) = ground (arith, ltb→ge _ _ far) in
            rw (shift, far, inside)
              (entered_array i k (omega (arith, ltb→lt _ _ inside, ltb→ge _ _ far)))
        | inr outside ↦
            let off : ((i == ino) && (t == (j + 8))) ≡ false =
              rw (ne→== t (j + 8) (λ e. absurd (omega (arith, e, low, ltb→ge _ _ outside))))
                (and-false (i == ino)) in
            rw (off, far, outside) refl
      ]
    ]

    high_null : ptr d ino (j + 8) ≡ 0
    unfolding ptr
    high_null =
        let near : ltb (j + 8) 8 ≡ false = ground arith in
        let inside : ltb (j + 8) 72 ≡ true = ground arith in
        let back : j + 8 - 8 ≡ j = omega arith in rw (near, inside, back, ne→== ind 0 there) null

    seven : ptr d ino 7 ≡ ind
    unfolding ptr
    seven = refl

    -- A data block is not the indirect block.
    data_byte :
        (i t o : ℕ)
        → ptr d i t ≢ 0
        → t ≢ 7
        → o < block_size
        → entered.mem (ptr d i t + o) ≡ d.mem (ptr d i t + o)
    data_byte i t o nz ne lt =
        other_byte (ptr d i t) o (v.valid i t nz)
          (λ e. ne (v.distinct i t ino 7 nz (e ∙ sym seven)).1) lt

    pub enter-Grows : Grows d ino (j + 8) blk entered
    enter-Grows = record {
      idx = idx;
      in_range = f.in_range;
      at = f.at;
      was_free = f.was_free;
      marks = f.marks;
      count = refl;
      base = refl;
      was_null = high_null;
      ptrs = entered-ptr;
      kept = data_byte;
      zeroed = λ ne o lt.
          entered_byte idx (blk + o) (λ e. used-ne d ind idx ind-IsUsed f.was_free (sym e))
            (omega (arith, f.at)) (omega (arith, f.at, lt))
          ∙ z.zero_in (blk + o) (omega arith) (omega (arith, lt));
    }
