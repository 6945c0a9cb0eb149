-- ===== src/Wfs/Data/Drop.antt =====
-- A pointer of an inode that is set to null and its block given back, as in `wfs_unlink` and `wfs_rmdir` of
-- 01-fuse-filesystem-wfs/wfs.c.
use systems_programming_port.Prelude.{
  ℕ, ◌+◌, ◌-◌, ◌/◌, ◌%◌, ◌<◌, ◌≡◌, refl, sym, subst, ◌∙◌, ◌≢◌, inl, inr, true, false, ◌&&◌, arith,
  ltb, leb, ◌==◌, if◌then◌else◌, Bool-cases, ne→==, ==→ne,
}
use systems_programming_port.Prelude.{◌^◌, ◌≤◌}
use systems_programming_port.Wfs.Memory.{memset_zero, load}
use systems_programming_port.Wfs.Memory.Laws.{memset_zero-Outside, load-ext}
use systems_programming_port.Wfs.Bitmap.{bitmap_test, free_bitmap}
use systems_programming_port.Wfs.Bitmap.Laws.{bitmap_test-free_bitmap}
use systems_programming_port.Wfs.Disk.{Disk, block_size, block_at, free_block}
use systems_programming_port.Wfs.Data.{entry_at, max_blocks}
use systems_programming_port.Wfs.Data.Slots.{ptr, data_slot, content, IsUsed, Sound}
use systems_programming_port.Wfs.Data.Grow.{slot-cases, data_slot-ne}
use systems_programming_port.Wfs.Data.Put.{used_apart}

-- A pointer set to null and its block given back and cleared.
pub record Drops (d : Disk) (ino s : ℕ) (d' : Disk) : Type 0 where
  pub count : d'.num_data_blocks ≡ d.num_data_blocks
  pub base : d'.d_blocks_ptr ≡ d.d_blocks_ptr
  pub marks :
      (q : ℕ)
      → block_at d q ≢ ptr d ino s
      → bitmap_test q d.dbm ≡ true
      → bitmap_test q d'.dbm ≡ true
  pub frees : (q : ℕ) → block_at d q ≡ ptr d ino s → bitmap_test q d'.dbm ≡ false
  pub clear : (q : ℕ) → bitmap_test q d.dbm ≡ false → bitmap_test q d'.dbm ≡ false
  pub ptrs : (i t : ℕ) → ptr d' i t ≡ (if (i == ino) && (t == s) then 0 else ptr d i t)
  pub kept :
      (i t o : ℕ)
      → ptr d i t ≢ 0
      → ptr d i t ≢ ptr d ino s
      → t ≢ 7
      → o < block_size
      → d'.mem (ptr d i t + o) ≡ d.mem (ptr d i t + o)

module _ (d d' : Disk) (ino s : ℕ) (g : Drops d ino s d') (v : Sound d) where
  stays : (i t : ℕ) → ((i == ino) && (t == s)) ≡ false → ptr d' i t ≡ ptr d i t
  stays i t m = rw (g.ptrs i t, m) refl

  goes : (i t : ℕ) → i ≡ ino → t ≡ s → ptr d' i t ≡ 0
  goes i t a b =
      let own : (i == ino) ≡ true = ground (arith, a) in
      let slot : (t == s) ≡ true = ground (arith, b) in rw (g.ptrs i t, own, slot) refl

  apart_from :
      (i t : ℕ) → ((i == ino) && (t == s)) ≡ false → ptr d i t ≢ 0 → ptr d i t ≢ ptr d ino s
  apart_from i t m nz e =
      let (a, b) = v.distinct i t ino s nz e in
      let own : (i == ino) ≡ true = ground (arith, a) in
      let slot : (t == s) ≡ true = ground (arith, b) in absurd (ground (arith, own, slot, m))

  left-IsUsed : (i t : ℕ) → ((i == ino) && (t == s)) ≡ false → ptr d i t ≢ 0 → IsUsed d' (ptr d i t)
  left-IsUsed i t m nz =
      let u = v.valid i t nz in
      record {
        idx = u.idx;
        in_range = omega (arith, u.in_range, g.count);
        at = omega (arith, u.at, g.base);
        marked = g.marks u.idx (λ e. apart_from i t m nz (u.at ∙ e)) u.marked;
      }

  pub Drops-Sound : Sound d'
  Drops-Sound = record {
    based = omega (arith, v.based, g.base);
    fits = omega (arith, v.fits, g.base, g.count);
    valid = λ i t nz. elim (slot-cases ino s i t) [
      | inl (a, b) ↦ absurd (nz (goes i t a b))
      | inr m ↦
          subst (IsUsed d') (sym (stays i t m)) (left-IsUsed i t m (λ z. nz (stays i t m ∙ z)))
    ];
    distinct = λ i t i' t' nz e. elim (slot-cases ino s i t) [
      | inl (a, b) ↦ absurd (nz (goes i t a b))
      | inr m ↦ elim (slot-cases ino s i' t') [
        | inl (a, b) ↦ absurd (nz (e ∙ goes i' t' a b))
        | inr m' ↦
            v.distinct i t i' t' (λ z. nz (stays i t m ∙ z))
              (sym (stays i t m) ∙ (e ∙ stays i' t' m'))
      ]
    ];
  }

  pub Drops-content : (i x : ℕ) → i ≢ ino → content d' i x ≡ content d i x
  unfolding content
  Drops-content i x ne =
      let t = data_slot (x / block_size) in
      let m : ((i == ino) && (t == s)) ≡ false = rw (ne→== i ino ne) refl in
      elim (Bool-cases (ltb (x / block_size) max_blocks)) [
        | inr outside ↦ rw outside refl
        | inl inside ↦ elim (Bool-cases (ptr d i t == 0)) [
          | inl null ↦ rw (inside, stays i t m, null) refl
          | inr there ↦
              let nz = ==→ne _ _ there in
              rw (inside, stays i t m, there)
                (g.kept i t (x % block_size) nz (apart_from i t m nz)
                  (data_slot-ne (x / block_size)) (omega arith))
        ]
      ]

-- A sound disk on which every other file has the bytes that it had.
abbrev pub Spares : Disk → ℕ → Disk → Type 0
Spares d ino d' = Sound d' × ((i x : ℕ) → i ≢ ino → content d' i x ≡ content d i x)

pub Spares-trans : (d e f : Disk) (ino : ℕ) → Spares d ino e → Spares e ino f → Spares d ino f
Spares-trans d e f ino a b = (b.0, λ i x ne. b.1 i x ne ∙ a.1 i x ne)

-- What `free_block` does to a block in use.
abbrev pub freed : ℕ → Disk → Disk
freed p d = record d {
  dbm = free_bitmap ((p - d.d_blocks_ptr) / block_size) d.dbm;
  mem = memset_zero p block_size d.mem;
}

pub free_block-IsUsed :
    (d : Disk) (p : ℕ) → d.num_data_blocks ≤ 2 ^ 32 → IsUsed d p → free_block p d ≡ freed p d
unfolding free_block
free_block-IsUsed d p few u =
    let above : leb d.d_blocks_ptr p ≡ true = ground (arith, u.at) in
    let whole : ((p - d.d_blocks_ptr) % block_size == 0) ≡ true = ground (arith, u.at) in
    let index : (p - d.d_blocks_ptr) / block_size ≡ u.idx = omega (arith, u.at) in
    let exact : ((p - d.d_blocks_ptr) / block_size) % 2 ^ 32 ≡ (p - d.d_blocks_ptr) / block_size =
      omega (arith, index, u.in_range, few) in
    let inside : ltb ((p - d.d_blocks_ptr) / block_size) d.num_data_blocks ≡ true =
      ground (arith, index, u.in_range) in
    rw (above, whole, exact, inside) refl

module _ (d : Disk) (v : Sound d) (ino s : ℕ) (nz : ptr d ino s ≢ 0) where
  abbrev pub gone : ℕ
  gone = ptr d ino s

  pub freed_marks :
      (q : ℕ)
      → block_at d q ≢ gone
      → bitmap_test q d.dbm ≡ true
      → bitmap_test q (freed gone d).dbm ≡ true
  freed_marks q ne h =
      let u = v.valid ino s nz in
      let other : ((gone - d.d_blocks_ptr) / block_size == q) ≡ false =
        ne→== _ q (λ e. ne (omega (arith, e, u.at))) in
      bitmap_test-free_bitmap ((gone - d.d_blocks_ptr) / block_size) q d.dbm ∙ rw other h

  pub freed_frees : (q : ℕ) → block_at d q ≡ gone → bitmap_test q (freed gone d).dbm ≡ false
  freed_frees q at =
      let own : ((gone - d.d_blocks_ptr) / block_size == q) ≡ true = ground (arith, at) in
      bitmap_test-free_bitmap ((gone - d.d_blocks_ptr) / block_size) q d.dbm ∙ rw own refl

  pub freed_clear : (q : ℕ) → bitmap_test q d.dbm ≡ false → bitmap_test q (freed gone d).dbm ≡ false
  freed_clear q h =
      bitmap_test-free_bitmap ((gone - d.d_blocks_ptr) / block_size) q d.dbm
      ∙ elim (Bool-cases ((gone - d.d_blocks_ptr) / block_size == q)) [
        | inl own ↦ rw own refl
        | inr other ↦ rw other h
      ]

  pub freed_byte :
      (p o : ℕ)
      → IsUsed d p
      → p ≢ gone
      → o < block_size
      → memset_zero gone block_size d.mem (p + o) ≡ d.mem (p + o)
  freed_byte p o u ne lt =
      memset_zero-Outside gone block_size (p + o) d.mem
        (used_apart d gone p o (v.valid ino s nz) u (λ e. ne (sym e)) lt)

  pub freed_entry :
      (p j : ℕ)
      → IsUsed d p
      → p ≢ gone
      → j < 64
      → load 8 (entry_at p j) (memset_zero gone block_size d.mem) ≡ load 8 (entry_at p j) d.mem
  freed_entry p j u ne lt = load-ext 8 (entry_at p j) _ d.mem (λ x lo hi.
      let back : p + (x - p) ≡ x = omega (arith, lo) in
      subst (λ y. memset_zero gone block_size d.mem y ≡ d.mem y) back
        (freed_byte p (x - p) u ne (omega (arith, lo, hi, lt))))
