-- ===== src/Wfs/Data/Find.antt =====
-- What `data_offset` of 01-fuse-filesystem-wfs/wfs.c finds for a block of a file, and what it makes.
use systems_programming_port.Prelude.{
  ℕ, ◌+◌, ◌-◌, ◌<◌, ◌≡◌, refl, sym, subst, ◌∙◌, ◌≢◌, ◌⊎◌, inl, inr, true, false, Option, none, some,
  arith, ltb, leb, ◌==◌, Bool-cases, ==_refl, ne→==, ==→eq, ==→ne, ltb→lt, ltb→ge, lt→ltb,
}
use systems_programming_port.Wfs.Memory.{memset_zero, load, store_num}
use systems_programming_port.Wfs.Memory.Laws.{memset_zero-inside, memset_zero-Outside}
use systems_programming_port.Wfs.Bitmap.{Bitmap, bitmap_test}
use systems_programming_port.Wfs.Disk.{
  Disk, Errno, block_size, d_block, ind_block, set_error, enospc,
}
use systems_programming_port.Wfs.Data.{
  blocks_of, entry_at, set_block, max_blocks, link_block, fill_direct, direct_block, clear_array,
  indirect_array, enter_block, indirect_block, file_block,
}
use systems_programming_port.Wfs.Data.Slots.{ptr, data_slot, content, Sound, Same}
use systems_programming_port.Wfs.Data.Alloc.{Given, Refused, allocate_data_block_lem}
use systems_programming_port.Wfs.Data.Grow.{Grows, Grows-Sound, Grows-Same}
use systems_programming_port.Wfs.Data.Fill.{Zeroes, Fresh, link-Grows}
use systems_programming_port.Wfs.Data.Enter.{enter-Grows}

Same-refl : (d : Disk) → Same d d
Same-refl d = record { count = refl; base = refl; bytes = λ i x. refl }

pub Same-trans : (d e f : Disk) → Same d e → Same e f → Same d f
Same-trans d e f a b = record {
  count = b.count ∙ a.count;
  base = b.base ∙ a.base;
  bytes = λ i x. b.bytes i x ∙ a.bytes i x;
}

-- Sound, and with the bytes of every file as they were.
abbrev pub Calm : Disk → Disk → Type 0
Calm d d' = Sound d' × Same d d'

-- A change of the bitmap that takes nothing out of it, and of the error, changes no file.
marked-Calm :
    (d : Disk) (bm : Bitmap) (e : Option Errno)
    → Sound d
    → ((q : ℕ) → bitmap_test q d.dbm ≡ true → bitmap_test q bm ≡ true)
    → Calm d (record d { dbm = bm; wfs_error = e })
unfolding ptr content
marked-Calm d bm e v keeps = (
  record {
    based = v.based;
    fits = v.fits;
    valid = λ i s nz.
        let u = v.valid i s nz in
        record { idx = u.idx; in_range = u.in_range; at = u.at; marked = keeps u.idx u.marked };
    distinct = v.distinct;
  },
  record { count = refl; base = refl; bytes = λ i x. refl },
)

pub error-Calm : (d : Disk) → Sound d → Calm d (set_error enospc d)
error-Calm d v = marked-Calm d d.dbm (some enospc) v (λ q h. h)

Refused-Calm : (d d' : Disk) → Sound d → Refused d d' → Calm d d'
Refused-Calm d d' v r = subst (Calm d) (sym r.rest) (marked-Calm d d'.dbm (some enospc) v r.marks)

Given-Fresh : (d d' : Disk) (blk : ℕ) (g : Given d blk d') → Fresh d blk g.idx d'.dbm
Given-Fresh d d' blk g = record {
  in_range = g.in_range;
  at = g.at;
  was_free = g.was_free;
  marks = g.marks;
}

once-Zeroes : (d : Disk) (blk : ℕ) → Zeroes d blk (memset_zero blk block_size d.mem)
once-Zeroes d blk = record {
  zero_in = λ x lo hi. memset_zero-inside blk block_size x d.mem lo hi;
  same_out = λ x out. memset_zero-Outside blk block_size x d.mem out;
}

twice-Zeroes :
    (d : Disk) (blk : ℕ)
    → Zeroes d blk (memset_zero blk block_size (memset_zero blk block_size d.mem))
twice-Zeroes d blk = record {
  zero_in = λ x lo hi. memset_zero-inside blk block_size x _ lo hi;
  same_out = λ x out.
      memset_zero-Outside blk block_size x _ out ∙ memset_zero-Outside blk block_size x d.mem out;
}

-- The answer for a slot: none, or the block that the slot now names.
abbrev pub Found : Disk → ℕ → ℕ → Option ℕ × Disk → Type 0
Found d ino s r =
    Calm d r.1 × ((r.0 ≡ none) ⊎ ((p : ℕ) × (r.0 ≡ some p) × (p ≢ 0) × (ptr r.1 ino s ≡ p)))

grown-Found :
    (d d' : Disk) (ino s blk : ℕ)
    → Sound d
    → blk ≢ 0
    → Grows d ino s blk d'
    → Found d ino s (some blk, d')
grown-Found d d' ino s blk v nz g = (
  (Grows-Sound d d' ino s blk g v, Grows-Same d d' ino s blk g v),
  inr (blk, refl, nz, rw (g.ptrs ino s, ==_refl ino, ==_refl s) refl),
)

pub low_slot : (d : Disk) (ino s : ℕ) → s < 8 → ptr d ino s ≡ blocks_of d ino s
unfolding ptr
low_slot d ino s h = rw (lt→ltb s 8 h) refl

linked-Found :
    (d d' : Disk) (ino s blk : ℕ)
    → Sound d
    → s < 8
    → blocks_of d ino s ≡ 0
    → blk ≢ 0
    → Given d blk d'
    → Found d ino s (some blk, set_block ino s blk d')
linked-Found d d' ino s blk v low null nz g =
    subst (λ x. Found d ino s (some blk, set_block ino s blk x)) (sym g.rest)
      (grown-Found d _ ino s blk v nz (
        link-Grows d v blk g.idx d'.dbm (Given-Fresh d d' blk g) _ (once-Zeroes d blk) ino s low
          null))

cleared-Found :
    (d d' : Disk) (ino blk : ℕ)
    → Sound d
    → blocks_of d ino ind_block ≡ 0
    → blk ≢ 0
    → Given d blk d'
    → Found d ino ind_block (clear_array (some blk) (set_block ino ind_block blk d'))
unfolding clear_array
cleared-Found d d' ino blk v null nz g =
    subst (λ x. Found d ino ind_block (clear_array (some blk) (set_block ino ind_block blk x)))
      (sym g.rest)
      (grown-Found d _ ino ind_block blk v nz (
        link-Grows d v blk g.idx d'.dbm (Given-Fresh d d' blk g) _ (twice-Zeroes d blk) ino
          ind_block (omega arith) null))

fill_direct-Found :
    (d : Disk) (ino s : ℕ)
    → Sound d
    → s < 8
    → blocks_of d ino s ≡ 0
    → Found d ino s (fill_direct ino s d)
unfolding fill_direct link_block
fill_direct-Found d ino s v low null = elim (allocate_data_block_lem d v.based) [
  | inl (nz, g) ↦ rw (ne→== _ 0 nz, link_block) (linked-Found d _ ino s _ v low null nz g)
  | inr (z, r) ↦ rw (z, link_block) (Refused-Calm d _ v r, inl refl)
]

direct_block-Found :
    (d : Disk) (ino s : ℕ) → Sound d → s < 8 → Found d ino s (direct_block ino s true d)
unfolding direct_block
direct_block-Found d ino s v low = elim (Bool-cases (blocks_of d ino s == 0)) [
  | inl z ↦ rw z (fill_direct-Found d ino s v low (==→eq _ _ z))
  | inr nz ↦
      rw nz ((v, Same-refl d), inr (blocks_of d ino s, refl, ==→ne _ _ nz, low_slot d ino s low))
]

indirect_array-Found :
    (d : Disk) (ino : ℕ) → Sound d → Found d ino ind_block (indirect_array ino true d)
unfolding indirect_array fill_direct link_block
indirect_array-Found d ino v = elim (Bool-cases (blocks_of d ino ind_block == 0)) [
  | inr nz ↦ rw nz (
    (v, Same-refl d),
    inr (blocks_of d ino ind_block, refl, ==→ne _ _ nz, low_slot d ino ind_block (omega arith)),
  )
  | inl z ↦ rw z (elim (allocate_data_block_lem d v.based) [
    | inl (nz, g) ↦ rw (ne→== _ 0 nz, link_block) (cleared-Found d _ ino _ v (==→eq _ _ z) nz g)
    | inr (none_left, r) ↦ rw (none_left, link_block, clear_array) (Refused-Calm d _ v r, inl refl)
  ])
]

-- The slot of an entry of the indirect block.
pub high_slot :
    (d : Disk) (ino j : ℕ)
    → j < 64
    → blocks_of d ino ind_block ≢ 0
    → ptr d ino (j + 8) ≡ load 8 (entry_at (blocks_of d ino ind_block) j) d.mem
unfolding ptr
high_slot d ino j lt nz =
    let near : ltb (j + 8) 8 ≡ false = ground arith in
    let inside : ltb (j + 8) 72 ≡ true = ground arith in
    let back : j + 8 - 8 ≡ j = omega arith in rw (near, inside, back, ne→== _ 0 nz) refl

entered-Found :
    (d d' : Disk) (ino j blk : ℕ)
    → Sound d
    → j < 64
    → blocks_of d ino ind_block ≢ 0
    → load 8 (entry_at (blocks_of d ino ind_block) j) d.mem ≡ 0
    → blk ≢ 0
    → Given d blk d'
    → Found d ino (j + 8) (
      some blk,
      record d' { mem = store_num 8 (entry_at (blocks_of d ino ind_block) j) blk d'.mem },
    )
entered-Found d d' ino j blk v lt there null nz g =
    subst
      (λ (x : Disk). Found d ino (j + 8) (
        some blk,
        record x { mem = store_num 8 (entry_at (blocks_of d ino ind_block) j) blk x.mem },
      ))
      (sym g.rest)
      (grown-Found d _ ino (j + 8) blk v nz (
        enter-Grows d v blk g.idx d'.dbm (Given-Fresh d d' blk g) _ (once-Zeroes d blk) ino j lt
          there null))

indirect_block-Found :
    (d : Disk) (ino j : ℕ)
    → Sound d
    → j < 64
    → blocks_of d ino ind_block ≢ 0
    → Found d ino (j + 8) (indirect_block (some (blocks_of d ino ind_block)) j true d)
unfolding indirect_block enter_block
indirect_block-Found d ino j v lt there =
    elim (Bool-cases (load 8 (entry_at (blocks_of d ino ind_block) j) d.mem == 0)) [
      | inr nz ↦ rw nz ((v, Same-refl d), inr (_, refl, ==→ne _ _ nz, high_slot d ino j lt there))
      | inl z ↦ rw z (elim (allocate_data_block_lem d v.based) [
        | inl (nz, g) ↦
            rw (ne→== _ 0 nz, enter_block) (entered-Found d _ ino j _ v lt there (==→eq _ _ z) nz g)
        | inr (none_left, r) ↦ rw (none_left, enter_block) (Refused-Calm d _ v r, inl refl)
      ])
    ]

Found-trans :
    (d e : Disk) (ino s : ℕ) (r : Option ℕ × Disk) → Calm d e → Found e ino s r → Found d ino s r
Found-trans d e ino s r c f = ((f.0.0, Same-trans d e r.1 c.1 f.0.1), f.1)

-- From the array that `indirect_array` answered with to the block.
through-Found :
    (d : Disk) (ino j : ℕ) (o : Option ℕ) (e : Disk)
    → j < 64
    → Found d ino ind_block (o, e)
    → Found d ino (j + 8) (indirect_block o j true e)
unfolding indirect_block
through-Found d ino j none e lt (c, f) = (c, inl refl)
through-Found d ino j (some p) e lt (c, inl none_left) = cc
through-Found d ino j (some p) e lt (c, inr (q, same, nz, at)) =
    let back : q ≡ p = ground arith in
    let low : ptr e ino ind_block ≡ blocks_of e ino ind_block =
      low_slot e ino ind_block (omega arith) in
    let named : blocks_of e ino ind_block ≡ p = sym low ∙ (at ∙ back) in
    Found-trans d e ino (j + 8) _ c (
      subst (λ x. Found e ino (j + 8) (indirect_block (some x) j true e)) named
        (indirect_block-Found e ino j c.0 lt (λ z. nz (sym at ∙ (low ∙ z)))))

-- On a sound disk, for a block that a file can have, `data_offset` with allocation leaves the disk
-- sound and the bytes of every file as they were, and answers with null or with the block that then
-- stands in the slot.
pub file_block-Found :
    (d : Disk) (ino k : ℕ)
    → Sound d
    → k < max_blocks
    → Found d ino (data_slot k) (file_block ino k true d)
unfolding file_block
file_block-Found d ino k v lt = elim (Bool-cases (ltb k d_block)) [
  | inl near ↦
      let inside : leb max_blocks k ≡ false = ground arith in
      rw (inside, near) (direct_block-Found d ino k v (omega (arith, ltb→lt _ _ near)))
  | inr far ↦
      let inside : leb max_blocks k ≡ false = ground arith in
      let j = k - d_block in
      let slot : k + 2 ≡ j + 8 = omega (arith, ltb→ge _ _ far) in
      rw (inside, far, slot)
        (through-Found d ino j _ _ (omega (arith, lt)) (indirect_array-Found d ino v))
]
