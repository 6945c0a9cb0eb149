-- ===== src/Wfs/Data/Grow.antt =====
-- A pointer that was null is given a fresh block: the disk stays sound and every file keeps its bytes.
use systems_programming_port.Prelude.{
  ℕ, ◌+◌, ◌*◌, ◌/◌, ◌%◌, ◌≤◌, ◌<◌, ◌≡◌, refl, sym, subst, ◌∙◌, ◌≢◌, ◌⊎◌, inl, inr, true, false,
  ◌&&◌, arith, ltb, ◌==◌, if◌then◌else◌, Bool-cases, ==_refl, ==→eq, ==→ne, ap₂, ltb→lt, ltb→ge,
}
use systems_programming_port.Wfs.Memory.Laws.{Outside}
use systems_programming_port.Wfs.Bitmap.{bitmap_test}
use systems_programming_port.Wfs.Disk.{Disk, block_size, block_at}
use systems_programming_port.Wfs.Data.{max_blocks}
use systems_programming_port.Wfs.Data.Slots.{ptr, data_slot, byte_in, content, IsUsed, Sound, Same}

pub record Grows (d : Disk) (ino s blk : ℕ) (d' : Disk) : Type 0 where
  pub idx : ℕ
  pub in_range : idx < d.num_data_blocks
  pub at : blk ≡ block_at d idx
  pub was_free : bitmap_test idx d.dbm ≡ false
  pub marks : (q : ℕ) → bitmap_test q d'.dbm ≡ (if idx == q then true else bitmap_test q d.dbm)
  pub count : d'.num_data_blocks ≡ d.num_data_blocks
  pub base : d'.d_blocks_ptr ≡ d.d_blocks_ptr
  pub was_null : ptr d ino s ≡ 0
  pub ptrs : (i t : ℕ) → ptr d' i t ≡ (if (i == ino) && (t == s) then blk else ptr d i t)
  pub kept :
      (i t o : ℕ)
      → ptr d i t ≢ 0
      → t ≢ 7
      → o < block_size
      → d'.mem (ptr d i t + o) ≡ d.mem (ptr d i t + o)
  pub zeroed : s ≢ 7 → (o : ℕ) → o < block_size → d'.mem (blk + o) ≡ 0

-- Two blocks do not overlap.
pub apart_blocks :
    (base a b x : ℕ)
    → a ≢ b
    → base + a * block_size ≤ x
    → x < base + a * block_size + block_size
    → Outside (base + b * block_size) block_size x
apart_blocks base a b x ne lo hi = elim (Bool-cases (ltb a b)) [
  | inl lt ↦ inl (omega (arith, ltb→lt _ _ lt, hi))
  | inr ge ↦ inr (omega (arith, ltb→ge _ _ ge, ne, lo))
]

-- A used block is none that is free.
pub used-ne : (d : Disk) (p idx : ℕ) (u : IsUsed d p) → bitmap_test idx d.dbm ≡ false → u.idx ≢ idx
used-ne d p idx u was_free e = cc (subst (λ n. bitmap_test n d.dbm ≡ true) e u.marked)

pub block-inj : (base a b : ℕ) → base + a * block_size ≡ base + b * block_size → a ≡ b
block-inj base a b h = omega (arith, h)

-- Whether a slot is the one that is filled.
abbrev Hit : ℕ → ℕ → ℕ → ℕ → Type 0
Hit ino s i t = ((i ≡ ino) × (t ≡ s)) ⊎ (((i == ino) && (t == s)) ≡ false)

pub slot-cases : (ino s i t : ℕ) → Hit ino s i t
slot-cases ino s i t = elim (Bool-cases (i == ino)) [
  | inr a ↦ inr (rw a refl)
  | inl a ↦ elim (Bool-cases (t == s)) [
    | inr b ↦ inr (rw (a, b) refl)
    | inl b ↦ inl (==→eq i ino a, ==→eq t s b)
  ]
]

pub data_slot-ne : (k : ℕ) → data_slot k ≢ 7
data_slot-ne k e = ground arith

module _ (d d' : Disk) (ino s blk : ℕ) (g : Grows d ino s blk d') (v : Sound d) where
  hit_ptr : ptr d' ino s ≡ blk
  hit_ptr = rw (g.ptrs ino s, ==_refl ino, ==_refl s) refl

  hit_at : (i t : ℕ) → i ≡ ino → t ≡ s → ptr d' i t ≡ blk
  hit_at i t a b = ap₂ (ptr d') a b ∙ hit_ptr

  miss_ptr : (i t : ℕ) → ((i == ino) && (t == s)) ≡ false → ptr d' i t ≡ ptr d i t
  miss_ptr i t m = rw (g.ptrs i t, m) refl

  kept-IsUsed : (p : ℕ) → IsUsed d p → IsUsed d' p
  kept-IsUsed p u = record {
    idx = u.idx;
    in_range = omega (arith, u.in_range, g.count);
    at = omega (arith, u.at, g.base);
    marked = ground (arith, g.marks u.idx, u.marked);
  }

  new-IsUsed : IsUsed d' blk
  new-IsUsed = record {
    idx = g.idx;
    in_range = omega (arith, g.in_range, g.count);
    at = omega (arith, g.at, g.base);
    marked = ground (arith, g.marks g.idx, ==_refl g.idx);
  }

  -- The fresh block is no block that a pointer named before.
  new-ne : (i t : ℕ) → ptr d i t ≢ blk
  new-ne i t e =
      let nonnull : ptr d i t ≢ 0 = λ z. absurd (omega (arith, e, z, g.at, v.based)) in
      let u = v.valid i t nonnull in
      used-ne d (ptr d i t) g.idx u g.was_free
        (block-inj d.d_blocks_ptr u.idx g.idx (omega (arith, u.at, e, g.at)))

  new-distinct : (i t i' t' : ℕ) → ptr d' i t ≢ 0 → ptr d' i t ≡ ptr d' i' t' → (i ≡ i') × (t ≡ t')
  new-distinct i t i' t' nz e = elim (slot-cases ino s i t) [
    | inl (a, b) ↦ elim (slot-cases ino s i' t') [
      | inl (a', b') ↦ (a ∙ sym a', b ∙ sym b')
      | inr m' ↦ absurd (new-ne i' t' (sym (miss_ptr i' t' m') ∙ (sym e ∙ hit_at i t a b)))
    ]
    | inr m ↦ elim (slot-cases ino s i' t') [
      | inl (a', b') ↦ absurd (new-ne i t (sym (miss_ptr i t m) ∙ (e ∙ hit_at i' t' a' b')))
      | inr m' ↦
          v.distinct i t i' t' (λ z. nz (miss_ptr i t m ∙ z))
            (sym (miss_ptr i t m) ∙ (e ∙ miss_ptr i' t' m'))
    ]
  ]

  new-valid : (i t : ℕ) → ptr d' i t ≢ 0 → IsUsed d' (ptr d' i t)
  new-valid i t nz = elim (slot-cases ino s i t) [
    | inl (a, b) ↦ subst (IsUsed d') (sym (hit_at i t a b)) new-IsUsed
    | inr m ↦
        subst (IsUsed d') (sym (miss_ptr i t m))
          (kept-IsUsed (ptr d i t) (v.valid i t (λ z. nz (miss_ptr i t m ∙ z))))
  ]

  grown-byte :
      (i t o : ℕ) → t ≢ 7 → o < block_size → byte_in d' (ptr d' i t) o ≡ byte_in d (ptr d i t) o
  grown-byte i t o ne lt = elim (slot-cases ino s i t) [
    | inl (a, b) ↦
        let null : ptr d i t ≡ 0 = ap₂ (ptr d) a b ∙ g.was_null in
        rw (hit_at i t a b, null) (ground (arith, g.zeroed (λ e. ne (b ∙ e)) o lt))
    | inr m ↦ rw (miss_ptr i t m) (elim (Bool-cases (ptr d i t == 0)) [
      | inl null ↦ rw null refl
      | inr there ↦ rw there (g.kept i t o (==→ne _ _ there) ne lt)
    ])
  ]

  pub Grows-Sound : Sound d'
  Grows-Sound = record {
    based = omega (arith, v.based, g.base);
    fits = omega (arith, v.fits, g.base, g.count);
    valid = new-valid;
    distinct = new-distinct;
  }

  pub Grows-Same : Same d d'
  unfolding content
  Grows-Same = record {
    count = g.count;
    base = g.base;
    bytes = λ i x. elim (Bool-cases (ltb (x / block_size) max_blocks)) [
      | inl inside ↦ rw inside (
          grown-byte i (data_slot (x / block_size)) (x % block_size) (data_slot-ne (x / block_size))
            (omega arith))
      | inr outside ↦ rw outside refl
    ];
  }
