-- ===== src/Wfs/Data/Alloc.antt =====
-- What `allocate_data_block` of 01-fuse-filesystem-wfs/wfs.c gives.
use systems_programming_port.Prelude.{
  ℕ, ◌<◌, ◌≡◌, refl, sym, ap, subst, ◌∙◌, ◌≢◌, ◌⊎◌, inl, inr, true, false, some, arith, ltb, ◌==◌,
  if◌then◌else◌, Bool-cases, ltb→lt,
}
use systems_programming_port.Wfs.Memory.{memset_zero}
use systems_programming_port.Wfs.Bitmap.{Bitmap, bitmap_test, allocate_block}
use systems_programming_port.Wfs.Bitmap.Laws.{Takes, allocate_block_lem}
use systems_programming_port.Wfs.Disk.{
  Disk, block_size, block_at, give_block, allocate_data_block, enospc, bitmap_len_words,
}

-- A block that was free is taken and zeroed, and nothing else is touched.
pub record Given (d : Disk) (blk : ℕ) (d' : Disk) : Type 0 where
  pub idx : ℕ
  pub in_range : idx < d.num_data_blocks
  pub at : blk ≡ block_at d idx
  pub was_free : bitmap_test idx d.dbm ≡ false
  pub marks : (q : ℕ) → bitmap_test q d'.dbm ≡ (if idx == q then true else bitmap_test q d.dbm)
  pub rest : d' ≡ record d { dbm = d'.dbm; mem = memset_zero blk block_size d.mem }

-- No block is given: at most a position past the last block is marked.
pub record Refused (d d' : Disk) : Type 0 where
  pub marks : (q : ℕ) → bitmap_test q d.dbm ≡ true → bitmap_test q d'.dbm ≡ true
  pub rest : d' ≡ record d { dbm = d'.dbm; wfs_error = some enospc }

abbrev Answer : Disk → ℕ × Disk → Type 0
Answer d r = ((r.0 ≢ 0) × Given d r.0 r.1) ⊎ ((r.0 ≡ 0) × Refused d r.1)

give_block_lem :
    (d : Disk) (p hi : ℕ) (bm : Bitmap)
    → 0 < d.d_blocks_ptr
    → Takes d.dbm 0 hi p bm
    → Answer d (give_block (some p) (record d { dbm = bm }))
unfolding give_block
give_block_lem d p hi bm base t = elim (Bool-cases (ltb p d.num_data_blocks)) [
  | inl inside ↦
      rw (inside, give_block)
        (inl (
          λ e. absurd (omega (arith, e, base)),
          record {
            idx = p;
            in_range = ltb→lt _ _ inside;
            at = refl;
            was_free = t.was_free;
            marks = t.after;
            rest = refl;
          },
        ))
  | inr outside ↦
      rw (outside, give_block)
        (inr (refl, record { marks = λ q h. ground (arith, t.after q); rest = refl }))
]

pub allocate_data_block_lem :
    (d : Disk)
    → 0 < d.d_blocks_ptr
    → (((allocate_data_block d).0 ≢ 0)
        × Given d (allocate_data_block d).0 (allocate_data_block d).1)
      ⊎ (((allocate_data_block d).0 ≡ 0) × Refused d (allocate_data_block d).1)
unfolding allocate_data_block
allocate_data_block_lem d base =
    elim (allocate_block_lem d.dbm (bitmap_len_words d.num_data_blocks)) [
      | inl (p, found, t) ↦
          let bm = (allocate_block d.dbm (bitmap_len_words d.num_data_blocks)).1 in
          subst (λ o. Answer d (give_block o (record d { dbm = bm }))) (sym found)
            (give_block_lem d p _ bm base t)
      | inr (none_left, same, full) ↦
          let bm = (allocate_block d.dbm (bitmap_len_words d.num_data_blocks)).1 in
          subst (λ o. Answer d (give_block o (record d { dbm = bm }))) (sym none_left)
            (inr (refl, record { marks = λ q h. ap (bitmap_test q) same ∙ h; rest = refl }))
    ]
