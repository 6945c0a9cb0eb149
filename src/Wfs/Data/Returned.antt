-- ===== src/Wfs/Data/Returned.antt =====
-- What becomes of the blocks of a file that `wfs_unlink` and `wfs_rmdir` of 01-fuse-filesystem-wfs/wfs.c give back.
use systems_programming_port.Prelude.{
  ℕ, ◌≡◌, refl, sym, ap, ◌∙◌, ◌≢◌, ◌⊎◌, inl, inr, false, ◌&&◌, arith, ◌==◌, Bool-cases, ==_refl,
  ==→eq,
}
use systems_programming_port.Wfs.Bitmap.{bitmap_test}
use systems_programming_port.Wfs.Disk.{Disk, block_at}
use systems_programming_port.Wfs.Data.Slots.{ptr, content, Sound}
use systems_programming_port.Wfs.Data.Drop.{Drops, Drops-Sound, Drops-content}

-- The blocks that an inode named: each is still named by the same pointer, or is free.
pub record Returned (d : Disk) (ino : ℕ) (d' : Disk) : Type 0 where
  pub count : d'.num_data_blocks ≡ d.num_data_blocks
  pub base : d'.d_blocks_ptr ≡ d.d_blocks_ptr
  pub null : (t : ℕ) → ptr d ino t ≡ 0 → ptr d' ino t ≡ 0
  pub clear : (q : ℕ) → bitmap_test q d.dbm ≡ false → bitmap_test q d'.dbm ≡ false
  pub back :
      (t q : ℕ)
      → ptr d ino t ≢ 0
      → block_at d q ≡ ptr d ino t
      → (ptr d' ino t ≡ ptr d ino t) ⊎ (bitmap_test q d'.dbm ≡ false)

Returned-trans : (d e f : Disk) (ino : ℕ) → Returned d ino e → Returned e ino f → Returned d ino f
Returned-trans d e f ino a b = record {
  count = b.count ∙ a.count;
  base = b.base ∙ a.base;
  null = λ t z. b.null t (a.null t z);
  clear = λ q h. b.clear q (a.clear q h);
  back = λ t q nz at. elim (a.back t q nz at) [
    | inr free ↦ inr (b.clear q free)
    | inl same ↦
        let at' : block_at e q ≡ ptr e ino t = omega (arith, at, same, a.base) in
        elim (b.back t q (λ z. nz (sym same ∙ z)) at') [
          | inl same' ↦ inl (same' ∙ same)
          | inr free ↦ inr free
        ]
  ];
}

Drops-Returned : (d d' : Disk) (ino s : ℕ) → Drops d ino s d' → Returned d ino d'
Drops-Returned d d' ino s g = record {
  count = g.count;
  base = g.base;
  null = λ t z. g.ptrs ino t ∙ elim (Bool-cases ((ino == ino) && (t == s))) [
    | inl own ↦ rw own refl
    | inr other ↦ rw other z
  ];
  clear = g.clear;
  back = λ t q nz at. elim (Bool-cases (t == s)) [
    | inl own ↦ inr (g.frees q (at ∙ ap (ptr d ino) (==→eq t s own)))
    | inr other ↦ inl (g.ptrs ino t ∙ rw (==_refl ino, other) refl)
  ];
}

-- The disk stays sound, other files keep their bytes, and no block of the inode is lost.
abbrev pub Gives : Disk → ℕ → Disk → Type 0
Gives d ino d' =
    Sound d' × ((i x : ℕ) → i ≢ ino → content d' i x ≡ content d i x) × Returned d ino d'

pub Gives-refl : (d : Disk) (ino : ℕ) → Sound d → Gives d ino d
Gives-refl d ino v = (
  v,
  λ i x ne. refl,
  record {
    count = refl;
    base = refl;
    null = λ t z. z;
    clear = λ q h. h;
    back = λ t q nz at. inl refl;
  },
)

pub Gives-trans : (d e f : Disk) (ino : ℕ) → Gives d ino e → Gives e ino f → Gives d ino f
Gives-trans d e f ino (v, same, r) (v', same', r') =
    (v', λ i x ne. same' i x ne ∙ same i x ne, Returned-trans d e f ino r r')

pub Drops-Gives : (d d' : Disk) (ino s : ℕ) → Sound d → Drops d ino s d' → Gives d ino d'
Drops-Gives d d' ino s v g =
    (Drops-Sound d d' ino s g v, Drops-content d d' ino s g v, Drops-Returned d d' ino s g)
