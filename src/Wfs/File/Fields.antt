-- ===== src/Wfs/File/Fields.antt =====
-- The fields of an inode that say nothing of the bytes of a file, in 01-fuse-filesystem-wfs/wfs.c.
use systems_programming_port.Prelude.{
  ℕ, ◌≡◌, refl, sym, ap, subst, ◌∙◌, inl, inr, Bool, ltb, ◌==◌, Bool-cases, ==→eq,
}
use systems_programming_port.Prelude.Maps.{update}
use systems_programming_port.Wfs.Memory.{load}
use systems_programming_port.Wfs.Bitmap.{Bitmap}
use systems_programming_port.Wfs.Disk.{Disk, Inode, update_times}
use systems_programming_port.Wfs.Data.{blocks_of}
use systems_programming_port.Wfs.Data.Slots.{ptr, content, Sound, IsUsed}
use systems_programming_port.Wfs.Data.Find.{Calm}
use systems_programming_port.Wfs.File.{touch, grow_size}

-- Fields other than the pointers say nothing of the bytes of a file.
abbrev pub SamePtrs : Disk → (ℕ → Inode) → Type 0
SamePtrs d f = (i s : ℕ) → (f i).blocks s ≡ blocks_of d i s

inodes-ptr :
    (d : Disk) (f : ℕ → Inode)
    → SamePtrs d f
    → (i t : ℕ) → ptr (record d { inodes = f }) i t ≡ ptr d i t
unfolding ptr load
inodes-ptr d f h i t = rw (h i t, h i 7) refl

inodes-content :
    (d : Disk) (f : ℕ → Inode)
    → SamePtrs d f
    → (i x : ℕ) → content (record d { inodes = f }) i x ≡ content d i x
unfolding content
inodes-content d f h i x = rw (inodes-ptr d f h) refl

moved-IsUsed : (d : Disk) (f : ℕ → Inode) (p : ℕ) → IsUsed d p → IsUsed (record d { inodes = f }) p
moved-IsUsed d f p u = record { idx = u.idx; in_range = u.in_range; at = u.at; marked = u.marked }

pub inodes-Calm :
    (d : Disk) (f : ℕ → Inode) → SamePtrs d f → Sound d → Calm d (record d { inodes = f })
inodes-Calm d f h v = (
  record {
    based = v.based;
    fits = v.fits;
    valid = λ i t nz.
        subst (IsUsed (record d { inodes = f })) (sym (inodes-ptr d f h i t))
          (moved-IsUsed d f (ptr d i t) (v.valid i t (λ z. nz (inodes-ptr d f h i t ∙ z))));
    distinct = λ i t i' t' nz e.
        v.distinct i t i' t' (λ z. nz (inodes-ptr d f h i t ∙ z))
          (sym (inodes-ptr d f h i t) ∙ (e ∙ inodes-ptr d f h i' t'));
  },
  record { count = refl; base = refl; bytes = inodes-content d f h },
)

-- Blocks have nothing to do with the bitmap of the inodes.
pub ibm-Sound : (d : Disk) (m : Bitmap) → Sound d → Sound (record d { ibm = m })
unfolding ptr
ibm-Sound d m v =
    let kept : (p : ℕ) → IsUsed d p → IsUsed (record d { ibm = m }) p =
      λ p u. record { idx = u.idx; in_range = u.in_range; at = u.at; marked = u.marked } in
    record {
      based = v.based;
      fits = v.fits;
      valid = λ i t nz. kept _ (v.valid i t nz);
      distinct = v.distinct;
    }

-- The new inode of a slot with the pointers of the old one.
pub one-SamePtrs :
    (d : Disk) (ino : ℕ) (node : Inode)
    → ((s : ℕ) → node.blocks s ≡ blocks_of d ino s)
    → SamePtrs d (update d.inodes ino node)
one-SamePtrs d ino node h i s = elim (Bool-cases (ino == i)) [
  | inl own ↦ rw own (h s ∙ ap (λ n. blocks_of d n s) (==→eq _ _ own))
  | inr other ↦ rw other refl
]

pub touch-Calm : (now ino : ℕ) (a m c : Bool) (d : Disk) → Sound d → Calm d (touch now ino a m c d)
unfolding update_times
touch-Calm now ino a m c d v =
    inodes-Calm d _ (one-SamePtrs d ino (update_times now a m c (d.inodes ino)) (λ s. refl)) v

pub grow_size-Calm : (ino end : ℕ) (d : Disk) → Sound d → Calm d (grow_size ino end d)
grow_size-Calm ino end d v = elim (Bool-cases (ltb ((d.inodes ino).size) end)) [
  | inl t ↦
      rw t
        (inodes-Calm d _ (one-SamePtrs d ino (record (d.inodes ino) { size = end }) (λ s. refl)) v)
  | inr f ↦ rw f (v, record { count = refl; base = refl; bytes = λ i x. refl })
]

pub touch-content :
    (now ino : ℕ) (a m c : Bool) (d : Disk) (i x : ℕ)
    → content (touch now ino a m c d) i x ≡ content d i x
unfolding update_times
touch-content now ino a m c d =
    inodes-content d _ (one-SamePtrs d ino (update_times now a m c (d.inodes ino)) (λ s. refl))
