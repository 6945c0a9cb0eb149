-- ===== src/Wfs/Ops/FreedDirect.antt =====
-- `wfs_unlink` and `wfs_rmdir` of 01-fuse-filesystem-wfs/wfs.c give back the blocks that an inode names itself.
use systems_programming_port.Prelude.{
  ℕ, zero, suc, ◌+◌, ◌≤◌, ◌<◌, ◌≡◌, refl, sym, ap, subst, ◌∙◌, ◌≢◌, inl, inr, arith, ◌==◌,
  Bool-cases, ==_refl, ==→eq, ==→ne,
}
use systems_programming_port.Prelude.{◌^◌, inl, inr}
use systems_programming_port.Wfs.Data.Fill.{blocks_of-set_block}
use systems_programming_port.Wfs.Disk.{Disk, d_block, free_block}
use systems_programming_port.Wfs.Data.{blocks_of, set_block}
use systems_programming_port.Wfs.Data.Slots.{ptr, Sound}
use systems_programming_port.Wfs.Data.Find.{low_slot}
use systems_programming_port.Wfs.Data.Drop.{freed, free_block-IsUsed}
use systems_programming_port.Wfs.Data.Returned.{Gives, Gives-refl, Gives-trans, Drops-Gives}
use systems_programming_port.Wfs.Data.Free.{cut-Drops}
use systems_programming_port.Wfs.Ops.Remove.{free_direct}

pub cut-Gives :
    (d : Disk) (ino s : ℕ)
    → d.num_data_blocks ≤ 2 ^ 32
    → Sound d
    → s < 8
    → blocks_of d ino s ≢ 0
    → (s ≡ 7 → (j : ℕ) → j < 64 → ptr d ino (j + 8) ≡ 0)
    → Gives d ino (set_block ino s 0 (free_block (blocks_of d ino s) d))
cut-Gives d ino s few v low nz last =
    let named : ptr d ino s ≡ blocks_of d ino s = low_slot d ino s low in
    let there : ptr d ino s ≢ 0 = λ z. nz (sym named ∙ z) in
    let same : free_block (blocks_of d ino s) d ≡ freed (ptr d ino s) d =
      ap (λ p. free_block p d) (sym named)
      ∙ free_block-IsUsed d (ptr d ino s) few (v.valid ino s there) in
    subst (λ x. Gives d ino (set_block ino s 0 x)) (sym same)
      (Drops-Gives d _ ino s v (cut-Drops d v ino s low there last))

pub own_slot :
    (d : Disk) (ino i : ℕ)
    → blocks_of (set_block ino i 0 (free_block (blocks_of d ino i) d)) ino i ≡ 0
own_slot d ino i =
    blocks_of-set_block (free_block (blocks_of d ino i) d) ino i 0 ino i
    ∙ rw (==_refl ino, ==_refl i) refl

-- The slot `i` is null in `e`, and those after it in what follows.
one_more :
    (n i ino : ℕ) (d e : Disk)
    → Gives d ino e
    → ptr e ino i ≡ 0
    → Gives e ino (free_direct n (i + 1) ino e)
      × ((t : ℕ) → i + 1 ≤ t → t < n + (i + 1) → ptr (free_direct n (i + 1) ino e) ino t ≡ 0)
    → Gives d ino (free_direct n (i + 1) ino e)
      × ((t : ℕ) → i ≤ t → t < suc n + i → ptr (free_direct n (i + 1) ino e) ino t ≡ 0)
one_more n i ino d e one null (rest, more) = (
  Gives-trans d e (free_direct n (i + 1) ino e) ino one rest,
  λ t lo hi. elim (Bool-cases (i == t)) [
    | inl here ↦
        subst (λ k. ptr (free_direct n (i + 1) ino e) ino k ≡ 0) (==→eq i t here)
          (rest.2.null i null)
    | inr later ↦ more t (omega (arith, lo, ==→ne i t later)) (omega (arith, hi))
  ],
)

pub free_direct-Gives :
    (n i ino : ℕ) (d : Disk)
    → d.num_data_blocks ≤ 2 ^ 32
    → Sound d
    → n + i ≤ d_block
    → Gives d ino (free_direct n i ino d)
      × ((t : ℕ) → i ≤ t → t < n + i → ptr (free_direct n i ino d) ino t ≡ 0)
unfolding free_direct
free_direct-Gives zero i ino d few v h =
    (Gives-refl d ino v, λ t lo hi. absurd (omega (arith, lo, hi)))
free_direct-Gives (suc n) i ino d few v h = elim (Bool-cases (blocks_of d ino i == 0)) [
  | inl null ↦ rw null (
      one_more n i ino d d (Gives-refl d ino v)
        (low_slot d ino i (omega (arith, h)) ∙ ==→eq _ _ null)
        (free_direct-Gives n (i + 1) ino d few v (omega (arith, h))))
  | inr there ↦
      let next : Disk = set_block ino i 0 (free_block (blocks_of d ino i) d) in
      let one =
        cut-Gives d ino i few v (omega (arith, h)) (==→ne _ _ there)
          (λ e. absurd (omega (arith, e, h))) in
      let named = low_slot next ino i (omega (arith, h)) in
      rw there (
        one_more n i ino d next one (named ∙ own_slot d ino i) (
          free_direct-Gives n (i + 1) ino next (omega (arith, few, one.2.count)) one.0
            (omega (arith, h))))
]
