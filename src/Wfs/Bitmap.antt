-- ===== src/Wfs/Bitmap.antt =====
-- 01-fuse-filesystem-wfs/wfs.c: the allocation bitmaps. A bitmap is its array of 32-bit words.
pub mod Laws
use systems_programming_port.Prelude.{
  ℕ, zero, suc, ◌+◌, ◌-◌, ◌*◌, ◌/◌, ◌%◌, ◌^◌, ◌≤◌, ◌<◌, ◌≡◌, refl, sym, ap, subst, ◌∙◌, ◌≢◌, ◌↔◌,
  ◌⊎◌, inl, inr, Bool, true, false, not, ◌&&◌, ◌||◌, Option, none, some, List, [], ◌∷◌, ◌++◌, map,
  arith, length, get_elem?, set, get_or, take, drop, replicate, modify, ltb, leb, ◌==◌,
  if◌then◌else◌, Bool-cases, Option-cases, Bytes, codes, str_eq, ==_refl, ne→==, ==→eq, ==→ne,
  tests,
}
use systems_programming_port.Prelude.Maps.{update}
use systems_programming_port.Wfs.Word.{test_bit, set_bit, clear_bit, all_ones}

abbrev pub Bitmap : Type 0
Bitmap = ℕ → ℕ

unfoldable pub bitmap_test : ℕ → Bitmap → Bool
unfolding test_bit
bitmap_test position bm = test_bit (bm (position / 32)) (position % 32)

unfoldable pub free_bitmap : ℕ → Bitmap → Bitmap
unfolding clear_bit
free_bitmap position bm = update bm (position / 32) (clear_bit (bm (position / 32)) (position % 32))

-- The inner loop, from bit `k` on for `n` bits.
unfoldable pub first_zero : ℕ → ℕ → ℕ → Option ℕ
unfolding test_bit
first_zero zero k w = none
first_zero (suc n) k w = let rest = first_zero n (suc k) w in if test_bit w k then rest else some k

-- A word with every bit set is passed over.
abbrev pub free_bit : ℕ → Option ℕ
free_bit w = if w == all_ones then none else first_zero 32 0 w

-- The outer loop, from word `i` on for `n` words.
unfoldable pub allocate_from : ℕ → ℕ → Bitmap → Option ℕ × Bitmap
unfolding first_zero set_bit
allocate_from zero i bm = (none, bm)
allocate_from (suc n) i bm = elim (free_bit (bm i)) [
  | none ↦ allocate_from n (suc i) bm
  | some k ↦ (some (32 * i + k), update bm i (set_bit (bm i) k))
]

-- The position taken, or `none` for -1.
unfoldable pub allocate_block : Bitmap → ℕ → Option ℕ × Bitmap
unfolding allocate_from
allocate_block bm len = allocate_from len 0 bm
