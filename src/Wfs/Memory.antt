-- ===== src/Wfs/Memory.antt =====
-- The bytes of the disk image: C's `memcpy`, `memset`, and loads and stores of little-endian fields.
pub mod Laws
use systems_programming_port.Prelude.{
  ℕ, zero, suc, ◌+◌, ◌-◌, ◌*◌, ◌/◌, ◌%◌, ◌^◌, ◌≤◌, ◌<◌, ◌≡◌, refl, sym, ap, subst, ◌∙◌, ◌≢◌, ◌↔◌,
  ◌⊎◌, inl, inr, Bool, true, false, not, ◌&&◌, ◌||◌, Option, none, some, List, [], ◌∷◌, ◌++◌, map,
  arith, length, get_elem?, set, get_or, take, drop, replicate, modify, ltb, leb, ◌==◌,
  if◌then◌else◌, Bool-cases, Option-cases, Bytes, codes, str_eq, ==_refl, ne→==, ==→eq, ==→ne,
  tests,
}

-- The byte at each offset of the image.
abbrev pub Memory : Type 0
Memory = ℕ → ℕ

-- Bytes stored from address `a` on.
unfoldable pub poke : ℕ → Bytes → Memory → Memory
poke a bs m x = if leb a x && ltb x (a + length bs) then get_or bs (x - a) 0 else m x

unfoldable pub peek : ℕ → ℕ → Memory → Bytes
peek a zero m = []
peek a (suc n) m = m a ∷ peek (a + 1) n m

unfoldable pub memset_zero : ℕ → ℕ → Memory → Memory
unfolding poke
memset_zero a n m x = if leb a x && ltb x (a + n) then 0 else m x

-- `n` bytes of a number, the lowest first.
unfoldable pub bytes_of : ℕ → ℕ → Bytes
bytes_of zero v = []
bytes_of (suc n) v = v % 256 ∷ bytes_of n (v / 256)

unfoldable pub load : ℕ → ℕ → Memory → ℕ
load zero a m = 0
load (suc n) a m = m a + 256 * load n (a + 1) m

unfoldable pub store_num : ℕ → ℕ → ℕ → Memory → Memory
unfolding poke bytes_of
store_num n a v m = poke a (bytes_of n v) m
