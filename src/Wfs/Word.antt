-- ===== src/Wfs/Word.antt =====
-- The bits of a 32-bit word, as wfs.c reads and writes them by shifts and masks.
use systems_programming_port.Prelude.{
  Bool-cases, ==→eq, ==→ne, ap, ◌∙◌, inl, inr, ℕ, zero, suc, ◌+◌, ◌*◌, ◌/◌, ◌%◌, ◌<◌, ◌≡◌, refl,
  Bool, true, false, arith, ◌==◌, if◌then◌else◌,
}

-- `(w >> k) & 1`
unfoldable pub test_bit : ℕ → ℕ → Bool
test_bit w zero = w % 2 == 1
test_bit w (suc k) = test_bit (w / 2) k

-- `w | (1 << k)`
unfoldable pub set_bit : ℕ → ℕ → ℕ
set_bit w zero = w / 2 * 2 + 1
set_bit w (suc k) = set_bit (w / 2) k * 2 + w % 2

-- `w & ~(1 << k)`
unfoldable pub clear_bit : ℕ → ℕ → ℕ
clear_bit w zero = w / 2 * 2
clear_bit w (suc k) = clear_bit (w / 2) k * 2 + w % 2

pub test_bit-set_bit :
    (w k j : ℕ) → test_bit (set_bit w k) j ≡ (if k == j then true else test_bit w j)
unfolding test_bit set_bit
test_bit-set_bit w zero zero = ground arith
test_bit-set_bit w zero (suc j) =
    let half : (w / 2 * 2 + 1) / 2 ≡ w / 2 = omega arith in rw half (ground arith)
test_bit-set_bit w (suc k) zero = ground arith
test_bit-set_bit w (suc k) (suc j) =
    let half : (set_bit (w / 2) k * 2 + w % 2) / 2 ≡ set_bit (w / 2) k = omega arith in
    rw half (ground (arith, test_bit-set_bit (w / 2) k j))

pub test_bit-clear_bit :
    (w k j : ℕ) → test_bit (clear_bit w k) j ≡ (if k == j then false else test_bit w j)
unfolding test_bit clear_bit
test_bit-clear_bit w zero zero = ground arith
test_bit-clear_bit w zero (suc j) =
    let half : (w / 2 * 2) / 2 ≡ w / 2 = omega arith in rw half (ground arith)
test_bit-clear_bit w (suc k) zero = ground arith
test_bit-clear_bit w (suc k) (suc j) =
    let half : (clear_bit (w / 2) k * 2 + w % 2) / 2 ≡ clear_bit (w / 2) k = omega arith in
    rw half (ground (arith, test_bit-clear_bit (w / 2) k j))

abbrev pub all_ones : ℕ
all_ones = 0xffffffff

-- A test that every number under the bound passes.
unfoldable pub passes : (ℕ → Bool) → ℕ → Bool
passes test zero = true
passes test (suc bound) = if passes test bound then test bound else false

passes_both :
    (before here : Bool) → (if before then here else false) ≡ true → (before ≡ true) × (here ≡ true)
passes_both true here h = (refl, h)
passes_both false here h = absurd (ground (arith, h))

pub passes_each :
    (test : ℕ → Bool) (bound : ℕ) → passes test bound ≡ true → (k : ℕ) → k < bound → test k ≡ true
unfolding passes
passes_each test zero all k under = absurd (omega (arith, under))
passes_each test (suc bound) all k under =
    let (before, here) = passes_both (passes test bound) (test bound) all in
    elim (Bool-cases (k == bound)) [
      | inl last ↦ ap test (==→eq _ _ last) ∙ here
      | inr earlier ↦ passes_each test bound before k (omega (arith, under, ==→ne _ _ earlier))
    ]

pub test_bit-all_ones : (k : ℕ) → k < 32 → test_bit all_ones k ≡ true
unfolding passes test_bit
test_bit-all_ones = passes_each (test_bit all_ones) 32 refl
