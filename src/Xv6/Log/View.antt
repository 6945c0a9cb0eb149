-- ===== src/Xv6/Log/View.antt =====
-- What a disk holds once the log of 03-xv6-stcf-scheduler/log.c has been replayed on it.
use systems_programming_port.Prelude.{
  ℕ, suc, ◌+◌, ◌≤◌, ◌<◌, ◌≡◌, refl, sym, ◌∙◌, ◌≢◌, ◌⊎◌, inl, inr, true, false, List, [], ◌∷◌, arith,
  length, ◌==◌, if◌then◌else◌, Bool-cases, ne→==,
}
use systems_programming_port.Xv6.Log.{Block, header_of, has_block}

-- The blocks `bs` of a header, whose copies stand from the slot `tail` on.
unfoldable pub view : ℕ → ℕ → List ℕ → (ℕ → Block) → ℕ → Block
view s tail [] d x = d x
view s tail (b ∷ bs) d x = if x == b then d (s + tail + 1) else view s (suc tail) bs d x

-- What recovery would leave of the disk.
abbrev pub seen : ℕ → (ℕ → Block) → ℕ → Block
seen s d x = view s 0 (header_of (d s)) d x

-- A block outside of the log.
abbrev pub IsHome : ℕ → ℕ → ℕ → Type 0
IsHome s size x = (x < s) ⊎ (s + size ≤ x)

-- Distinct blocks outside of the log, which has room for them.
abbrev pub Fits : ℕ → ℕ → List ℕ → Type 0
Fits s size [] = 0 < size
Fits s size (b ∷ bs) = IsHome s size b × (has_block b bs ≡ false) × Fits s (size) bs

pub has_block-head :
    (x b : ℕ) (bs : List ℕ) → has_block x (b ∷ bs) ≡ false → (x ≢ b) × (has_block x bs ≡ false)
has_block-head x b bs h = (λ e. absurd (ground (arith, e, h)), ground (arith, h))

-- The same blocks in the slots of a header.
abbrev pub SameSlots : ℕ → ℕ → List ℕ → (d d' : ℕ → Block) → Type 0
SameSlots s tail [] d d' = s ≡ s
SameSlots s tail (b ∷ bs) d d' =
    (d' (s + tail + 1) ≡ d (s + tail + 1)) × SameSlots s (suc tail) bs d d'

pub range-SameSlots :
    (s tail : ℕ) (bs : List ℕ) (d d' : ℕ → Block)
    → ((k : ℕ) → tail ≤ k → k < tail + length bs → d' (s + k + 1) ≡ d (s + k + 1))
    → SameSlots s tail bs d d'
range-SameSlots s tail [] d d' h = refl
range-SameSlots s tail (b ∷ bs) d d' h = (
  h tail (omega arith) (omega arith),
  range-SameSlots s (suc tail) bs d d' (λ k lo hi. h k (omega (arith, lo)) (omega (arith, hi))),
)

pub moved-SameSlots :
    (s tail : ℕ) (bs : List ℕ) (d d' e e' : ℕ → Block)
    → SameSlots s tail bs d e
    → SameSlots s tail bs d d'
    → SameSlots s tail bs e e'
    → SameSlots s tail bs d' e'
moved-SameSlots s tail [] d d' e e' p q r = refl
moved-SameSlots s tail (b ∷ bs) d d' e e' (p, ps) (q, qs) (r, rs) =
    (r ∙ (p ∙ sym q), moved-SameSlots s (suc tail) bs d d' e e' ps qs rs)

-- Only the block itself and the slots of the log count.
pub view-ext :
    (s tail : ℕ) (bs : List ℕ) (d d' : ℕ → Block) (x : ℕ)
    → SameSlots s tail bs d d'
    → d' x ≡ d x
    → view s tail bs d' x ≡ view s tail bs d x
unfolding view
view-ext s tail [] d d' x h e = e
view-ext s tail (b ∷ bs) d d' x (h, hs) e = elim (Bool-cases (x == b)) [
  | inl t ↦ rw t h
  | inr f ↦ rw f (view-ext s (suc tail) bs d d' x hs e)
]

-- A block that the header does not name.
pub view_unnamed :
    (s tail : ℕ) (bs : List ℕ) (d : ℕ → Block) (x : ℕ)
    → has_block x bs ≡ false
    → view s tail bs d x ≡ d x
unfolding view
view_unnamed s tail [] d x h = refl
view_unnamed s tail (b ∷ bs) d x h =
    let (ne, rest) = has_block-head x b bs h in
    rw (ne→== x b ne) (view_unnamed s (suc tail) bs d x rest)

-- Blocks that are named are outside of the log, so no slot is one of them.
pub slot_unnamed :
    (s size k : ℕ) (bs : List ℕ) → Fits s size bs → k < size → has_block (s + k) bs ≡ false
slot_unnamed s size k [] f h = refl
slot_unnamed s size k (b ∷ bs) (inl lo, ne, f) h =
    rw (ne→== b (s + k) (λ e. absurd (omega (arith, e, lo)))) (slot_unnamed s size k bs f h)
slot_unnamed s size k (b ∷ bs) (inr hi, ne, f) h =
    rw (ne→== b (s + k) (λ e. absurd (omega (arith, e, hi, h)))) (slot_unnamed s size k bs f h)

-- A named block is read from its slot.
pub view-named :
    (s tail : ℕ) (bs : List ℕ) (d d' : ℕ → Block) (x : ℕ)
    → SameSlots s tail bs d d'
    → has_block x bs ≡ true
    → view s tail bs d' x ≡ view s tail bs d x
unfolding view
view-named s tail [] d d' x h m = absurd (ground (arith, m))
view-named s tail (b ∷ bs) d d' x (h, hs) m = elim (Bool-cases (x == b)) [
  | inl t ↦ rw t h
  | inr f ↦ rw f (view-named s (suc tail) bs d d' x hs (ground (arith, m, f)))
]
