-- ===== src/Xv6/Log/Header.antt =====
-- The header block of 03-xv6-stcf-scheduler/log.c, written and read back.
use systems_programming_port.Prelude.{
  ℕ, suc, ◌<◌, ◌≡◌, refl, ap, ◌∙◌, List, [], ◌∷◌, arith, length, ==_refl, ne→==, ap₂,
}
use systems_programming_port.Prelude.Maps.{update}
use systems_programming_port.Xv6.Log.{Block, header_of, read_words, put_words}

put_words-below : (i j : ℕ) (ws : List ℕ) (blk : Block) → j < i → put_words i ws blk j ≡ blk j
unfolding put_words
put_words-below i j [] blk h = refl
put_words-below i j (w ∷ ws) blk h =
    put_words-below (suc i) j ws (update blk i w) (omega (arith, h))
    ∙ rw (ne→== i j (λ e. absurd (omega (arith, e, h)))) refl

read_words-put_words :
    (i : ℕ) (ws : List ℕ) (blk : Block) → read_words (length ws) i (put_words i ws blk) ≡ ws
unfolding read_words put_words
read_words-put_words i [] blk = refl
read_words-put_words i (w ∷ ws) blk =
    let head : put_words (suc i) ws (update blk i w) i ≡ w =
      put_words-below (suc i) i ws (update blk i w) (omega arith) ∙ rw (==_refl i) refl in
    ap₂ (λ (x : ℕ) (xs : List ℕ). x ∷ xs) head (read_words-put_words (suc i) ws (update blk i w))

-- The header that `write_head` writes is the one that `read_head` reads, whatever the block held.
pub header_of-put_words :
    (bs : List ℕ) (blk : Block) → header_of (put_words 0 (length bs ∷ bs) blk) ≡ bs
unfolding header_of put_words
header_of-put_words bs blk =
    let count : put_words 1 bs (update blk 0 (length bs)) 0 ≡ length bs =
      put_words-below 1 0 bs (update blk 0 (length bs)) (omega arith) in
    ap (λ n. read_words n 1 (put_words 1 bs (update blk 0 (length bs)))) count
    ∙ read_words-put_words 1 bs (update blk 0 (length bs))
