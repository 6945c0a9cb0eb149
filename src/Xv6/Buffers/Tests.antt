-- ===== src/Xv6/Buffers/Tests.antt =====
-- Concrete runs of the buffer cache of 03-xv6-stcf-scheduler/bio.c.
use systems_programming_port.Prelude.{
  ℕ, ◌<◌, ◌≡◌, refl, ◌↔◌, inl, inr, true, false, none, some, arith, ◌==◌, Bool-cases,
}
use systems_programming_port.Prelude.Maps.{update}
use systems_programming_port.Xv6.Log.{Block}
use systems_programming_port.Xv6.Buffers.{
  nbuf, Bcache, bread, bget, got, asleep, panic, Bread, bwrite, modified, binit, is_spare,
}
use systems_programming_port.Xv6.Buffers.Coherent.{Holds}
use systems_programming_port.Xv6.Buffers.Clients.{
  reads, changes, writes, Reach, start, then_step, Reach-read, Reach-stored, bget-none_iff,
}

-- The words of each block are its number.
abbrev disk : ℕ → Block
disk b i = b

abbrev empty : Bcache
empty = binit disk 100

abbrev cache_of : Bread → Bcache
cache_of (got i s) = s
cache_of (asleep i s) = s
cache_of panic = empty

-- The block 7 read into the last buffer, changed, and read again by another process, which sleeps.
abbrev with_seven : Bcache
with_seven = cache_of (bread 1 7 empty)

reads_seven : bread 1 7 empty ≡ got 0 with_seven
unfolding bread
reads_seven = refl

abbrev changed : Bcache
changed = modified 0 (λ i. 9) with_seven

second_sleeps : bread 1 7 changed ≡ asleep 0 (cache_of (bread 1 7 changed))
unfolding bread
second_sleeps = refl

abbrev with_eight : Bcache
with_eight = cache_of (bread 1 8 changed)

reads_eight : bread 1 8 changed ≡ got 1 with_eight
unfolding bread
reads_eight = refl

out_of_range : bread 1 100 empty ≡ panic
unfolding bread
out_of_range = refl

Reach-changed : Reach disk 100 (update disk 7 (λ i. 9)) changed
unfolding bread
Reach-changed =
    then_step disk (update disk 7 (λ i. 9)) with_seven changed
      (then_step disk disk empty with_seven start (reads disk empty with_seven 7 0 reads_seven))
      (changes disk with_seven 0 (λ i. 9) (omega arith) refl)

Reach-read_example :
    Holds (with_eight.buf 1) 8
    × ((with_eight.buf 1).locked ≡ true)
    × ((with_eight.buf 1).words ≡ (λ i. 8))
    × ((j : ℕ) → j < nbuf → Holds (with_eight.buf j) 8 → j ≡ 1)
unfolding bread
Reach-read_example =
    Reach-read disk 100 (update disk 7 (λ i. 9)) changed 8 1 with_eight Reach-changed reads_eight

-- The block 7 written to the disk.
abbrev flushed : Bcache
flushed = elim (bwrite 0 changed) [ none ↦ empty | some t ↦ t ]

writes_seven : bwrite 0 changed ≡ some flushed
unfolding bread bwrite
writes_seven = refl

flushed_clean : (i : ℕ) → (flushed.buf i).dirty ≡ false
unfolding bread bwrite
flushed_clean i = elim (Bool-cases (0 == i)) [ inl same ↦ rw same refl | inr other ↦ rw other refl ]

Reach-stored_example : flushed.disk 7 ≡ (λ i. 9)
unfolding bread
Reach-stored_example =
    Reach-stored disk 100 (update disk 7 (λ i. 9)) flushed 7
      (then_step (update disk 7 (λ i. 9)) (update disk 7 (λ i. 9)) changed flushed Reach-changed
        (writes (update disk 7 (λ i. 9)) changed flushed 0 (omega arith) writes_seven))
      (λ i lt h. flushed_clean i)

bget-none_iff_example :
    (bget 1 8 changed ≡ none)
    ↔ ((i : ℕ) → i < nbuf → (Holds (changed.buf i) 8 → ⊥) × (is_spare (changed.buf i) ≡ false))
bget-none_iff_example = bget-none_iff disk 100 (update disk 7 (λ i. 9)) changed 8 Reach-changed
