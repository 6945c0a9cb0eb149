-- ===== src/Xv6/Log/Phases.antt =====
-- The loops of 03-xv6-stcf-scheduler/log.c: what each leaves on the disk and in the buffers, wherever the power
-- fails.
use systems_programming_port.Prelude.{
  ℕ, suc, ◌+◌, ◌-◌, ◌≤◌, ◌<◌, ◌≡◌, refl, sym, ap, ◌∙◌, ◌≢◌, ◌⊎◌, inl, inr, true, false, List, [],
  ◌∷◌, arith, length, ◌==◌, Bool-cases, ==_refl, ne→==, ==→eq, ==→ne,
}
use systems_programming_port.Prelude.Maps.{update}
use systems_programming_port.Xv6.Log.{
  Log, has_block, bwrite, copy_block, install_from, write_log_from, write_head, put_words,
  header_of,
}
use systems_programming_port.Xv6.Log.View.{
  view, IsHome, Fits, SameSlots, range-SameSlots, moved-SameSlots, has_block-head, view-ext,
  view_unnamed, slot_unnamed,
}
use systems_programming_port.Xv6.Log.Header.{header_of-put_words}

pub record Kept (l l' : Log) : Type 0 where
  pub start : l'.start ≡ l.start
  pub size : l'.size ≡ l.size
  pub lh : l'.lh ≡ l.lh
  pub count : l'.outstanding ≡ l.outstanding

bwrite-other : (b x : ℕ) (l : Log) → x ≢ b → (bwrite b l).disk x ≡ l.disk x
bwrite-other b x l ne = elim (Bool-cases (l.left == 0)) [
  | inl off ↦ rw off refl
  | inr on ↦ rw (on, ne→== b x (λ e. ne (sym e))) refl
]

bwrite_self : (b : ℕ) (l : Log) → 0 < l.left → (bwrite b l).disk b ≡ l.cache b
bwrite_self b l on = rw (ne→== l.left 0 (λ e. absurd (omega (arith, e, on))), ==_refl b) refl

copy-other : (to from x : ℕ) (l : Log) → x ≢ to → (copy_block to from l).cache x ≡ l.cache x
copy-other to from x l ne = rw (ne→== to x (λ e. ne (sym e))) refl

copy_self : (to from : ℕ) (l : Log) → (copy_block to from l).cache to ≡ l.cache from
copy_self to from l = rw (==_refl to) refl

-- `write_log`.
pub write_log-Kept : (tail : ℕ) (bs : List ℕ) (l : Log) → Kept l (write_log_from tail bs l)
unfolding write_log_from
write_log-Kept tail [] l = record { start = refl; size = refl; lh = refl; count = refl }
write_log-Kept tail (b ∷ bs) l =
    let k =
      write_log-Kept (suc tail) bs
        (bwrite (l.start + tail + 1) (copy_block (l.start + tail + 1) b l)) in
    record { start = k.start; size = k.size; lh = k.lh; count = k.count }

pub left-write_log :
    (tail : ℕ) (bs : List ℕ) (l : Log) → (write_log_from tail bs l).left ≡ l.left - length bs
unfolding write_log_from
left-write_log tail [] l = omega arith
left-write_log tail (b ∷ bs) l = omega (
  arith,
  left-write_log (suc tail) bs (bwrite (l.start + tail + 1) (copy_block (l.start + tail + 1) b l)),
)

-- Only slots from `tail` on are written, on the disk and in the buffers.
pub write_log-other :
    (tail : ℕ) (bs : List ℕ) (l : Log) (x : ℕ)
    → (x ≤ l.start + tail) ⊎ (l.start + tail + length bs < x)
    → ((write_log_from tail bs l).disk x ≡ l.disk x)
      × ((write_log_from tail bs l).cache x ≡ l.cache x)
unfolding write_log_from
write_log-other tail [] l x h = (refl, refl)
write_log-other tail (b ∷ bs) l x h =
    let to = l.start + tail + 1 in
    let ne : x ≢ to = λ e. elim h [
      | inl lo ↦ absurd (omega (arith, e, lo))
      | inr hi ↦ absurd (omega (arith, e, hi))
    ] in
    let (disk, cache) =
      write_log-other (suc tail) bs (bwrite to (copy_block to b l)) x
        (elim h [ inl lo ↦ inl (omega (arith, lo)) | inr hi ↦ inr (omega (arith, hi)) ]) in
    (disk ∙ bwrite-other to x (copy_block to b l) ne, cache ∙ copy-other to b x l ne)

-- With power to the end, the slots hold the blocks of the header as the buffers had them.
pub write_log-view :
    (tail : ℕ) (bs : List ℕ) (l : Log)
    → Fits l.start l.size bs
    → tail + length bs < l.size
    → length bs < l.left
    → SameSlots l.start tail bs (write_log_from tail bs l).disk (write_log_from tail bs l).cache
      × ((x : ℕ)
          → has_block x bs ≡ true
          → view l.start tail bs (write_log_from tail bs l).disk x ≡ l.cache x)
unfolding write_log_from view
write_log-view tail [] l f room on = (refl, λ x h. absurd (ground (arith, h)))
write_log-view tail (b ∷ bs) l (home, ne, f) room on =
    let to = l.start + tail + 1 in
    let l1 = bwrite to (copy_block to b l) in
    let end = write_log_from (suc tail) bs l1 in
    let (slots, named) =
      write_log-view (suc tail) bs l1 f (omega (arith, room)) (omega (arith, on)) in
    let (disk, cache) = write_log-other (suc tail) bs l1 to (inl (omega arith)) in
    let first : end.disk to ≡ l.cache b =
      disk ∙ (bwrite_self to (copy_block to b l) (omega (arith, on)) ∙ copy_self to b l) in
    (
      (cache ∙ (copy_self to b l ∙ sym first), slots),
      λ x h. elim (Bool-cases (x == b)) [
        | inl t ↦ rw t (first ∙ ap l.cache (sym (==→eq _ _ t)))
        | inr other ↦
            let rest : has_block x bs ≡ true = ground (arith, h, other) in
            let slot : l.start + tail + 1 ≡ l.start + (tail + 1) = omega arith in
            let apart : x ≢ to = λ e. absurd (
              ground (
                arith,
                slot_unnamed l.start l.size (tail + 1) bs f (omega (arith, room)),
                ap (λ n. has_block n bs) (e ∙ slot),
                rest,
              )) in
            rw other (named x rest ∙ copy-other to b x l apart)
      ],
    )

-- `install_trans`.
pub install-Kept : (tail : ℕ) (bs : List ℕ) (l : Log) → Kept l (install_from tail bs l)
unfolding install_from
install-Kept tail [] l = record { start = refl; size = refl; lh = refl; count = refl }
install-Kept tail (b ∷ bs) l =
    let k = install-Kept (suc tail) bs (bwrite b (copy_block b (l.start + tail + 1) l)) in
    record { start = k.start; size = k.size; lh = k.lh; count = k.count }

pub left-install :
    (tail : ℕ) (bs : List ℕ) (l : Log) → (install_from tail bs l).left ≡ l.left - length bs
unfolding install_from
left-install tail [] l = omega arith
left-install tail (b ∷ bs) l =
    omega (arith, left-install (suc tail) bs (bwrite b (copy_block b (l.start + tail + 1) l)))

-- Only the blocks of the header are written.
pub install-other :
    (tail : ℕ) (bs : List ℕ) (l : Log) (x : ℕ)
    → has_block x bs ≡ false
    → (install_from tail bs l).disk x ≡ l.disk x
unfolding install_from
install-other tail [] l x h = refl
install-other tail (b ∷ bs) l x h =
    let (ne, rest) = has_block-head x b bs h in
    install-other (suc tail) bs (bwrite b (copy_block b (l.start + tail + 1) l)) x rest
    ∙ bwrite-other b x (copy_block b (l.start + tail + 1) l) ne

-- With power to the end, the disk is what the log says.
pub install-view :
    (tail : ℕ) (bs : List ℕ) (l : Log)
    → Fits l.start l.size bs
    → tail + length bs < l.size
    → SameSlots l.start tail bs l.disk l.cache
    → length bs < l.left
    → (x : ℕ) → (install_from tail bs l).disk x ≡ view l.start tail bs l.disk x
unfolding install_from view
install-view tail [] l f room same on x = refl
install-view tail (b ∷ bs) l (home, ne, f) room (same, sames) on x =
    let from = l.start + tail + 1 in
    let c = copy_block b from l in
    let l1 = bwrite b c in
    let slot_ne =
      λ (k : ℕ) (lo : suc tail ≤ k) (hi : k < suc tail + length bs) (e : l.start + k + 1 ≡ b).
        slot-ne k b home (omega (arith, hi, room)) e in
    let disk_same =
      range-SameSlots l.start (suc tail) bs l.disk l1.disk
        (λ k lo hi. bwrite-other b (l.start + k + 1) c (slot_ne k lo hi)) in
    let cache_same =
      range-SameSlots l.start (suc tail) bs l.cache l1.cache
        (λ k lo hi. copy-other b from (l.start + k + 1) l (slot_ne k lo hi)) in
    let rest : (install_from (suc tail) bs l1).disk x ≡ view l.start (suc tail) bs l1.disk x =
      install-view (suc tail) bs l1 f (omega (arith, room))
        (moved-SameSlots l.start (suc tail) bs l.disk l1.disk l.cache l1.cache sames disk_same
          cache_same)
        (omega (arith, on)) x in
    let written : l1.disk b ≡ l.disk from =
      bwrite_self b c (omega (arith, on)) ∙ (copy_self b from l ∙ same) in
    elim (Bool-cases (x == b)) [
      | inl t ↦ rw t (
          rest
          ∙ (view_unnamed l.start (suc tail) bs l1.disk x
                (ap (λ n. has_block n bs) (==→eq _ _ t) ∙ ne)
              ∙ (ap l1.disk (==→eq _ _ t) ∙ written)))
      | inr other ↦ rw other (
          rest
          ∙ view-ext l.start (suc tail) bs l.disk l1.disk x disk_same
              (bwrite-other b x c (==→ne _ _ other)))
    ]
  where
    slot-ne : (k y : ℕ) → IsHome l.start l.size y → k + 1 < l.size → l.start + k + 1 ≢ y
    slot-ne k y (inl lo) lt e = absurd (omega (arith, e, lo))
    slot-ne k y (inr hi) lt e = absurd (omega (arith, e, hi, lt))

pub install_off :
    (tail : ℕ) (bs : List ℕ) (l : Log) → l.left ≡ 0 → (install_from tail bs l).disk ≡ l.disk
unfolding install_from
install_off tail [] l off = refl
install_off tail (b ∷ bs) l off =
    install_off (suc tail) bs (bwrite b (copy_block b (l.start + tail + 1) l)) (omega (arith, off))
    ∙ rw off refl

-- `write_head`.
pub write_head-other : (l : Log) (x : ℕ) → x ≢ l.start → (write_head l).disk x ≡ l.disk x
unfolding write_head
write_head-other l x ne =
    bwrite-other l.start x
      (record l {
        cache = update l.cache l.start (put_words 0 (length l.lh ∷ l.lh) (l.cache l.start));
      })
      ne

-- The power fails before the header is written, or it is written.
pub write_head-header :
    (l : Log)
    → (0 < l.left → header_of ((write_head l).disk l.start) ≡ l.lh)
      × (l.left ≡ 0 → (write_head l).disk ≡ l.disk)
unfolding write_head
write_head-header l = (
  λ on.
      ap header_of (
        bwrite_self l.start
          (record l {
            cache = update l.cache l.start (put_words 0 (length l.lh ∷ l.lh) (l.cache l.start));
          })
          on
        ∙ rw (==_refl l.start) refl)
      ∙ header_of-put_words l.lh (l.cache l.start),
  λ off. rw off refl,
)

pub left-write_head : (l : Log) → l.left ≡ 0 → (write_head l).left ≡ 0
unfolding write_head
left-write_head l off = omega (arith, off)

pub cache-write_head : (l : Log) (x : ℕ) → x ≢ l.start → (write_head l).cache x ≡ l.cache x
unfolding write_head
cache-write_head l x ne = rw (ne→== l.start x (λ e. ne (sym e))) refl

pub Kept-write_head : (l : Log) → Kept l (write_head l)
unfolding write_head
Kept-write_head l = record { start = refl; size = refl; lh = refl; count = refl }
