-- ===== src/Wfs/Data/Put.antt =====
-- Bytes stored in a data block of a file, as the loop of `wfs_write` in 01-fuse-filesystem-wfs/wfs.c does.
use systems_programming_port.Prelude.{
  ℕ, ◌+◌, ◌-◌, ◌*◌, ◌/◌, ◌%◌, ◌≤◌, ◌<◌, ◌≡◌, refl, sym, ap, subst, ◌∙◌, ◌≢◌, ◌⊎◌, inl, inr, true,
  ◌&&◌, arith, length, get_or, ltb, leb, ◌==◌, if◌then◌else◌, Bool-cases, Bytes, ne→==, ==→eq,
  ==→ne, ltb→lt, ltb→ge, lt→ltb,
}
use systems_programming_port.Wfs.Memory.{Memory, poke, load}
use systems_programming_port.Wfs.Memory.Laws.{Outside, poke-Outside, load-ext}
use systems_programming_port.Wfs.Disk.{Disk, block_size, ind_block, block_at}
use systems_programming_port.Wfs.Data.{blocks_of, entry_at, max_blocks}
use systems_programming_port.Wfs.Data.Slots.{ptr, data_slot, content, indirect_ptr, IsUsed, Sound}
use systems_programming_port.Wfs.Data.Grow.{apart_blocks, data_slot-ne}
use systems_programming_port.Wfs.Data.Find.{low_slot}

-- The bytes of the files where `bs` stands in one of them from `off` on.
abbrev pub Overwrites : Disk → ℕ → ℕ → Bytes → Disk → Type 0
Overwrites d ino off bs d' =
    (i x : ℕ) → content d' i x ≡ (if i == ino then poke off bs (content d ino) x else content d i x)

-- Two blocks in use that start at different places share no byte.
pub used_apart :
    (d : Disk) (p q o : ℕ)
    → IsUsed d p
    → IsUsed d q
    → p ≢ q
    → o < block_size
    → Outside p block_size (q + o)
used_apart d p q o u w ne lt =
    let here : q + o ≡ d.d_blocks_ptr + w.idx * block_size + o = omega (arith, w.at) in
    subst (λ (a : ℕ). Outside a block_size (q + o)) (sym u.at)
      (apart_blocks d.d_blocks_ptr w.idx u.idx (q + o)
        (λ e. ne (u.at ∙ (ap (block_at d) (sym e) ∙ sym w.at))) (omega (arith, here))
        (omega (arith, here, lt)))

narrow : (p o n x : ℕ) → o + n ≤ block_size → Outside p block_size x → Outside (p + o) n x
narrow p o n x room (inl h) = inl (omega (arith, h))
narrow p o n x room (inr h) = inr (omega (arith, h, room))

data_slot-inj : (k j : ℕ) → data_slot k ≡ data_slot j → k ≡ j
data_slot-inj k j e = ground arith

other_block :
    (k o n x : ℕ) → x / block_size ≢ k → o + n ≤ block_size → Outside (k * block_size + o) n x
other_block k o n x ne room = elim (Bool-cases (ltb x (k * block_size))) [
  | inl lt ↦ inl (omega (arith, ltb→lt _ _ lt))
  | inr ge ↦ inr (omega (arith, ltb→ge _ _ ge, ne, room))
]

poke_shift :
    (a b x y : ℕ) (bs : Bytes) (m m' : Memory)
    → a + y ≡ b + x
    → m x ≡ m' y
    → poke a bs m x ≡ poke b bs m' y
unfolding poke
poke_shift a b x y bs m m' e h =
    let lo : leb a x ≡ leb b y = ground (arith, e) in
    let hi : ltb x (a + length bs) ≡ ltb y (b + length bs) = ground (arith, e) in
    elim (Bool-cases (leb b y && ltb y (b + length bs))) [
      | inl t ↦ rw (lo, hi, t) (ap (λ n. get_or bs n 0) (ground (arith, e, t)))
      | inr f ↦ rw (lo, hi, f) h
    ]

module _ (d : Disk) (ino k p o : ℕ) (bs : Bytes) (v : Sound d) (at : ptr d ino (data_slot k) ≡ p)
    (nz : p ≢ 0) (room : o + length bs ≤ block_size) where
  abbrev put : Disk
  put = record d { mem = poke (p + o) bs d.mem }

  there : ptr d ino (data_slot k) ≢ 0
  there z = nz (sym at ∙ z)

  elsewhere :
      (i t o' : ℕ)
      → ptr d i t ≢ 0
      → ptr d i t ≢ p
      → o' < block_size
      → poke (p + o) bs d.mem (ptr d i t + o') ≡ d.mem (ptr d i t + o')
  elsewhere i t o' nz' ne lt = poke-Outside (p + o) (ptr d i t + o') bs d.mem (
      narrow p o (length bs) (ptr d i t + o') room (
        used_apart d p (ptr d i t) o' (subst (IsUsed d) at (v.valid ino (data_slot k) there))
          (v.valid i t nz') (λ e. ne (sym e)) lt))

  put-indirect : (i j : ℕ) → j < 64 → indirect_ptr put i j ≡ indirect_ptr d i j
  unfolding load
  put-indirect i j lt = elim (Bool-cases (blocks_of d i ind_block == 0)) [
    | inl z ↦ rw z refl
    | inr there' ↦
        let low : ptr d i 7 ≡ blocks_of d i ind_block = low_slot d i 7 (omega arith) in
        let nz' : ptr d i 7 ≢ 0 = λ z. ==→ne _ _ there' (sym low ∙ z) in
        let ne : ptr d i 7 ≢ p =
          λ e. data_slot-ne k (sym ((v.distinct i 7 ino (data_slot k) nz' (e ∙ sym at)).1)) in
        rw there' (
          load-ext 8 (entry_at (blocks_of d i ind_block) j) _ _ (λ x lo hi.
            let back : ptr d i 7 + (x - ptr d i 7) ≡ x = omega (arith, low, lo) in
            subst (λ y. poke (p + o) bs d.mem y ≡ d.mem y) back
              (elsewhere i 7 (x - ptr d i 7) nz' ne (omega (arith, low, lo, hi, lt)))))
  ]

  pub put-ptr : (i t : ℕ) → ptr put i t ≡ ptr d i t
  unfolding ptr
  put-ptr i t = elim (Bool-cases (ltb t 8)) [
    | inl near ↦ rw near refl
    | inr far ↦ elim (Bool-cases (ltb t 72)) [
      | inl inside ↦
          rw (far, inside)
            (put-indirect i (t - 8) (omega (arith, ltb→lt _ _ inside, ltb→ge _ _ far)))
      | inr past ↦ rw (far, past) refl
    ]
  ]

  pub put-Sound : Sound put
  put-Sound = record {
    based = v.based;
    fits = v.fits;
    valid = λ i t nz'. subst (IsUsed put) (sym (put-ptr i t)) (
        let u = v.valid i t (λ z. nz' (put-ptr i t ∙ z)) in
        record { idx = u.idx; in_range = u.in_range; at = u.at; marked = u.marked });
    distinct = λ i t i' t' nz' e.
        v.distinct i t i' t' (λ z. nz' (put-ptr i t ∙ z)) (sym (put-ptr i t) ∙ (e ∙ put-ptr i' t'));
  }

  -- A byte of the file in another block than the one that is written.
  miss-byte : (i x : ℕ) → (i ≢ ino) ⊎ (x / block_size ≢ k) → content put i x ≡ content d i x
  unfolding content
  miss-byte i x other = elim (Bool-cases (ltb (x / block_size) max_blocks)) [
    | inr outside ↦ rw outside refl
    | inl inside ↦ elim (Bool-cases (ptr d i (data_slot (x / block_size)) == 0)) [
      | inl null ↦ rw (inside, put-ptr i (data_slot (x / block_size)), null) refl
      | inr there' ↦
          let same = λ (e : ptr d i (data_slot (x / block_size)) ≡ p).
            v.distinct i (data_slot (x / block_size)) ino (data_slot k) (==→ne _ _ there')
              (e ∙ sym at) in
          let ne : ptr d i (data_slot (x / block_size)) ≢ p = λ e. elim other [
            | inl a ↦ a ((same e).0)
            | inr b ↦ b (data_slot-inj _ k ((same e).1))
          ] in
          rw (inside, put-ptr i (data_slot (x / block_size)), there')
            (elsewhere i (data_slot (x / block_size)) (x % block_size) (==→ne _ _ there') ne
              (omega arith))
    ]
  ]

  hit-content :
      (e : Disk) (x : ℕ)
      → x / block_size ≡ k
      → k < max_blocks
      → ptr e ino (data_slot k) ≡ p
      → content e ino x ≡ e.mem (p + x % block_size)
  unfolding content
  hit-content e x blk lt named =
      let inside : ltb k max_blocks ≡ true = lt→ltb _ _ lt in
      rw (blk, inside, named, ne→== p 0 nz) refl

  pub put-Overwrites : k < max_blocks → Overwrites d ino (k * block_size + o) bs put
  put-Overwrites lt i x = elim (Bool-cases (i == ino)) [
    | inr other ↦ rw other (miss-byte i x (inl (==→ne _ _ other)))
    | inl own ↦ elim (Bool-cases (x / block_size == k)) [
      | inr other ↦ rw own (
          miss-byte i x (inr (==→ne _ _ other))
          ∙ (ap (λ n. content d n x) (==→eq _ _ own)
              ∙ sym (
                  poke-Outside (k * block_size + o) x bs (content d ino)
                    (other_block k o (length bs) x (==→ne _ _ other) room))))
      | inl near ↦
          let blk : x / block_size ≡ k = ==→eq _ _ near in
          rw own (
            ap (λ n. content put n x) (==→eq _ _ own)
            ∙ (hit-content put x blk lt (put-ptr ino (data_slot k) ∙ at)
                ∙ poke_shift (p + o) (k * block_size + o) (p + x % block_size) x bs d.mem
                    (content d ino) (omega (arith, blk)) (sym (hit-content d x blk lt at))))
    ]
  ]
