-- ===== src/Wfs/Directory/Entries.antt =====
-- What `dentry_to_num` of 01-fuse-filesystem-wfs/wfs.c finds depends only on the bytes of the directory.
use systems_programming_port.Prelude.{
  ℕ, zero, suc, ◌+◌, ◌*◌, ◌/◌, ◌%◌, ◌<◌, ◌≡◌, refl, sym, ap, subst, ◌∙◌, ◌≢◌, inl, inr, Bool, true,
  false, not, ◌&&◌, ◌||◌, Option, none, some, arith, take, ltb, leb, ◌==◌, Bool-cases, Bytes,
  str_eq, ne→==, ==→ne, ap₂,
}
use mathlib.Core.Bool.{true≢false}
use systems_programming_port.Wfs.Memory.{Memory, peek, load}
use systems_programming_port.Wfs.Disk.{Disk, is_dir, block_size, d_block, max_name, enoent}
use systems_programming_port.Wfs.Data.{blocks_of, max_blocks}
use systems_programming_port.Wfs.Data.Slots.{data_slot, content, byte_in}
use systems_programming_port.Wfs.Data.Find.{low_slot}
use systems_programming_port.Wfs.File.{Answer, ok, err}
use systems_programming_port.Wfs.File.Read.{peek-ext}
use systems_programming_port.Wfs.Directory.{
  cut_nul, dentry_num, dentry_name, dentry_at, dentry_size, entries_per_block, live_entry,
  find_entry, dir_entries, named_entry, dentry_to_num,
}

load-shift :
    (n a b : ℕ) (m m' : Memory)
    → ((i : ℕ) → i < n → m (a + i) ≡ m' (b + i))
    → load n a m ≡ load n b m'
unfolding load
load-shift zero a b m m' h = refl
load-shift (suc n) a b m m' h =
    let first : a + 0 ≡ a = omega arith in
    let second : b + 0 ≡ b = omega arith in
    let head : m a ≡ m' b =
      subst (λ x. m x ≡ m' b) first (subst (λ y. m (a + 0) ≡ m' y) second (h 0 (omega arith))) in
    let rest = load-shift n (a + 1) (b + 1) m m' (λ i lt.
      let next : a + suc i ≡ a + 1 + i = omega arith in
      let next' : b + suc i ≡ b + 1 + i = omega arith in
      subst (λ x. m x ≡ m' (b + 1 + i)) next
        (subst (λ y. m (a + suc i) ≡ m' y) next' (h (suc i) (omega (arith, lt))))) in
    ap₂ (λ x y. x + 256 * y) head rest

-- An entry of a directory as the bytes of the directory have it.
abbrev pub entry_num : Memory → ℕ → ℕ
entry_num c idx = load 4 (idx * dentry_size + max_name) c

abbrev pub entry_name : Memory → ℕ → Bytes
entry_name c idx = cut_nul (peek (idx * dentry_size) max_name c)

abbrev pub in_use : Memory → ℕ → Bool
in_use c idx = not ((entry_num c idx == 0) || (c (idx * dentry_size) == 0))

abbrev pub is_named : Bytes → Memory → ℕ → Bool
is_named name c idx = in_use c idx && str_eq (entry_name c idx) (take max_name name)

or_true : (b : Bool) → (b || true) ≡ true
or_true true = refl
or_true false = refl

module _ (d : Disk) (ino idx : ℕ) (direct : idx / entries_per_block < d_block) where
  abbrev blk : ℕ
  blk = blocks_of d ino (idx / entries_per_block)

  entry_byte :
      (j : ℕ)
      → j < dentry_size
      → content d ino (idx * dentry_size + j)
        ≡ byte_in d blk (idx % entries_per_block * dentry_size + j)
  unfolding content
  entry_byte j lt =
      let at : (idx * dentry_size + j) / block_size ≡ idx / entries_per_block = omega (arith, lt) in
      let inner : (idx * dentry_size + j) % block_size ≡ idx % entries_per_block * dentry_size + j =
        omega (arith, lt) in
      let inside : ltb (idx / entries_per_block) max_blocks ≡ true = ground (arith, direct) in
      let slot : data_slot (idx / entries_per_block) ≡ idx / entries_per_block =
        ground (arith, direct) in
      rw (at, inner, inside, slot, low_slot d ino (idx / entries_per_block) (omega (arith, direct)))
        refl

  module _ (there : blk ≢ 0) where
    here_byte :
        (j : ℕ)
        → j < dentry_size
        → d.mem (dentry_at d ino idx + j) ≡ content d ino (idx * dentry_size + j)
    here_byte j lt =
        let at : blk + (idx % entries_per_block * dentry_size + j) ≡ dentry_at d ino idx + j =
          omega arith in
        sym (entry_byte j lt ∙ (rw (ne→== blk 0 there) refl ∙ ap d.mem at))

    here_num : dentry_num d (dentry_at d ino idx) ≡ entry_num (content d ino) idx
    here_num =
        load-shift 4 (dentry_at d ino idx + max_name) (idx * dentry_size + max_name) d.mem
          (content d ino)
          (λ i lt.
            let at : dentry_at d ino idx + (max_name + i) ≡ dentry_at d ino idx + max_name + i =
              omega arith in
            let at' : idx * dentry_size + (max_name + i) ≡ idx * dentry_size + max_name + i =
              omega arith in
            subst (λ x. d.mem x ≡ content d ino (idx * dentry_size + max_name + i)) at
              (subst (λ y. d.mem (dentry_at d ino idx + (max_name + i)) ≡ content d ino y) at'
                (here_byte (max_name + i) (omega (arith, lt)))))

    here_name : dentry_name d (dentry_at d ino idx) ≡ entry_name (content d ino) idx
    unfolding dentry_name
    here_name = ap cut_nul (
        peek-ext max_name (dentry_at d ino idx) (idx * dentry_size) d.mem (content d ino)
          (λ i lt. here_byte i (omega (arith, lt))))

  first_byte :
      content d ino (idx * dentry_size) ≡ byte_in d blk (idx % entries_per_block * dentry_size)
  first_byte =
      let from : idx * dentry_size + 0 ≡ idx * dentry_size = omega arith in
      let inner : idx % entries_per_block * dentry_size + 0
          ≡ idx % entries_per_block * dentry_size =
        omega arith in
      ap (content d ino) (sym from) ∙ entry_byte 0 (omega arith) ∙ ap (byte_in d blk) inner

  pub live_entry-in_use : live_entry d ino idx ≡ in_use (content d ino) idx
  unfolding live_entry
  live_entry-in_use = elim (Bool-cases (blk == 0)) [
    | inl null ↦
        let none_there : content d ino (idx * dentry_size) ≡ 0 = first_byte ∙ rw null refl in
        rw (null, none_there, or_true (entry_num (content d ino) idx == 0)) refl
    | inr there ↦
        let first : d.mem (dentry_at d ino idx) ≡ content d ino (idx * dentry_size) =
          sym (first_byte ∙ rw there refl) in
        rw (there, here_num (==→ne blk 0 there), first) refl
  ]

  pub named_entry-is_named :
      (name : Bytes) → named_entry name d ino idx ≡ is_named name (content d ino) idx
  unfolding named_entry
  named_entry-is_named name = elim (Bool-cases (blk == 0)) [
    | inl null ↦
        let none_there : content d ino (idx * dentry_size) ≡ 0 = first_byte ∙ rw null refl in
        rw (live_entry-in_use, none_there, or_true (entry_num (content d ino) idx == 0)) refl
    | inr there ↦ rw (live_entry-in_use, here_name (==→ne blk 0 there)) refl
  ]

find_entry-ext :
    (p q : ℕ → Bool)
    → ((i : ℕ) → i / entries_per_block < d_block → p i ≡ q i)
    → (count idx : ℕ) → find_entry p count idx ≡ find_entry q count idx
unfolding find_entry
find_entry-ext p q h zero idx = refl
find_entry-ext p q h (suc count) idx = elim (Bool-cases (leb d_block (idx / entries_per_block))) [
  | inl past ↦ rw past refl
  | inr near ↦ rw (near, h idx (ground (arith, near)), find_entry-ext p q h count (idx + 1)) refl
]

-- What a search that ends at an entry says of it.
abbrev Hit : (ℕ → Bool) → Option ℕ → Type 0
Hit p none = Unit
Hit p (some i) = (i / entries_per_block < d_block) × (p i ≡ true)

find_entry-Hit : (p : ℕ → Bool) (count idx : ℕ) → Hit p (find_entry p count idx)
unfolding find_entry
find_entry-Hit p zero idx = tt
find_entry-Hit p (suc count) idx = elim (Bool-cases (leb d_block (idx / entries_per_block))) [
  | inl past ↦ rw past tt
  | inr near ↦ elim (Bool-cases (p idx)) [
    | inl agrees ↦ rw (near, agrees) (ground (arith, near), agrees)
    | inr other ↦ rw (near, other) (find_entry-Hit p count (idx + 1))
  ]
]

-- The number that the bytes of a directory give a name.
unfoldable pub bytes_to_num : Bytes → Memory → ℕ → Answer ℕ
unfolding find_entry
bytes_to_num name c size = elim (find_entry (is_named name c) (size / dentry_size) 0) [
  | none ↦ err enoent
  | some idx ↦ ok (entry_num c idx)
]

named_there :
    (name : Bytes) (d : Disk) (ino idx : ℕ)
    → named_entry name d ino idx ≡ true
    → blocks_of d ino (idx / entries_per_block) ≢ 0
unfolding named_entry live_entry
named_there name d ino idx named null = true≢false (sym named ∙ rw null refl)

found_num :
    (name : Bytes) (d : Disk) (ino : ℕ) (o : Option ℕ)
    → Hit (named_entry name d ino) o
    → elim o as (λ x. Answer ℕ) [
      | none ↦ err enoent
      | some idx ↦ ok (dentry_num d (dentry_at d ino idx))
    ]
      ≡ elim o as (λ x. Answer ℕ) [
        | none ↦ err enoent
        | some idx ↦ ok (entry_num (content d ino) idx)
      ]
found_num name d ino none hit = refl
found_num name d ino (some idx) hit =
    ap ok (here_num d ino idx hit.0 (named_there name d ino idx hit.1))

pub dentry_to_num-directory :
    (name : Bytes) (ino : ℕ) (d : Disk)
    → is_dir (d.inodes ino).kind ≡ true
    → dentry_to_num name ino d ≡ bytes_to_num name (content d ino) ((d.inodes ino).size)
unfolding dentry_to_num bytes_to_num
dentry_to_num-directory name ino d dir =
    let same =
      find_entry-ext (named_entry name d ino) (is_named name (content d ino))
        (λ i near. named_entry-is_named d ino i near name) (dir_entries d ino) 0 in
    let hit = find_entry-Hit (named_entry name d ino) (dir_entries d ino) 0 in
    rw dir (
      found_num name d ino _ hit
      ∙ ap
          (λ o. elim o as (λ x. Answer ℕ) [
            | none ↦ err enoent
            | some idx ↦ ok (entry_num (content d ino) idx)
          ])
          same)
