-- ===== src/Wfs/File/Read.antt =====
-- `wfs_read` of 01-fuse-filesystem-wfs/wfs.c against the bytes of the file.
use systems_programming_port.Prelude.{
  ℕ, zero, suc, ◌+◌, ◌-◌, ◌/◌, ◌%◌, ◌≤◌, ◌<◌, ◌≡◌, refl, sym, ap, subst, ◌∙◌, ◌≢◌, inl, inr, Bool,
  false, Option, none, some, [], ◌∷◌, ◌++◌, arith, replicate, ltb, ◌==◌, if◌then◌else◌, Bool-cases,
  Bytes, ne→==, ap₂,
}
use systems_programming_port.Wfs.Memory.{Memory, peek}
use systems_programming_port.Wfs.Disk.{Disk, Errno, block_size}
use systems_programming_port.Wfs.Data.{nonnull, max_blocks, file_block, data_offset}
use systems_programming_port.Wfs.Data.Slots.{ptr, data_slot, content, byte_in}
use systems_programming_port.Wfs.Data.Lookup.{file_block-peek}
use systems_programming_port.Wfs.File.{chunk_of, piece_at, read_loop}

pub peek-ext :
    (n a b : ℕ) (m m' : Memory)
    → ((i : ℕ) → i < n → m (a + i) ≡ m' (b + i))
    → peek a n m ≡ peek b n m'
unfolding peek
peek-ext zero a b m m' h = refl
peek-ext (suc n) a b m m' h =
    let head : m a ≡ m' b =
      subst (λ x. m x ≡ m' b) (omega arith)
        (subst (λ x. m (a + 0) ≡ m' x) (omega arith) (h 0 (omega arith))) in
    let step = λ (i : ℕ) (lt : i < n).
      subst (λ x. m x ≡ m' (b + 1 + i)) (omega arith)
        (subst (λ x. m (a + (1 + i)) ≡ m' x) (omega arith) (h (1 + i) (omega (arith, lt)))) in
    ap₂ (λ x (xs : Bytes). x ∷ xs) head (peek-ext n (a + 1) (b + 1) m m' step)

zeros_peek : (n a : ℕ) (m : Memory) → ((i : ℕ) → i < n → m (a + i) ≡ 0) → replicate n 0 ≡ peek a n m
unfolding peek
zeros_peek zero a m h = refl
zeros_peek (suc n) a m h =
    let head : m a ≡ 0 = subst (λ x. m x ≡ 0) (omega arith) (h 0 (omega arith)) in
    let step =
      λ (i : ℕ) (lt : i < n). subst (λ x. m x ≡ 0) (omega arith) (h (1 + i) (omega (arith, lt))) in
    ap₂ (λ x (xs : Bytes). x ∷ xs) (sym head) (zeros_peek n (a + 1) m step)

a_plus : (a : ℕ) → a ≡ a + 0
a_plus a = omega arith

next_plus : (a n : ℕ) → a + 1 + n ≡ a + suc n
next_plus a n = omega arith

suc_plus : (n k : ℕ) → suc n + k ≡ suc (n + k)
suc_plus n k = omega arith

plus_k : (k : ℕ) → 0 + k ≡ k
plus_k k = omega arith

pub peek-append : (n k a : ℕ) (m : Memory) → peek a (n + k) m ≡ peek a n m ++ peek (a + n) k m
unfolding peek
peek-append zero k a m = ap₂ (λ x y. peek x y m) (a_plus a) (plus_k k)
peek-append (suc n) k a m =
    ap (λ x. peek a x m) (suc_plus n k)
    ∙ ap (λ (xs : Bytes). m a ∷ xs)
        (peek-append n k (a + 1) m ∙ ap (λ x. peek (a + 1) n m ++ peek x k m) (next_plus a n))

-- A byte of the file within the block of an offset.
pub content_near :
    (d : Disk) (ino cur i : ℕ)
    → cur % block_size + i < block_size
    → content d ino (cur + i)
      ≡ byte_in d
          (if ltb (cur / block_size) max_blocks
            then ptr d ino (data_slot (cur / block_size))
            else 0)
          (cur % block_size + i)
unfolding content
content_near d ino cur i h =
    let blk : (cur + i) / block_size ≡ cur / block_size = omega (arith, h) in
    let inner : (cur + i) % block_size ≡ cur % block_size + i = omega (arith, h) in
    rw (blk, inner)
      (elim (Bool-cases (ltb (cur / block_size) max_blocks)) [
        | inl t ↦ rw t refl
        | inr f ↦ rw f refl
      ])

-- What a round copies from a pointer.
piece_lem :
    (d : Disk) (ino cur n p : ℕ) (e : Option Errno)
    → ((i : ℕ) → i < n → content d ino (cur + i) ≡ byte_in d p (cur % block_size + i))
    → piece_at
        (elim (nonnull p) [ none ↦ none | some b ↦ some (b + cur % block_size) ])
        n
        (record d { wfs_error = e })
      ≡ peek cur n (content d ino)
unfolding piece_at
piece_lem d ino cur n p e h = elim (Bool-cases (p == 0)) [
  | inl z ↦ rw z (zeros_peek n cur (content d ino) (λ i lt. h i lt ∙ rw z refl))
  | inr nz ↦ rw nz (
      peek-ext n (p + cur % block_size) cur d.mem (content d ino)
        (λ i lt. sym (h i lt ∙ rw nz (ap d.mem (omega arith)))))
]

pub chunk_fits :
    (left cur : ℕ)
    → (chunk_of left cur ≤ left) × (cur % block_size + chunk_of left cur ≤ block_size)
chunk_fits left cur = (ground arith, ground arith)

pub chunk_moves : (left cur : ℕ) → left ≢ 0 → 0 < chunk_of left cur
chunk_moves left cur nz = ground arith

-- What a round copies from the answer of `data_offset` that may not allocate, and its disk.
read_from :
    (d : Disk) (ino cur n p : ℕ) (r : Option ℕ × Disk)
    → ((i : ℕ) → i < n → content d ino (cur + i) ≡ byte_in d p (cur % block_size + i))
    → (r.0 ≡ nonnull p) × ((e : Option Errno) × (r.1 ≡ record d { wfs_error = e }))
    → (piece_at (elim r.0 [ none ↦ none | some b ↦ some (b + cur % block_size) ]) n r.1
        ≡ peek cur n (content d ino))
      × ((e : Option Errno) × (r.1 ≡ record d { wfs_error = e }))
read_from d ino cur n p r h (there, (e, same)) =
    rw (there, same) (piece_lem d ino cur n p e h, (e, refl))

read_piece :
    (d : Disk) (ino cur n : ℕ)
    → cur % block_size + n ≤ block_size
    → (piece_at (data_offset ino cur false d).0 n (data_offset ino cur false d).1
        ≡ peek cur n (content d ino))
      × ((e : Option Errno) × ((data_offset ino cur false d).1 ≡ record d { wfs_error = e }))
unfolding data_offset
read_piece d ino cur n h =
    read_from d ino cur n _ (file_block ino (cur / block_size) false d)
      (λ i lt. content_near d ino cur i (omega (arith, lt, h)))
      (file_block-peek d ino (cur / block_size))

read_step :
    (stop : Bool) (found : Option ℕ × Disk) (n : ℕ) (piece rest : Bytes) (d d' : Disk)
    (more : Option (Bytes × Disk))
    → stop ≡ false
    → piece_at found.0 n found.1 ≡ piece
    → more ≡ some (rest, d')
    → if◌then◌else◌ {A = Option (Bytes × Disk)} stop
        (some ([], d))
        (elim more [ none ↦ none | some (bs, d'') ↦ some (piece_at found.0 n found.1 ++ bs, d'') ])
      ≡ some (piece ++ rest, d')
read_step stop found n piece rest d d' more s h m = rw (s, m, h) refl

-- With more rounds than bytes to read, the loop of `wfs_read` answers with the bytes of the file from
-- the offset on, zeros where there is no block, and changes nothing on the disk but the error.
pub read_loop_lem :
    (fuel ino cur left : ℕ) (d : Disk)
    → left < fuel
    → (e : Option Errno) × (read_loop fuel ino cur left d
        ≡ some (peek cur left (content d ino), record d { wfs_error = e }))
unfolding read_loop peek content ptr
read_loop_lem zero ino cur left d h = absurd (omega (arith, h))
read_loop_lem (suc fuel) ino cur zero d h = (d.wfs_error, refl)
read_loop_lem (suc fuel) ino cur (suc k) d h =
    let left = suc k in
    let n = chunk_of left cur in
    let (fits, within) = chunk_fits left cur in
    let moves = chunk_moves left cur (omega arith) in
    let (piece, (e, same)) = read_piece d ino cur n within in
    let (e', more) =
      read_loop_lem fuel ino (cur + n) (left - n) (record d { wfs_error = e })
        (omega (arith, moves, fits, h)) in
    let whole : n + (left - n) ≡ left = omega (arith, fits) in
    let joined =
      sym (peek-append n (left - n) cur (content d ino))
      ∙ ap (λ x. peek cur x (content d ino)) whole in
    let going : (left == 0) ≡ false = ne→== left 0 (omega arith) in
    let more' =
      subst
        (λ x.
          read_loop fuel ino (cur + n) (left - n) x
          ≡ some (peek (cur + n) (left - n) (content d ino), record d { wfs_error = e' }))
        (sym same) more in
    (
      e',
      read_step (left == 0) (data_offset ino cur false d) n _ _ d (record d { wfs_error = e' }) _
            going piece more'
          ∙ ap (λ (xs : Bytes). some (xs, record d { wfs_error = e' })) joined,
    )
