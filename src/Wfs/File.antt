-- ===== src/Wfs/File.antt =====
-- 01-fuse-filesystem-wfs/wfs.c: `wfs_read` and `wfs_write` once the path is resolved. The loops take
-- a bound on their rounds; each round moves at least one byte.
pub mod Read
pub mod Spread
pub mod Write
pub mod Steady
pub mod Fields
pub mod Trip
use systems_programming_port.Prelude.{
  ℕ, zero, suc, ◌+◌, ◌-◌, ◌*◌, ◌/◌, ◌%◌, ◌^◌, ◌≤◌, ◌<◌, ◌≡◌, refl, sym, ap, subst, ◌∙◌, ◌≢◌, ◌↔◌,
  ◌⊎◌, inl, inr, Bool, true, false, not, ◌&&◌, ◌||◌, Option, none, some, List, [], ◌∷◌, ◌++◌, map,
  arith, length, get_elem?, set, get_or, take, drop, replicate, modify, ltb, leb, ◌==◌,
  if◌then◌else◌, Bool-cases, Option-cases, Bytes, codes, str_eq, ==_refl, ne→==, ==→eq, ==→ne,
  tests, ltb→lt, ltb→ge, lt→ltb,
}
use systems_programming_port.Prelude.Maps.{update}
use systems_programming_port.Wfs.Memory.{peek, poke}
use systems_programming_port.Wfs.Disk.{
  Disk, Inode, Errno, eisdir, enospc, is_dir, block_size, with_inode, update_times,
}
use systems_programming_port.Wfs.Data.{data_offset}

abbrev pub least : ℕ → ℕ → ℕ
least a b = if ltb b a then b else a

-- What a round moves: no further than the end of the block.
abbrev pub chunk_of : ℕ → ℕ → ℕ
chunk_of left cur = least left (block_size - cur % block_size)

unfoldable pub piece_at : Option ℕ → ℕ → Disk → Bytes
unfolding peek
piece_at none n d = replicate n 0
piece_at (some a) n d = peek a n d.mem

-- The loop of `wfs_read` with `left` bytes to go; `none` where the rounds run out.
unfoldable pub read_loop : ℕ → ℕ → ℕ → ℕ → Disk → Option (Bytes × Disk)
unfolding data_offset piece_at
read_loop zero ino cur left d = none
read_loop (suc fuel) ino cur left d =
    let found = data_offset ino cur false d in
    let n = chunk_of left cur in
    let more = read_loop fuel ino (cur + n) (left - n) found.1 in
    if left == 0
    then some ([], d)
    else elim more [ none ↦ none | some (bs, d') ↦ some (piece_at found.0 n found.1 ++ bs, d') ]

pub data Wrote : Type 0 where
  finished : Disk → Wrote
  stopped : Disk → Wrote
  out_of_fuel : Wrote

-- The loop of `wfs_write` with the bytes that are left; it stops where there is no block.
unfoldable pub write_loop : ℕ → ℕ → ℕ → Bytes → Disk → Wrote
unfolding data_offset poke
write_loop zero ino cur buf d = out_of_fuel
write_loop (suc fuel) ino cur buf d =
    let found = data_offset ino cur true d in
    let n = chunk_of (length buf) cur in
    let more = λ (a : ℕ).
      write_loop fuel ino (cur + n) (drop n buf)
        (record found.1 { mem = poke a (take n buf) found.1.mem }) in
    if length buf == 0
    then finished d
    else elim found.0 [ none ↦ stopped found.1 | some a ↦ more a ]

-- What a call answers: the bytes read, a count or an error.
pub data Answer {ℓ} (A : Type ℓ) : Type ℓ where
  ok : A → Answer A
  err : Errno → Answer A

abbrev pub touch : ℕ → ℕ → (atime mtime ctime : Bool) → Disk → Disk
touch now ino a m c d = with_inode ino (update_times now a m c (d.inodes ino)) d

abbrev pub read_done : ℕ → ℕ → Option (Bytes × Disk) → Option (Answer Bytes × Disk)
read_done now ino none = none
read_done now ino (some ([], d)) = some (ok [], d)
read_done now ino (some (b ∷ bs, d)) = some (ok (b ∷ bs), touch now ino true false false d)

abbrev pub to_read : ℕ → ℕ → ℕ → ℕ
to_read size len off = if ltb size (off + len) then size - off else len

unfoldable pub read_inode : ℕ → ℕ → ℕ → ℕ → Disk → Option (Answer Bytes × Disk)
unfolding read_loop update_times
read_inode now ino len off d =
    let node = d.inodes ino in
    let n = to_read node.size len off in
    if is_dir node.kind
    then some (err eisdir, d)
    else if leb node.size off
    then some (ok [], d)
    else read_done now ino (read_loop (suc n) ino off n d)

abbrev pub grow_size : ℕ → ℕ → Disk → Disk
grow_size ino end d =
    if ltb ((d.inodes ino).size) end
    then with_inode ino (record (d.inodes ino) { size = end }) d
    else d

abbrev pub write_done : ℕ → ℕ → ℕ → ℕ → Wrote → Option (Answer ℕ × Disk)
write_done now ino off n out_of_fuel = none
write_done now ino off n (stopped d) =
    some (elim d.wfs_error [ none ↦ err enospc | some e ↦ err e ], d)
write_done now ino off n (finished d) =
    let d' = grow_size ino (off + n) d in
    some (ok n, if ltb 0 n then touch now ino false true true d' else d')

unfoldable pub write_inode : ℕ → ℕ → Bytes → ℕ → Disk → Option (Answer ℕ × Disk)
unfolding write_loop update_times
write_inode now ino buf off d =
    if is_dir (d.inodes ino).kind
    then some (err eisdir, d)
    else write_done now ino off (length buf) (write_loop (suc (length buf)) ino off buf d)
