-- ===== src/Wfs/File/Trip.antt =====
-- `wfs_read` and `wfs_write` of 01-fuse-filesystem-wfs/wfs.c against the bytes of the files.
use systems_programming_port.Prelude.{
  ℕ, suc, ◌+◌, ◌-◌, ◌<◌, ◌≡◌, refl, sym, ap, subst, ◌∙◌, inl, inr, Bool, true, false, Option, none,
  some, [], ◌∷◌, arith, length, get_or, take, ltb, leb, if◌then◌else◌, Bool-cases, Bytes, ==_refl,
  ap₂,
}
use systems_programming_port.Wfs.Memory.{Memory, poke, peek}
use systems_programming_port.Wfs.Memory.Laws.{poke-inside}
use systems_programming_port.Wfs.Disk.{Disk, Errno, enospc, is_dir, update_times}
use systems_programming_port.Wfs.Data.Slots.{ptr, content, Sound}
use systems_programming_port.Wfs.Data.Find.{Calm, Same-trans}
use systems_programming_port.Wfs.Data.Put.{Overwrites}
use systems_programming_port.Wfs.File.{
  Wrote, finished, stopped, out_of_fuel, write_loop, read_loop, least, touch, grow_size, Answer, ok,
  err, to_read, read_done, read_inode, write_done, write_inode,
}
use systems_programming_port.Wfs.File.Read.{read_loop_lem}
use systems_programming_port.Wfs.File.Write.{Outcome, write_loop_lem}
use systems_programming_port.Wfs.File.Steady.{SteadyAfter, write_loop-Steady}
use systems_programming_port.Wfs.File.Fields.{touch-Calm, touch-content, grow_size-Calm}

-- What a read leaves: the answer, and a disk with the same bytes in every file.
abbrev pub ReadsAs : Disk → Bytes → Option (Answer Bytes × Disk) → Type 0
ReadsAs d bs none = ⊥
ReadsAs d bs (some (err e, f)) = ⊥
ReadsAs d bs (some (ok cs, f)) = (cs ≡ bs) × ((i x : ℕ) → content f i x ≡ content d i x)

abbrev pub most : ℕ → ℕ → ℕ
most a b = if ltb a b then b else a

-- What a write leaves: a sound disk with all of the bytes in the file, or, when it fails, the first
-- of them, and no other byte of any file changed; the size follows a write that succeeds.
abbrev pub WritesAs : Disk → ℕ → ℕ → Bytes → Option (Answer ℕ × Disk) → Type 0
WritesAs d ino off buf none = ⊥
WritesAs d ino off buf (some (ok n, e)) =
    (n ≡ length buf)
    × Sound e
    × Overwrites d ino off buf e
    × ((e.inodes ino).size ≡ most ((d.inodes ino).size) (off + length buf))
    × ((e.inodes ino).kind ≡ (d.inodes ino).kind)
WritesAs d ino off buf (some (err x, e)) =
    Sound e
    × ((n : ℕ) × (n < length buf) × Overwrites d ino off (take n buf) e)
    × ((e.inodes ino).size ≡ (d.inodes ino).size)

error_content :
    (d : Disk) (e : Option Errno) (i x : ℕ)
    → content (record d { wfs_error = e }) i x ≡ content d i x
unfolding content ptr
error_content d e i x = refl

done-ReadsAs :
    (now ino : ℕ) (d f : Disk) (bs : Bytes)
    → ((i x : ℕ) → content f i x ≡ content d i x)
    → ReadsAs d bs (read_done now ino (some (bs, f)))
done-ReadsAs now ino d f [] h = (refl, h)
done-ReadsAs now ino d f (b ∷ bs) h =
    (refl, λ i x. touch-content now ino true false false f i x ∙ h i x)

loop-ReadsAs :
    (now ino off n : ℕ) (d : Disk)
    → ReadsAs d (peek off n (content d ino)) (read_done now ino (read_loop (suc n) ino off n d))
loop-ReadsAs now ino off n d =
    let (e, same) = read_loop_lem (suc n) ino off n d (omega arith) in
    subst (λ r. ReadsAs d (peek off n (content d ino)) (read_done now ino r)) (sym same)
      (done-ReadsAs now ino d (record d { wfs_error = e }) (peek off n (content d ino))
        (error_content d e))

-- `wfs_read` of a file answers with the bytes of the file from the offset on, as many as are asked
-- for and lie before the file's size, and changes no byte of any file.
pub read_inode_lem :
    (now ino len off : ℕ) (d : Disk)
    → is_dir ((d.inodes ino).kind) ≡ false
    → ReadsAs d
        (peek off (least len ((d.inodes ino).size - off)) (content d ino))
        (read_inode now ino len off d)
unfolding read_inode
read_inode_lem now ino len off d file = elim (Bool-cases (leb ((d.inodes ino).size) off)) [
  | inl past ↦
      let none_left : least len ((d.inodes ino).size - off) ≡ 0 = ground (arith, past) in
      rw (file, past, none_left) (refl, λ i x. refl)
  | inr before ↦
      let n : least len ((d.inodes ino).size - off) ≡ to_read ((d.inodes ino).size) len off =
        ground (arith, before) in
      rw (file, before, n) (loop-ReadsAs now ino off (to_read ((d.inodes ino).size) len off) d)
]

stopped-WritesAs :
    (now ino off n : ℕ) (d f : Disk) (buf : Bytes) (o : Option Errno)
    → Sound f
    → ((k : ℕ) × (k < length buf) × Overwrites d ino off (take k buf) f)
    → (f.inodes ino).size ≡ (d.inodes ino).size
    → WritesAs d ino off buf (some (elim o [ none ↦ err enospc | some e ↦ err e ], f))
stopped-WritesAs now ino off n d f buf none v part size = (v, part, size)
stopped-WritesAs now ino off n d f buf (some e) v part size = (v, part, size)

Overwrites-Calm :
    (d e f : Disk) (ino off : ℕ) (buf : Bytes)
    → Overwrites d ino off buf e
    → Calm e f
    → Overwrites d ino off buf f
Overwrites-Calm d e f ino off buf w c i x = c.1.bytes i x ∙ w i x

grow_size-inode :
    (ino end : ℕ) (d : Disk)
    → (((grow_size ino end d).inodes ino).size ≡ most ((d.inodes ino).size) end)
      × (((grow_size ino end d).inodes ino).kind ≡ (d.inodes ino).kind)
grow_size-inode ino end d = elim (Bool-cases (ltb ((d.inodes ino).size) end)) [
  | inl t ↦ rw (t, ==_refl ino) (refl, refl)
  | inr f ↦ rw f (refl, refl)
]

touch-inode :
    (now ino : ℕ) (a m c : Bool) (d : Disk)
    → (((touch now ino a m c d).inodes ino).size ≡ (d.inodes ino).size)
      × (((touch now ino a m c d).inodes ino).kind ≡ (d.inodes ino).kind)
unfolding update_times
touch-inode now ino a m c d = rw (==_refl ino) (refl, refl)

-- The disk after the loop has finished, with the size and, for a write of some bytes, the times.
abbrev pub closed : ℕ → ℕ → ℕ → ℕ → Disk → Disk
closed now ino off n f =
    if ltb 0 n
    then touch now ino false true true (grow_size ino (off + n) f)
    else grow_size ino (off + n) f

closed-Calm :
    (now ino off n : ℕ) (f : Disk)
    → Sound f
    → Calm f (closed now ino off n f)
      × (((closed now ino off n f).inodes ino).size ≡ most ((f.inodes ino).size) (off + n))
      × (((closed now ino off n f).inodes ino).kind ≡ (f.inodes ino).kind)
closed-Calm now ino off n f v =
    let g = grow_size ino (off + n) f in
    let grown = grow_size-Calm ino (off + n) f v in
    let (size, kind) = grow_size-inode ino (off + n) f in
    elim (Bool-cases (ltb 0 n)) [
      | inr none_written ↦ rw none_written (grown, size, kind)
      | inl t ↦
          let touched = touch-Calm now ino false true true g grown.0 in
          let (size', kind') = touch-inode now ino false true true g in
          rw t ((touched.0, Same-trans f g _ grown.1 touched.1), size' ∙ size, kind' ∙ kind)
    ]

done-WritesAs :
    (now ino off : ℕ) (d : Disk) (buf : Bytes) (w : Wrote)
    → Outcome d ino off buf w
    → SteadyAfter d w
    → WritesAs d ino off buf (write_done now ino off (length buf) w)
done-WritesAs now ino off d buf (finished f) (v, all) steady =
    let (calm, size, kind) = closed-Calm now ino off (length buf) f v in
    (
      refl,
      calm.0,
      Overwrites-Calm d f (closed now ino off (length buf) f) ino off buf all calm,
      size ∙ ap (λ a. most a (off + length buf)) ((steady ino).0),
      kind ∙ (steady ino).1,
    )
done-WritesAs now ino off d buf (stopped f) (v, part) steady =
    stopped-WritesAs now ino off 0 d f buf f.wfs_error v part ((steady ino).0)
done-WritesAs now ino off d buf out_of_fuel o steady = o

-- On a sound disk `wfs_write` to a file writes all of the bytes and lets the size grow to the end of
-- them or, where it answers with an error, has written the first of them and left the size; no other
-- byte of any file changes, the disk stays sound, and the loop does not run out of rounds.
pub write_inode_lem :
    (now ino : ℕ) (buf : Bytes) (off : ℕ) (d : Disk)
    → Sound d
    → is_dir ((d.inodes ino).kind) ≡ false
    → WritesAs d ino off buf (write_inode now ino buf off d)
unfolding write_inode
write_inode_lem now ino buf off d v file = rw file (
    done-WritesAs now ino off d buf (write_loop (suc (length buf)) ino off buf d)
      (write_loop_lem (suc (length buf)) ino off buf d v (omega arith))
      (write_loop-Steady (suc (length buf)) ino off buf d))

peek-bytes :
    (buf : Bytes) (a : ℕ) (m : Memory)
    → ((i : ℕ) → i < length buf → m (a + i) ≡ get_or buf i 0)
    → peek a (length buf) m ≡ buf
unfolding peek
peek-bytes [] a m h = refl
peek-bytes (b ∷ bs) a m h =
    let here : a + 0 ≡ a = omega arith in
    let head : m a ≡ b = subst (λ x. m x ≡ b) here (h 0 (omega arith)) in
    ap₂ (λ x (xs : Bytes). x ∷ xs) head
      (peek-bytes bs (a + 1) m (λ i lt.
        let next : a + suc i ≡ a + 1 + i = omega arith in
        subst (λ x. m x ≡ get_or bs i 0) next (h (suc i) (omega (arith, lt)))))

peek-poke :
    (off : ℕ) (buf : Bytes) (m m' : Memory)
    → ((x : ℕ) → m' x ≡ poke off buf m x)
    → peek off (length buf) m' ≡ buf
peek-poke off buf m m' h = peek-bytes buf off m' (λ i lt.
    let back : off + i - off ≡ i = omega arith in
    h (off + i)
    ∙ (poke-inside off (off + i) buf m (omega arith) (omega (arith, lt))
        ∙ ap (λ j. get_or buf j 0) back))

read_as :
    (d : Disk) (bs : Bytes) (r : Option (Answer Bytes × Disk))
    → ReadsAs d bs r
    → (f : Disk) × (r ≡ some (ok bs, f))
read_as d bs none h = absurd h
read_as d bs (some (err e, f)) h = absurd h
read_as d bs (some (ok cs, f)) (same, bytes) = (f, ap (λ (x : Bytes). some (ok x, f)) same)

-- On a sound disk, after a write to a file that succeeds, a read of as many bytes from the same offset answers with
-- the bytes that were written.
pub read_inode-write_inode :
    (now now' ino : ℕ) (buf : Bytes) (off n : ℕ) (d e : Disk)
    → Sound d
    → is_dir ((d.inodes ino).kind) ≡ false
    → write_inode now ino buf off d ≡ some (ok n, e)
    → (f : Disk) × (read_inode now' ino (length buf) off e ≡ some (ok buf, f))
read_inode-write_inode now now' ino buf off n d e v file done =
    let (count, sound, bytes, size, kind) =
      subst (WritesAs d ino off buf) done (write_inode_lem now ino buf off d v file) in
    let whole : least (length buf) ((e.inodes ino).size - off) ≡ length buf =
      ground (arith, size) in
    let same =
      peek-poke off buf (content d ino) (content e ino)
        (λ x. bytes ino x ∙ rw (==_refl ino) refl) in
    let read = read_inode_lem now' ino (length buf) off e (ap is_dir kind ∙ file) in
    read_as e buf (read_inode now' ino (length buf) off e) (
      subst (λ x. ReadsAs e x (read_inode now' ino (length buf) off e))
        (ap (λ k. peek off k (content e ino)) whole ∙ same) read)
