-- ===== src/Wfs/Ops/Trip.antt =====
-- `wfs_write` and `wfs_read` of 01-fuse-filesystem-wfs/wfs.c on a path: the way from the path to the file, and the bytes.
use systems_programming_port.Prelude.{
  ℕ, suc, ◌+◌, ◌≡◌, refl, sym, ap, subst, ◌∙◌, ◌≢◌, inl, inr, Bool, true, false, Option, none, some,
  length, take, ltb, ◌==◌, Bool-cases, Bytes, ne→==, ==→eq,
}
use mathlib.Core.Bool.{true≢false}
use systems_programming_port.Wfs.Path.{clean_path}
use systems_programming_port.Wfs.Disk.{Disk, eisdir, is_dir, update_times}
use systems_programming_port.Wfs.Data.Slots.{content, Sound}
use systems_programming_port.Wfs.Data.Put.{Overwrites}
use systems_programming_port.Wfs.File.{
  Answer, ok, err, Wrote, finished, stopped, out_of_fuel, write_loop, touch, grow_size, write_done,
  write_inode, read_inode,
}
use systems_programming_port.Wfs.File.Trip.{
  WritesAs, closed, write_inode_lem, read_inode-write_inode,
}
use systems_programming_port.Wfs.File.Steady.{SteadyAfter, write_loop-Steady}
use systems_programming_port.Wfs.Directory.{get_inode_from_path}
use systems_programming_port.Wfs.Directory.Paths.{SameTree, get_inode_from_path-SameTree}
use systems_programming_port.Wfs.Ops.{wfs_read, wfs_write}

-- What is the same of all inodes when one of them may have a new size.
abbrev Others : Disk → ℕ → Disk → Type 0
Others d ino e =
    (i : ℕ)
    → (ino ≢ i → (e.inodes i).size ≡ (d.inodes i).size)
      × ((e.inodes i).kind ≡ (d.inodes i).kind)
      × (e.ibm ≡ d.ibm)
      × (e.num_inodes ≡ d.num_inodes)

Others-trans : (d e f : Disk) (ino : ℕ) → Others d ino e → Others e ino f → Others d ino f
Others-trans d e f ino a b i =
    let (size, kind, ibm, count) = a i in
    let (size', kind', ibm', count') = b i in
    (λ other. size' other ∙ size other, kind' ∙ kind, ibm' ∙ ibm, count' ∙ count)

grow_size-Others : (ino end : ℕ) (d : Disk) → Others d ino (grow_size ino end d)
grow_size-Others ino end d i = elim (Bool-cases (ltb ((d.inodes ino).size) end)) [
  | inr f ↦ rw f (λ other. refl, refl, refl, refl)
  | inl t ↦ elim (Bool-cases (ino == i)) [
    | inl own ↦ rw (t, own, ==→eq ino i own) (λ other. absurd (other refl), refl, refl, refl)
    | inr apart ↦ rw (t, apart) (λ other. refl, refl, refl, refl)
  ]
]

touch-Others : (now ino : ℕ) (a m c : Bool) (d : Disk) → Others d ino (touch now ino a m c d)
unfolding update_times
touch-Others now ino a m c d i = elim (Bool-cases (ino == i)) [
  | inl own ↦ rw (own, ==→eq ino i own) (λ other. refl, refl, refl, refl)
  | inr apart ↦ rw apart (λ other. refl, refl, refl, refl)
]

closed-Others : (now ino off n : ℕ) (d : Disk) → Others d ino (closed now ino off n d)
closed-Others now ino off n d = elim (Bool-cases (ltb 0 n)) [
  | inl t ↦ rw t (
      Others-trans d (grow_size ino (off + n) d)
        (touch now ino false true true (grow_size ino (off + n) d)) ino
        (grow_size-Others ino (off + n) d)
        (touch-Others now ino false true true (grow_size ino (off + n) d)))
  | inr f ↦ rw f (grow_size-Others ino (off + n) d)
]

abbrev OthersAfter : Disk → ℕ → Option (Answer ℕ × Disk) → Type 0
OthersAfter d ino none = Unit
OthersAfter d ino (some (r, e)) = Others d ino e

done-OthersAfter :
    (now ino off n : ℕ) (d : Disk) (w : Wrote)
    → SteadyAfter d w
    → OthersAfter d ino (write_done now ino off n w)
done-OthersAfter now ino off n d out_of_fuel steady = tt
done-OthersAfter now ino off n d (stopped f) steady =
    λ i. let (size, kind, ibm, count) = steady i in (λ other. size, kind, ibm, count)
done-OthersAfter now ino off n d (finished f) steady =
    Others-trans d f (closed now ino off n f) ino
      (λ i. let (size, kind, ibm, count) = steady i in (λ other. size, kind, ibm, count))
      (closed-Others now ino off n f)

-- The bytes of the files but one.
abbrev Elsewhere : Disk → ℕ → Option (Answer ℕ × Disk) → Type 0
Elsewhere d ino none = Unit
Elsewhere d ino (some (r, e)) = (i x : ℕ) → ino ≢ i → content e i x ≡ content d i x

Overwrites-Elsewhere :
    (d e : Disk) (ino off : ℕ) (buf : Bytes)
    → Overwrites d ino off buf e
    → (i x : ℕ) → ino ≢ i
    → content e i x ≡ content d i x
Overwrites-Elsewhere d e ino off buf w i x other =
    w i x ∙ rw (ne→== i ino (λ same. other (sym same))) refl

WritesAs-Elsewhere :
    (d : Disk) (ino off : ℕ) (buf : Bytes) (o : Option (Answer ℕ × Disk))
    → WritesAs d ino off buf o
    → Elsewhere d ino o
WritesAs-Elsewhere d ino off buf none w = tt
WritesAs-Elsewhere d ino off buf (some (ok n, e)) (count, sound, bytes, size, kind) =
    Overwrites-Elsewhere d e ino off buf bytes
WritesAs-Elsewhere d ino off buf (some (err x, e)) (sound, (n, lt, bytes), size) =
    Overwrites-Elsewhere d e ino off (take n buf) bytes

write_inode-OthersAfter :
    (now ino : ℕ) (buf : Bytes) (off : ℕ) (d : Disk)
    → is_dir (d.inodes ino).kind ≡ false
    → OthersAfter d ino (write_inode now ino buf off d)
unfolding write_inode
write_inode-OthersAfter now ino buf off d file = rw file (
    done-OthersAfter now ino off (length buf) d (write_loop (suc (length buf)) ino off buf d)
      (write_loop-Steady (suc (length buf)) ino off buf d))

-- What a write leaves of the tree of names.
abbrev TreeAfter : Disk → Option (Answer ℕ × Disk) → Type 0
TreeAfter d none = Unit
TreeAfter d (some (r, e)) = SameTree d e

kept_tree :
    (d : Disk) (ino : ℕ)
    → is_dir (d.inodes ino).kind ≡ false
    → (o : Option (Answer ℕ × Disk)) → OthersAfter d ino o
    → Elsewhere d ino o
    → TreeAfter d o
kept_tree d ino file none others bytes = tt
kept_tree d ino file (some (r, e)) others bytes =
    let apart : (i : ℕ) → is_dir (d.inodes i).kind ≡ true → ino ≢ i =
      λ i dir same. true≢false (sym dir ∙ (ap (λ j. is_dir (d.inodes j).kind) (sym same) ∙ file)) in
    record {
      used = (others 0).2;
      count = (others 0).3;
      kinds = λ i. (others i).1;
      dirs = λ i dir. ((others i).0 (apart i dir), λ x. bytes i x (apart i dir));
    }

still : (d : Disk) → SameTree d d
still d = record { used = refl; count = refl; kinds = λ i. refl; dirs = λ i dir. (refl, λ x. refl) }

refused_write :
    (now ino : ℕ) (buf : Bytes) (off : ℕ) (d : Disk)
    → is_dir (d.inodes ino).kind ≡ true
    → write_inode now ino buf off d ≡ some (err eisdir, d)
unfolding write_inode
refused_write now ino buf off d dir = rw dir refl

write_inode-TreeAfter :
    (now ino : ℕ) (buf : Bytes) (off : ℕ) (d : Disk)
    → Sound d
    → TreeAfter d (write_inode now ino buf off d)
write_inode-TreeAfter now ino buf off d v = elim (Bool-cases (is_dir (d.inodes ino).kind)) [
  | inl dir ↦ subst (TreeAfter d) (sym (refused_write now ino buf off d dir)) (still d)
  | inr file ↦
      kept_tree d ino file (write_inode now ino buf off d)
        (write_inode-OthersAfter now ino buf off d file)
        (WritesAs-Elsewhere d ino off buf (write_inode now ino buf off d)
          (write_inode_lem now ino buf off d v file))
]

wfs_write-TreeAfter :
    (now : ℕ) (path buf : Bytes) (off : ℕ) (d : Disk)
    → Sound d
    → TreeAfter d (wfs_write now path buf off d)
unfolding wfs_write
wfs_write-TreeAfter now path buf off d v = go (get_inode_from_path (clean_path path) d)
  where
    go :
        (a : Answer ℕ)
        → TreeAfter d (elim a [ err e ↦ some (err e, d) | ok ino ↦ write_inode now ino buf off d ])
    go (err e) = still d
    go (ok ino) = write_inode-TreeAfter now ino buf off d v

-- On a sound disk every path names the same inode, or has the same error, after `wfs_write` as before it, whatever
-- `wfs_write` answers.
pub wfs_write-get_inode_from_path :
    (now : ℕ) (path buf : Bytes) (off : ℕ) (d e : Disk) (r : Answer ℕ)
    → Sound d
    → wfs_write now path buf off d ≡ some (r, e)
    → (p : Bytes) → get_inode_from_path p e ≡ get_inode_from_path p d
wfs_write-get_inode_from_path now path buf off d e r v done =
    get_inode_from_path-SameTree d e
      (subst (TreeAfter d) done (wfs_write-TreeAfter now path buf off d v))

abbrev written : Option (Answer ℕ × Disk) → Bool
written (some (ok n, e)) = true
written (some (err x, e)) = false
written none = false

abbrev write_at : ℕ → Answer ℕ → Bytes → ℕ → Disk → Option (Answer ℕ × Disk)
write_at now (err x) buf off d = some (err x, d)
write_at now (ok ino) buf off d = write_inode now ino buf off d

abbrev read_at : ℕ → Answer ℕ → ℕ → ℕ → Disk → Option (Answer Bytes × Disk)
read_at now (err x) len off d = some (err x, d)
read_at now (ok ino) len off d = read_inode now ino len off d

read_at-write_at :
    (now now' : ℕ) (a : Answer ℕ) (buf : Bytes) (off n : ℕ) (d e : Disk)
    → Sound d
    → write_at now a buf off d ≡ some (ok n, e)
    → (f : Disk) × (read_at now' a (length buf) off e ≡ some (ok buf, f))
read_at-write_at now now' (err x) buf off n d e v done = absurd (true≢false (sym (ap written done)))
read_at-write_at now now' (ok ino) buf off n d e v done =
    elim (Bool-cases (is_dir (d.inodes ino).kind)) [
      | inl dir ↦
          absurd
            (true≢false (sym (ap written done) ∙ ap written (refused_write now ino buf off d dir)))
      | inr file ↦ read_inode-write_inode now now' ino buf off n d e v file done
    ]

wfs_write-write_at :
    (now : ℕ) (path buf : Bytes) (off : ℕ) (d : Disk)
    → wfs_write now path buf off d
      ≡ write_at now (get_inode_from_path (clean_path path) d) buf off d
unfolding wfs_write
wfs_write-write_at now path buf off d =
    elim (get_inode_from_path (clean_path path) d)
      as (λ a.
        elim a as (λ x. Option (Answer ℕ × Disk)) [
          | err x ↦ some (err x, d)
          | ok ino ↦ write_inode now ino buf off d
        ]
        ≡ write_at now a buf off d) [ err x ↦ refl | ok ino ↦ refl ]

wfs_read-read_at :
    (now : ℕ) (path : Bytes) (len off : ℕ) (d : Disk)
    → wfs_read now path len off d ≡ read_at now (get_inode_from_path (clean_path path) d) len off d
unfolding wfs_read
wfs_read-read_at now path len off d =
    elim (get_inode_from_path (clean_path path) d)
      as (λ a.
        elim a as (λ x. Option (Answer Bytes × Disk)) [
          | err x ↦ some (err x, d)
          | ok ino ↦ read_inode now ino len off d
        ]
        ≡ read_at now a len off d) [ err x ↦ refl | ok ino ↦ refl ]

-- On a sound disk, after a `wfs_write` that succeeds, a `wfs_read` of as many bytes from the same path and offset
-- answers with the bytes that were written.
pub wfs_read-wfs_write :
    (now now' : ℕ) (path buf : Bytes) (off n : ℕ) (d e : Disk)
    → Sound d
    → wfs_write now path buf off d ≡ some (ok n, e)
    → (f : Disk) × (wfs_read now' path (length buf) off e ≡ some (ok buf, f))
wfs_read-wfs_write now now' path buf off n d e v done =
    let same = wfs_write-get_inode_from_path now path buf off d e (ok n) v done (clean_path path) in
    let (f, answer) =
      read_at-write_at now now' (get_inode_from_path (clean_path path) d) buf off n d e v
        (sym (wfs_write-write_at now path buf off d) ∙ done) in
    (
      f,
      wfs_read-read_at now' path (length buf) off e
          ∙ (ap (λ a. read_at now' a (length buf) off e) same ∙ answer),
    )
