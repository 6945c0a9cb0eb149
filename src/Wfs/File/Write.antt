-- ===== src/Wfs/File/Write.antt =====
-- The loop of `wfs_write` in 01-fuse-filesystem-wfs/wfs.c: what it leaves on the disk.
use systems_programming_port.Prelude.{
  ℕ, zero, suc, ◌+◌, ◌*◌, ◌/◌, ◌%◌, ◌≤◌, ◌<◌, ◌≡◌, refl, sym, ap, subst, ◌∙◌, ◌≢◌, ◌⊎◌, inl, inr,
  true, false, Option, none, some, [], ◌∷◌, ◌++◌, arith, length, take, drop, ltb, leb, ◌==◌,
  Bool-cases, Bytes, ne→==, length-take, length-drop, take-append-drop, ltb→lt,
}
use systems_programming_port.Wfs.Memory.{poke}
use systems_programming_port.Wfs.Disk.{Disk, block_size, enospc, set_error}
use systems_programming_port.Wfs.Data.{max_blocks, file_block, data_offset}
use systems_programming_port.Wfs.Data.Slots.{ptr, data_slot, Sound}
use systems_programming_port.Wfs.Data.Find.{Calm, Found, error-Calm, file_block-Found}
use systems_programming_port.Wfs.Data.Put.{Overwrites, put-Sound, put-Overwrites}
use systems_programming_port.Wfs.File.{chunk_of, Wrote, finished, stopped, out_of_fuel, write_loop}
use systems_programming_port.Wfs.File.Read.{chunk_fits, chunk_moves}
use systems_programming_port.Wfs.File.Spread.{Overwrites-append, Overwrites-same}

-- No block, or the place of the offset in the block that stands in its slot.
abbrev AtBlock : Disk → ℕ → ℕ → Option ℕ × Disk → Type 0
AtBlock d ino cur r =
    Calm d r.1
    × ((r.0 ≡ none)
        ⊎ ((p : ℕ) × (r.0 ≡ some (p + cur % block_size))
            × (p ≢ 0)
            × (cur / block_size < max_blocks)
            × (ptr r.1 ino (data_slot (cur / block_size)) ≡ p)))

Found-at :
    (d : Disk) (ino cur : ℕ) (r : Option ℕ × Disk)
    → cur / block_size < max_blocks
    → Found d ino (data_slot (cur / block_size)) r
    → AtBlock d ino cur (elim r.0 [ none ↦ none | some b ↦ some (b + cur % block_size) ], r.1)
Found-at d ino cur r lt (c, inl z) = rw z (c, inl refl)
Found-at d ino cur r lt (c, inr (p, e, nz, at)) = (c, inr (p, rw e refl, nz, lt, at))

file_block-past :
    (d : Disk) (ino k : ℕ)
    → ltb k max_blocks ≡ false
    → file_block ino k true d ≡ (none, set_error enospc d)
unfolding file_block
file_block-past d ino k f = let past : leb max_blocks k ≡ true = ground (arith, f) in rw past refl

past_end :
    (d : Disk) (ino cur : ℕ)
    → Sound d
    → ltb (cur / block_size) max_blocks ≡ false
    → AtBlock d ino cur (data_offset ino cur true d)
unfolding data_offset
past_end d ino cur v f =
    subst
      (λ (r : Option ℕ × Disk).
        AtBlock d ino cur (elim r.0 [ none ↦ none | some b ↦ some (b + cur % block_size) ], r.1))
      (sym (file_block-past d ino (cur / block_size) f)) (error-Calm d v, inl refl)

data_offset_lem :
    (d : Disk) (ino cur : ℕ) → Sound d → AtBlock d ino cur (data_offset ino cur true d)
unfolding data_offset
data_offset_lem d ino cur v = elim (Bool-cases (ltb (cur / block_size) max_blocks)) [
  | inl inside ↦
      Found-at d ino cur (file_block ino (cur / block_size) true d) (ltb→lt _ _ inside)
        (file_block-Found d ino (cur / block_size) v (ltb→lt _ _ inside))
  | inr outside ↦ past_end d ino cur v outside
]

-- What the loop leaves: all of the bytes written, or a part of them, and nothing else in any file.
abbrev pub Outcome : Disk → ℕ → ℕ → Bytes → Wrote → Type 0
Outcome d ino off buf (finished e) = Sound e × Overwrites d ino off buf e
Outcome d ino off buf (stopped e) =
    Sound e × ((n : ℕ) × (n < length buf) × Overwrites d ino off (take n buf) e)
Outcome d ino off buf out_of_fuel = ⊥

plus_zero : (a : ℕ) → a ≡ 0 + a
plus_zero a = omega arith

suc_plus : (n k : ℕ) → suc (n + k) ≡ suc n + k
suc_plus n k = omega arith

take-none : (n : ℕ) → take {A = ℕ} n [] ≡ []
take-none zero = refl
take-none (suc n) = refl

take-take : (n k : ℕ) (xs : Bytes) → take n xs ++ take k (drop n xs) ≡ take (n + k) xs
take-take zero k xs = ap (λ j. take j xs) (plus_zero k)
take-take (suc n) k [] = take-none k ∙ sym (take-none (suc n + k))
take-take (suc n) k (x ∷ xs) =
    ap (λ (ys : Bytes). x ∷ ys) (take-take n k xs) ∙ ap (λ j. take j (x ∷ xs)) (suc_plus n k)

length-piece : (n : ℕ) (buf : Bytes) → n ≤ length buf → length (take n buf) ≡ n
length-piece n buf h = ground (arith, length-take n buf, h)

joined-Overwrites :
    (d e f : Disk) (ino off n : ℕ) (buf cs : Bytes)
    → n ≤ length buf
    → Overwrites d ino off (take n buf) e
    → Overwrites e ino (off + n) cs f
    → Overwrites d ino off (take n buf ++ cs) f
joined-Overwrites d e f ino off n buf cs le w u =
    Overwrites-append d e f ino off (take n buf) cs w
      (subst (λ k. Overwrites e ino (off + k) cs f) (sym (length-piece n buf le)) u)

-- After a piece, the outcome of the rest is the outcome of all.
more-Outcome :
    (d e : Disk) (ino off n : ℕ) (buf : Bytes) (w : Wrote)
    → n ≤ length buf
    → Overwrites d ino off (take n buf) e
    → Outcome e ino (off + n) (drop n buf) w
    → Outcome d ino off buf w
more-Outcome d e ino off n buf (finished f) lt w (v, u) = (
  v,
  subst (λ x. Overwrites d ino off x f) (take-append-drop n buf)
      (joined-Overwrites d e f ino off n buf (drop n buf) lt w u),
)
more-Outcome d e ino off n buf (stopped f) lt w (v, (k, short, u)) = (
  v,
  (
    n + k,
    omega (arith, short, length-drop n buf, lt),
    subst (λ x. Overwrites d ino off x f) (take-take n k buf)
        (joined-Overwrites d e f ino off n buf (take k (drop n buf)) lt w u),
  ),
)
more-Outcome d e ino off n buf out_of_fuel lt w o = o

-- One piece stored at the place that `data_offset` found.
piece_stored :
    (d e : Disk) (ino cur p : ℕ) (bs : Bytes)
    → Calm d e
    → p ≢ 0
    → cur / block_size < max_blocks
    → ptr e ino (data_slot (cur / block_size)) ≡ p
    → cur % block_size + length bs ≤ block_size
    → (let f : Disk = record e { mem = poke (p + cur % block_size) bs e.mem } in
        Sound f × Overwrites d ino cur bs f)
piece_stored d e ino cur p bs (v, same) nz lt at room =
    let k = cur / block_size in
    let w = put-Overwrites e ino k p (cur % block_size) bs v at nz room lt in
    let here : k * block_size + cur % block_size ≡ cur + 0 = omega arith in
    (
      put-Sound e ino k p (cur % block_size) bs v at nz room,
      Overwrites-append d e _ ino cur [] bs (Overwrites-same d e ino cur same.bytes) (
          subst
            (λ x. Overwrites e ino x bs (record e { mem = poke (p + cur % block_size) bs e.mem }))
            here w),
    )

write_step :
    (d : Disk) (ino cur n : ℕ) (buf : Bytes) (found : Option ℕ × Disk) (more : ℕ → Wrote)
    → AtBlock d ino cur found
    → 0 < n
    → n ≤ length buf
    → cur % block_size + n ≤ block_size
    → ((a : ℕ) (e : Disk)
        → e ≡ record found.1 { mem = poke a (take n buf) found.1.mem }
        → Sound e
        → Outcome e ino (cur + n) (drop n buf) (more a))
    → Outcome d ino cur buf (elim found.0 [ none ↦ stopped found.1 | some a ↦ more a ])
write_step d ino cur n buf found more (c, inl z) pos le room ih =
    rw z (c.0, (0, omega (arith, pos, le), Overwrites-same d found.1 ino cur (c.1.bytes)))
write_step d ino cur n buf found more (c, inr (p, e, nz, lt, at)) pos le room ih =
    let (v, w) =
      piece_stored d found.1 ino cur p (take n buf) c nz lt at
        (omega (arith, length-piece n buf le, room)) in
    rw e (more-Outcome d _ ino cur n buf _ le w (ih (p + cur % block_size) _ refl v))

-- On a sound disk, with more rounds than bytes, the loop of `wfs_write` does not run out of rounds: it
-- writes all of the bytes or, where there is no block, the first of them, changes no other byte of
-- any file, and leaves the disk sound.
pub write_loop_lem :
    (fuel ino cur : ℕ) (buf : Bytes) (d : Disk)
    → Sound d
    → length buf < fuel
    → Outcome d ino cur buf (write_loop fuel ino cur buf d)
unfolding write_loop
write_loop_lem zero ino cur buf d v h = absurd (omega (arith, h))
write_loop_lem (suc fuel) ino cur [] d v h = (v, Overwrites-same d d ino cur (λ i x. refl))
write_loop_lem (suc fuel) ino cur (b ∷ bs) d v h =
    let buf = b ∷ bs in
    let n = chunk_of (length buf) cur in
    let (fits, within) = chunk_fits (length buf) cur in
    let moves = chunk_moves (length buf) cur (omega arith) in
    let going : (length buf == 0) ≡ false = ne→== (length buf) 0 (omega arith) in
    rw going (
      write_step d ino cur n buf (data_offset ino cur true d) _ (data_offset_lem d ino cur v) moves
        fits within
        (λ a e same u.
          subst
            (λ x.
              Outcome e ino (cur + n) (drop n buf) (write_loop fuel ino (cur + n) (drop n buf) x))
            same
            (write_loop_lem fuel ino (cur + n) (drop n buf) e u
              (omega (arith, moves, fits, h, length-drop n buf)))))
