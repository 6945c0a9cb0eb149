-- ===== src/Xv6/Pipe/Bounds.antt =====
-- How many bytes a pipe of 03-xv6-stcf-scheduler/pipe.c holds, through reads, writes and the
-- wrap-around of its counters.
use systems_programming_port.Prelude.{
  ℕ, zero, suc, ◌+◌, ◌-◌, ◌%◌, ◌^◌, ◌≤◌, ◌<◌, ◌≡◌, refl, ap, ◌⊎◌, inl, inr, true, false, List, [],
  ◌∷◌, arith, length, Bool-cases, ==→eq, ==→ne,
}
use systems_programming_port.Xv6.Pipe.{
  pipesize, Pipe, push, pop, is_full, is_empty, write_bytes, read_bytes,
}

abbrev pub held : Pipe → ℕ
held p = (p.nwrite + 2 ^ 32 - p.nread) % 2 ^ 32

-- The counters fit 32 bits, and the ring holds no more than its size.
pub record IsPipe (p : Pipe) : Type 0 where
  pub read_fits : p.nread < 2 ^ 32
  pub write_fits : p.nwrite < 2 ^ 32
  pub bounded : held p ≤ pipesize

pub push-IsPipe :
    (b : ℕ) (p : Pipe)
    → IsPipe p
    → is_full p ≡ false
    → IsPipe (push b p) × (held (push b p) ≡ held p + 1)
push-IsPipe b p v h =
    let ne = ==→ne _ _ h in
    (
      record {
        read_fits = v.read_fits;
        write_fits = omega arith;
        bounded = omega (arith, ne, v.read_fits, v.write_fits, v.bounded);
      },
      omega (arith, ne, v.read_fits, v.write_fits, v.bounded),
    )

pub pop-IsPipe :
    (p : Pipe) → IsPipe p → is_empty p ≡ false → IsPipe (pop p) × (held p ≡ held (pop p) + 1)
pop-IsPipe p v h =
    let ne = ==→ne _ _ h in
    (
      record {
        read_fits = omega arith;
        write_fits = v.write_fits;
        bounded = omega (arith, ne, v.read_fits, v.write_fits, v.bounded);
      },
      omega (arith, ne, v.read_fits, v.write_fits, v.bounded),
    )

full-held : (p : Pipe) → IsPipe p → is_full p ≡ true → held p ≡ pipesize
full-held p v h = omega (arith, ==→eq _ _ h, v.read_fits, v.write_fits)

-- A write keeps the pipe well formed, over the wrap-around of the counters: what it does not leave
-- is held, and it leaves bytes only in a full ring.
pub write_bytes-IsPipe :
    (bs : List ℕ) (p : Pipe)
    → IsPipe p
    → IsPipe (write_bytes bs p).1
      × (held (write_bytes bs p).1 + length (write_bytes bs p).0 ≡ held p + length bs)
      × (((write_bytes bs p).0 ≡ []) ⊎ (held (write_bytes bs p).1 ≡ pipesize))
unfolding write_bytes
write_bytes-IsPipe [] p v = (v, refl, inl refl)
write_bytes-IsPipe (b ∷ bs) p v = elim (Bool-cases (is_full p)) [
  | inl stop ↦ rw (stop, write_bytes) (v, refl, inr (full-held p v stop))
  | inr room ↦
      let (w, one_more) = push-IsPipe b p v room in
      let (x, sum, end) = write_bytes-IsPipe bs (push b p) w in
      rw (room, write_bytes) (x, omega (arith, sum, one_more), end)
]

-- A read keeps the pipe well formed: what it takes is no longer held, and it takes fewer bytes than
-- asked for only where it empties the ring.
pub read_bytes-IsPipe :
    (n : ℕ) (p : Pipe)
    → IsPipe p
    → IsPipe (read_bytes n p).1
      × (held (read_bytes n p).1 + length (read_bytes n p).0 ≡ held p)
      × ((length (read_bytes n p).0 ≡ n) ⊎ (held (read_bytes n p).1 ≡ 0))
unfolding read_bytes
read_bytes-IsPipe zero p v = (v, omega arith, inl refl)
read_bytes-IsPipe (suc n) p v = elim (Bool-cases (is_empty p)) [
  | inl stop ↦ rw (stop, read_bytes) (v, omega arith, inr (omega (arith, ==→eq _ _ stop)))
  | inr some_left ↦
      let (w, one_less) = pop-IsPipe p v some_left in
      let (x, sum, end) = read_bytes-IsPipe n (pop p) w in
      rw (some_left, read_bytes)
        (
          x,
          omega (arith, sum, one_less),
          elim end [ inl all ↦ inl (ap suc all) | inr none_left ↦ inr none_left ],
        )
]
