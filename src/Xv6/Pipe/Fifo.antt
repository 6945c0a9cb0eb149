-- ===== src/Xv6/Pipe/Fifo.antt =====
-- The bytes of a pipe of 03-xv6-stcf-scheduler/pipe.c as a queue.
use systems_programming_port.Prelude.{
  ℕ, zero, suc, ◌+◌, ◌%◌, ◌^◌, ◌≤◌, ◌<◌, ◌≡◌, refl, sym, ap, subst, ◌∙◌, ◌≢◌, ◌⊎◌, inl, inr, false,
  List, [], ◌∷◌, ◌++◌, arith, length, set, get_or, Bool-cases, ==→ne, ap₂, length-set,
  get_or-set_self, get_or-set_ne, append_assoc,
}
use systems_programming_port.Xv6.Pipe.{
  pipesize, Pipe, push, pop, is_full, is_empty, write_bytes, read_bytes,
}
use systems_programming_port.Xv6.Pipe.Bounds.{
  held, IsPipe, push-IsPipe, pop-IsPipe, write_bytes-IsPipe, read_bytes-IsPipe,
}

-- `n` bytes of the ring from a counter on.
unfoldable pub ring : ℕ → ℕ → List ℕ → List ℕ
ring zero i bytes = []
ring (suc n) i bytes = get_or bytes (i % pipesize) 0 ∷ ring n (i + 1) bytes

-- What was written and is not read yet, in order.
unfoldable pub queue : Pipe → List ℕ
unfolding ring
queue p = ring (held p) p.nread p.bytes

-- A pipe with all of its ring.
pub record IsRing (p : Pipe) : Type 0 where
  pub counters : IsPipe p
  pub whole : length p.bytes ≡ pipesize

ring_mod :
    (n i j : ℕ) (bytes : List ℕ) → i % pipesize ≡ j % pipesize → ring n i bytes ≡ ring n j bytes
unfolding ring
ring_mod zero i j bytes h = refl
ring_mod (suc n) i j bytes h = rw (h, ring_mod n (i + 1) (j + 1) bytes (omega (arith, h))) refl

ring-set :
    (n i b : ℕ) (bytes : List ℕ)
    → length bytes ≡ pipesize
    → n < pipesize
    → ring (suc n) i (set bytes ((i + n) % pipesize) b) ≡ ring n i bytes ++ (b ∷ [])
unfolding ring
ring-set zero i b bytes whole lt =
    let at : (i + 0) % pipesize ≡ i % pipesize = omega arith in
    ap (λ (x : ℕ). x ∷ []) (rw at (get_or-set_self bytes (i % pipesize) b 0 (omega (arith, whole))))
ring-set (suc n) i b bytes whole lt =
    let apart : (i + suc n) % pipesize ≢ i % pipesize = λ e. absurd (omega (arith, lt, e)) in
    let next : (i + suc n) % pipesize ≡ (i + 1 + n) % pipesize = omega arith in
    ap₂ (λ (x : ℕ) (xs : List ℕ). x ∷ xs)
      (get_or-set_ne bytes ((i + suc n) % pipesize) (i % pipesize) b 0 apart)
      (subst (λ k. ring (suc n) (i + 1) (set bytes k b) ≡ ring n (i + 1) bytes ++ (b ∷ []))
        (sym next) (ring-set n (i + 1) b bytes whole (omega (arith, lt))))

length-ring : (n i : ℕ) (bytes : List ℕ) → length (ring n i bytes) ≡ n
unfolding ring
length-ring zero i bytes = refl
length-ring (suc n) i bytes = ap suc (length-ring n (i + 1) bytes)

push-queue :
    (b : ℕ) (p : Pipe) → IsRing p → is_full p ≡ false → queue (push b p) ≡ queue p ++ (b ∷ [])
unfolding queue
push-queue b p v room =
    let ne = ==→ne _ _ room in
    let c = v.counters in
    let lt : held p < pipesize = omega (arith, ne, c.read_fits, c.write_fits, c.bounded) in
    let at : (p.nread + held p) % pipesize ≡ p.nwrite % pipesize =
      omega (arith, c.read_fits, c.write_fits) in
    ap (λ n. ring n p.nread (set p.bytes (p.nwrite % pipesize) b)) {x = held (push b p)}
      {y = suc (held p)} (omega (arith, (push-IsPipe b p c room).1))
    ∙ subst
        (λ k.
          ring (suc (held p)) p.nread (set p.bytes k b) ≡ ring (held p) p.nread p.bytes ++ (b ∷ []))
        at (ring-set (held p) p.nread b p.bytes v.whole lt)

pop-queue :
    (p : Pipe)
    → IsRing p
    → is_empty p ≡ false
    → queue p ≡ get_or p.bytes (p.nread % pipesize) 0 ∷ queue (pop p)
unfolding queue
pop-queue p v some_there =
    let one : held p ≡ suc (held (pop p)) = omega (arith, (pop-IsPipe p v.counters some_there).1) in
    let same =
      ring_mod (held (pop p)) (p.nread + 1) ((p.nread + 1) % 2 ^ 32) p.bytes (omega arith) in
    ap (λ n. ring n p.nread p.bytes) one
    ∙ ap (λ (xs : List ℕ). get_or p.bytes (p.nread % pipesize) 0 ∷ xs) same

push-IsRing : (b : ℕ) (p : Pipe) → IsRing p → is_full p ≡ false → IsRing (push b p)
push-IsRing b p v room = record {
  counters = (push-IsPipe b p v.counters room).0;
  whole = length-set p.bytes (p.nwrite % pipesize) b ∙ v.whole;
}

pop-IsRing : (p : Pipe) → IsRing p → is_empty p ≡ false → IsRing (pop p)
pop-IsRing p v some_there = record {
  counters = (pop-IsPipe p v.counters some_there).0;
  whole = v.whole;
}

write_bytes-queue :
    (bs : List ℕ) (p : Pipe)
    → IsRing p
    → IsRing (write_bytes bs p).1
      × (queue (write_bytes bs p).1 ++ (write_bytes bs p).0 ≡ queue p ++ bs)
unfolding write_bytes
write_bytes-queue [] p v = (v, refl)
write_bytes-queue (b ∷ bs) p v = elim (Bool-cases (is_full p)) [
  | inl full ↦ rw (full, write_bytes) (v, refl)
  | inr room ↦
      let (w, order) = write_bytes-queue bs (push b p) (push-IsRing b p v room) in
      rw (room, write_bytes)
        (
          w,
          order
              ∙ (ap (λ (xs : List ℕ). xs ++ bs) (push-queue b p v room)
                  ∙ append_assoc (queue p) (b ∷ []) bs),
        )
]

read_bytes-queue :
    (n : ℕ) (p : Pipe)
    → IsRing p
    → IsRing (read_bytes n p).1 × ((read_bytes n p).0 ++ queue (read_bytes n p).1 ≡ queue p)
unfolding read_bytes
read_bytes-queue zero p v = (v, refl)
read_bytes-queue (suc n) p v = elim (Bool-cases (is_empty p)) [
  | inl empty ↦ rw (empty, read_bytes) (v, refl)
  | inr some_there ↦
      let (w, order) = read_bytes-queue n (pop p) (pop-IsRing p v some_there) in
      rw (some_there, read_bytes)
        (
          w,
          ap (λ (xs : List ℕ). get_or p.bytes (p.nread % pipesize) 0 ∷ xs) order
              ∙ sym (pop-queue p v some_there),
        )
]

length-queue : (p : Pipe) → length (queue p) ≡ held p
unfolding queue
length-queue p = length-ring (held p) p.nread p.bytes

-- A pipe with all of its ring is a queue of at most 512 bytes, over the wrap-around of its counters: a write puts
-- bytes at the end, in order, and leaves some only where the queue is full; a read takes bytes from the front, in
-- order, and fewer than asked for only where it takes all. Both keep the pipe well formed.
pub pipe_queue :
    (p : Pipe)
    → IsRing p
    → ((bs : List ℕ)
        → IsRing (write_bytes bs p).1
          × (queue (write_bytes bs p).1 ++ (write_bytes bs p).0 ≡ queue p ++ bs)
          × (((write_bytes bs p).0 ≡ []) ⊎ (length (queue (write_bytes bs p).1) ≡ pipesize)))
      × ((n : ℕ)
          → IsRing (read_bytes n p).1
            × ((read_bytes n p).0 ++ queue (read_bytes n p).1 ≡ queue p)
            × ((length (read_bytes n p).0 ≡ n) ⊎ (length (queue (read_bytes n p).1) ≡ 0)))
      × (length (queue p) ≤ pipesize)
pipe_queue p v = (
  λ bs.
      let (w, order) = write_bytes-queue bs p v in
      let (c, sum, end) = write_bytes-IsPipe bs p v.counters in
      (
        w,
        order,
        elim end [ inl all ↦ inl all | inr full ↦ inr (length-queue (write_bytes bs p).1 ∙ full) ],
      ),
  λ n.
      let (w, order) = read_bytes-queue n p v in
      let (c, sum, end) = read_bytes-IsPipe n p v.counters in
      (
        w,
        order,
        elim end [ inl all ↦ inl all | inr empty ↦ inr (length-queue (read_bytes n p).1 ∙ empty) ],
      ),
  omega (arith, length-queue p, v.counters.bounded),
)
