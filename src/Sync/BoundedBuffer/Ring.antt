-- ===== src/Sync/BoundedBuffer/Ring.antt =====
-- The circular array: what it holds between `head` and `tail`, and how a store and a fetch move it.
use systems_programming_port.Prelude.{
  ℕ, ◌+◌, ◌-◌, ◌%◌, ◌<◌, ◌≡◌, refl, sym, subst, ◌∙◌, ◌≢◌, inl, inr, Option, some, List, [], ◌∷◌,
  ◌++◌, arith, length, get_elem?, set, leb, ◌==◌, if◌then◌else◌, Bool-cases, ==→eq, ==→ne,
  get_elem?-set_self, get_elem?-set_ne,
}
use native.Mathlib.Nat.{mod_self, mod-eq_of_lt}

-- From slot `h` on, round the array of `size` slots, are the trays `items`, and slot `t` is next.
abbrev pub Ring : List (Option ℕ) → ℕ → ℕ → List ℕ → ℕ → Type 0
Ring buf size h [] t = h ≡ t
Ring buf size h (x ∷ xs) t = (get_elem? buf h ≡ some (some x)) × Ring buf size ((h + 1) % size) xs t

pub next-mod : (k size : ℕ) → k < size → (k + 1) % size ≡ (if (k + 1) == size then 0 else k + 1)
next-mod k size h = elim (Bool-cases ((k + 1) == size)) [
  | inl hit ↦
      let same : k + 1 ≡ size = ==→eq _ _ hit in
      rw hit (subst (λ n. n % size ≡ 0) (sym same) (mod_self size))
  | inr miss ↦ rw miss (mod-eq_of_lt (omega (arith, ==→ne _ _ miss)))
]

pub next-lt : (k size : ℕ) → k < size → (k + 1) % size < size
next-lt k size h = ground (arith, next-mod k size h)

-- The steps from slot `h` to slot `t`.
abbrev gap : ℕ → ℕ → ℕ → ℕ
gap size h t = if leb h t then t - h else t + size - h

Ring-gap :
    (buf : List (Option ℕ)) (size h t : ℕ) (xs : List ℕ)
    → Ring buf size h xs t
    → h < size
    → t < size
    → length xs < size
    → gap size h t ≡ length xs
Ring-gap buf size h t [] r hh ht hl = ground arith
Ring-gap buf size h t (x ∷ xs) (g, r) hh ht hl = ground (
  arith,
  Ring-gap buf size ((h + 1) % size) t xs r (next-lt h size hh) ht (omega (arith, hl)),
  next-mod h size hh,
)

-- A store at the tail of a ring that has room appends the tray.
pub Ring-store :
    (buf : List (Option ℕ)) (size h t x : ℕ) (xs : List ℕ)
    → Ring buf size h xs t
    → h < size
    → t < size
    → length buf ≡ size
    → length xs < size
    → Ring (set buf t (some x)) size h (xs ++ (x ∷ [])) ((t + 1) % size)
Ring-store buf size h t x [] r hh ht hb hl =
    subst (λ n. Ring (set buf t (some x)) size n (x ∷ []) ((t + 1) % size)) (sym r)
      (get_elem?-set_self buf t (some x) (omega (arith, hb)), refl)
Ring-store buf size h t x (y ∷ ys) (g, r) hh ht hb hl =
    let apart : h ≢ t = λ e. ground (arith, Ring-gap buf size h t (y ∷ ys) (g, r) hh ht hl) in
    (
      get_elem?-set_ne buf t h (some x) (λ e. apart (sym e)) ∙ g,
      Ring-store buf size ((h + 1) % size) t x ys r (next-lt h size hh) ht hb (omega (arith, hl)),
    )
