-- ===== src/Xv6/Buffers/Lookup.antt =====
-- The two scans of `bget` in 03-xv6-stcf-scheduler/bio.c.
use systems_programming_port.Prelude.{
  ℕ, zero, suc, ◌<◌, ◌≡◌, refl, sym, subst, ◌∙◌, ◌⊎◌, inl, inr, true, false, Option, none, some,
  List, [], ◌∷◌, arith, ◌==◌, if◌then◌else◌, Bool-cases, ==→eq, ==→ne,
}
use systems_programming_port.Xv6.Buffers.{Buf, is_cached, cached, is_spare, spare, chained, unlink}

abbrev pub In : ℕ → List ℕ → Type 0
In i [] = ⊥
In i (j ∷ js) = (j ≡ i) ⊎ In i js

module _ (dev n : ℕ) (buf : ℕ → Buf) where
  -- The answer of a scan.
  abbrev pub Cached : List ℕ → Option ℕ → Type 0
  Cached is none = (i : ℕ) → In i is → is_cached dev n (buf i) ≡ false
  Cached is (some i) = In i is × (is_cached dev n (buf i) ≡ true)

  cons-Cached :
      (i : ℕ) (is : List ℕ) (o : Option ℕ)
      → is_cached dev n (buf i) ≡ false
      → Cached is o
      → Cached (i ∷ is) o
  cons-Cached i is none h c = λ j at. elim at [
    | inl same ↦ subst (λ k. is_cached dev n (buf k) ≡ false) same h
    | inr there ↦ c j there
  ]
  cons-Cached i is (some j) h (there, key) = (inr there, key)

  pub cached_lem : (is : List ℕ) → Cached is (cached dev n buf is)
  unfolding cached
  cached_lem [] = λ i h. absurd h
  cached_lem (i ∷ is) = elim (Bool-cases (is_cached dev n (buf i))) [
    | inl hit ↦ rw hit (inl refl, hit)
    | inr miss ↦ rw miss (cons-Cached i is (cached dev n buf is) miss (cached_lem is))
  ]

module _ (buf : ℕ → Buf) where
  abbrev pub Spare : List ℕ → Option ℕ → Type 0
  Spare is none = (i : ℕ) → In i is → is_spare (buf i) ≡ false
  Spare is (some i) = In i is × (is_spare (buf i) ≡ true)

  pub spare_lem : (is : List ℕ) → Spare is (spare buf is)
  unfolding spare
  spare_lem [] = λ i h. absurd h
  spare_lem (i ∷ is) = back (spare buf is) (spare_lem is)
    where
      back :
          (o : Option ℕ)
          → Spare is o
          → Spare
              (i ∷ is)
              (elim o [ some j ↦ some j | none ↦ if is_spare (buf i) then some i else none ])
      back (some j) (there, free) = (inr there, free)
      back none taken = elim (Bool-cases (is_spare (buf i))) [
        | inl free ↦ rw free (inl refl, free)
        | inr busy ↦ rw busy (λ j at. elim at [
          | inl same ↦ subst (λ k. is_spare (buf k) ≡ false) same busy
          | inr there ↦ taken j there
        ])
      ]

pub chained_all : (n i : ℕ) → i < n → In i (chained n)
chained_all zero i h = absurd (omega (arith, h))
chained_all (suc n) i h = elim (Bool-cases (n == i)) [
  | inl same ↦ inl (==→eq n i same)
  | inr other ↦ inr (chained_all n i (omega (arith, h, ==→ne n i other)))
]

pub chained_lt : (n i : ℕ) → In i (chained n) → i < n
chained_lt zero i h = absurd h
chained_lt (suc n) i (inl same) = omega (arith, same)
chained_lt (suc n) i (inr there) = omega (arith, chained_lt n i there)

-- The list after a buffer has moved to its head has the same buffers.
pub moved-In : (i j : ℕ) (js : List ℕ) → In j js → In j (i ∷ unlink i js)
moved-In i j [] h = absurd h
moved-In i j (k ∷ js) h = elim (Bool-cases (k == i)) [
  | inl same ↦ elim h [
    | inl here ↦ inl (sym (==→eq k i same) ∙ here)
    | inr there ↦ rw same (moved-In i j js there)
  ]
  | inr other ↦ elim h [
    | inl here ↦ rw other (inr (inl here))
    | inr there ↦
        rw other (elim (moved-In i j js there) [ inl here ↦ inl here | inr rest ↦ inr (inr rest) ])
  ]
]

pub unlink-In : (i j : ℕ) (js : List ℕ) → In j (unlink i js) → In j js
unlink-In i j [] h = h
unlink-In i j (k ∷ js) h = elim (Bool-cases (k == i)) [
  | inl same ↦
      inr (unlink-In i j js (subst (λ b. In j (if b then unlink i js else k ∷ unlink i js)) same h))
  | inr other ↦ elim (subst (λ b. In j (if b then unlink i js else k ∷ unlink i js)) other h) [
    | inl here ↦ inl here
    | inr there ↦ inr (unlink-In i j js there)
  ]
]
