-- ===== src/Wfs/File/Spread.antt =====
-- Bytes written to a file one piece after the other.
use systems_programming_port.Prelude.{
  ℕ, zero, suc, ◌+◌, ◌-◌, ◌≤◌, ◌<◌, ◌≡◌, refl, sym, ap, ◌∙◌, ◌⊎◌, inl, inr, true, false, [], ◌∷◌,
  ◌++◌, arith, length, get_or, ltb, leb, ◌==◌, Bool-cases, Bytes, ==_refl, ==→eq, length-append,
  ltb→lt, ltb→ge,
}
use systems_programming_port.Wfs.Memory.{Memory, poke}
use systems_programming_port.Wfs.Memory.Laws.{poke-Outside}
use systems_programming_port.Wfs.Disk.{Disk}
use systems_programming_port.Wfs.Data.Slots.{content}
use systems_programming_port.Wfs.Data.Put.{Overwrites}

get_or-before : (xs ys : Bytes) (i : ℕ) → i < length xs → get_or (xs ++ ys) i 0 ≡ get_or xs i 0
get_or-before [] ys i h = absurd (omega (arith, h))
get_or-before (x ∷ xs) ys zero h = refl
get_or-before (x ∷ xs) ys (suc i) h = get_or-before xs ys i (omega (arith, h))

get_or-after : (xs ys : Bytes) (i : ℕ) → get_or (xs ++ ys) (length xs + i) 0 ≡ get_or ys i 0
get_or-after [] ys i = ap (λ j. get_or ys j 0) (ground arith)
get_or-after (x ∷ xs) ys i =
    let e : suc (length xs) + i ≡ suc (length xs + i) = omega arith in
    ap (λ j. get_or (x ∷ xs ++ ys) j 0) e ∙ get_or-after xs ys i

-- Stored one after the other is stored at once.
poke-append :
    (a x : ℕ) (bs cs : Bytes) (m m' : Memory)
    → m' x ≡ poke a bs m x
    → poke (a + length bs) cs m' x ≡ poke a (bs ++ cs) m x
unfolding poke
poke-append a x bs cs m m' h = elim (Bool-cases (leb a x)) [
  | inr before ↦
      let later : leb (a + length bs) x ≡ false = ground (arith, before) in
      rw (before, later) (h ∙ rw before refl)
  | inl from ↦ elim (Bool-cases (ltb x (a + length bs))) [
    | inl first ↦
        let later : leb (a + length bs) x ≡ false = ground (arith, first) in
        let inside : ltb x (a + length (bs ++ cs)) ≡ true =
          ground (arith, first, length-append bs cs) in
        rw (from, later, inside)
          (h ∙ rw (from, first) (sym (get_or-before bs cs (x - a) (ground (arith, first, from)))))
    | inr second ↦
        let later : leb (a + length bs) x ≡ true = ground (arith, second) in
        let same : ltb x (a + length (bs ++ cs)) ≡ ltb x (a + length bs + length cs) =
          ground (arith, length-append bs cs) in
        let at : x - a ≡ length bs + (x - (a + length bs)) = ground (arith, second, from) in
        rw (from, later, same)
          (elim (Bool-cases (ltb x (a + length bs + length cs))) [
            | inl t ↦ rw (t, at) (sym (get_or-after bs cs (x - (a + length bs))))
            | inr f ↦ rw f (h ∙ rw (from, second) refl)
          ])
  ]
]

pub Overwrites-append :
    (d e f : Disk) (ino a : ℕ) (bs cs : Bytes)
    → Overwrites d ino a bs e
    → Overwrites e ino (a + length bs) cs f
    → Overwrites d ino a (bs ++ cs) f
Overwrites-append d e f ino a bs cs w u i x = elim (Bool-cases (i == ino)) [
  | inr other ↦ u i x ∙ (rw other (w i x ∙ rw other refl))
  | inl own ↦
      let here : content e ino x ≡ poke a bs (content d ino) x = w ino x ∙ rw (==_refl ino) refl in
      u i x ∙ rw own (poke-append a x bs cs (content d ino) (content e ino) here)
]

-- Nothing stored, and a step that changes no file.
pub Overwrites-same :
    (d e : Disk) (ino a : ℕ) → ((i x : ℕ) → content e i x ≡ content d i x) → Overwrites d ino a [] e
Overwrites-same d e ino a h i x = elim (Bool-cases (i == ino)) [
  | inr other ↦ rw other (h i x)
  | inl own ↦ rw own (
      h i x
      ∙ (ap (λ n. content d n x) (==→eq _ _ own)
          ∙ sym (poke-Outside a x [] (content d ino) (nothing a x))))
]
  where
    nothing : (b y : ℕ) → (y < b) ⊎ (b + 0 ≤ y)
    nothing b y = elim (Bool-cases (ltb y b)) [
      | inl lt ↦ inl (ltb→lt _ _ lt)
      | inr ge ↦ inr (omega (arith, ltb→ge _ _ ge))
    ]
