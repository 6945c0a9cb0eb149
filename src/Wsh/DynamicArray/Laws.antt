-- ===== src/Wsh/DynamicArray/Laws.antt =====
-- The dynamic array as a list.
use systems_programming_port.Prelude.{
  ℕ, zero, suc, ◌+◌, ◌-◌, ◌≤◌, ◌<◌, ◌≡◌, refl, ap, ◌∙◌, ◌⊎◌, inl, inr, Bool, true, false, ◌&&◌,
  Option, none, some, List, [], ◌∷◌, ◌++◌, arith, length, get_elem?, set, get_or, take, replicate,
  ltb, if◌then◌else◌, Bool-cases, Option-cases, Bytes,
}
use systems_programming_port.Prelude.{
  ap₂, ltb→lt, ltb→ge, length-append, length-set, length-replicate, subst,
}
use systems_programming_port.Wsh.DynamicArray.{
  DynamicArray, grown, da_ensure_capacity, da_put, da_get, shift_left, da_delete, store, put_value,
}

-- `capacity` counts the slots, and `size` does not exceed it.
pub record IsArray (da : DynamicArray) : Type 0 where
  pub counted : length da.slots ≡ da.capacity
  pub fits : da.size ≤ da.capacity

-- The list that the array stands for.
abbrev pub contents : DynamicArray → List (Option Bytes)
contents da = take da.size da.slots

-- The list without its element at an index.
abbrev pub remove_at : {A : Type 0} → ℕ → List A → List A
remove_at i [] = []
remove_at zero (x ∷ xs) = xs
remove_at (suc i) (x ∷ xs) = x ∷ remove_at i xs

module _ {A : Type 0} where
  take-set_end :
      (n : ℕ) (xs : List A) (v : A)
      → n < length xs
      → take (suc n) (set xs n v) ≡ take n xs ++ (v ∷ [])
  take-set_end n [] v h = absurd (omega arith)
  take-set_end zero (x ∷ xs) v h = refl
  take-set_end (suc n) (x ∷ xs) v h = ap (λ l. x ∷ l) (take-set_end n xs v (omega arith))

  take-append : (n : ℕ) (xs ys : List A) → n ≤ length xs → take n (xs ++ ys) ≡ take n xs
  take-append zero xs ys h = refl
  take-append (suc n) [] ys h = absurd (omega arith)
  take-append (suc n) (x ∷ xs) ys h = ap (λ l. x ∷ l) (take-append n xs ys (omega arith))

  get_or-take :
      (n i : ℕ) (xs : List A) (d : A)
      → i < n
      → n ≤ length xs
      → get_elem? (take n xs) i ≡ some (get_or xs i d)
  get_or-take zero i xs d h l = absurd (omega arith)
  get_or-take (suc n) i [] d h l = absurd (omega arith)
  get_or-take (suc n) zero (x ∷ xs) d h l = refl
  get_or-take (suc n) (suc i) (x ∷ xs) d h l = get_or-take n i xs d (omega arith) (omega arith)

  get_elem?-out : (n i : ℕ) (xs : List A) → n ≤ i → get_elem? (take n xs) i ≡ none
  get_elem?-out zero i xs h = refl
  get_elem?-out (suc n) i [] h = refl
  get_elem?-out (suc n) zero (x ∷ xs) h = absurd (omega arith)
  get_elem?-out (suc n) (suc i) (x ∷ xs) h = get_elem?-out n i xs (omega arith)

  remove_at-last : (k : ℕ) (xs : List A) → take k xs ≡ remove_at k (take (suc k) xs)
  remove_at-last zero [] = refl
  remove_at-last zero (x ∷ xs) = refl
  remove_at-last (suc k) [] = refl
  remove_at-last (suc k) (x ∷ xs) = ap (λ l. x ∷ l) (remove_at-last k xs)

  -- One round of the loop moves the hole one place to the right.
  remove_at-moved :
      (k m : ℕ) (xs : List A) (d : A)
      → k + suc (suc m) ≤ length xs
      → remove_at (suc k) (take (k + suc (suc m)) (set xs k (get_or xs (suc k) d)))
        ≡ remove_at k (take (k + suc (suc m)) xs)
  remove_at-moved k m [] d h = absurd (omega arith)
  remove_at-moved zero m (x ∷ []) d h = absurd (omega arith)
  remove_at-moved zero m (x ∷ y ∷ xs) d h =
      let two : 0 + suc (suc m) ≡ suc (suc m) = omega arith in rw two refl
  remove_at-moved (suc k) m (x ∷ xs) d h =
      let next : suc k + suc (suc m) ≡ suc (k + suc (suc m)) = omega arith in
      rw next (ap (λ l. x ∷ l) (remove_at-moved k m xs d (omega arith)))

  length-shift : (xs : List A) (i : ℕ) (v : A) → length (set xs i v) ≡ length xs
  length-shift xs i v = length-set xs i v

-- The loop of `da_delete` removes the element before the place where it starts.
shift_left-remove_at :
    (n k : ℕ) (slots : List (Option Bytes))
    → suc k + n ≤ length slots
    → take (k + n) (shift_left n (suc k) slots) ≡ remove_at k (take (suc k + n) slots)
unfolding shift_left
shift_left-remove_at zero k slots h =
    let a : k + 0 ≡ k = omega arith in
    let b : suc k + 0 ≡ suc k = omega arith in rw (a, b) (remove_at-last k slots)
shift_left-remove_at (suc n) k slots h =
    let a : suc k + 1 ≡ suc (suc k) = omega arith in
    let b : suc k - 1 ≡ k = omega arith in
    let c : k + suc n ≡ suc k + n = omega arith in
    let d : suc k + suc n ≡ k + suc (suc n) = omega arith in
    let e : suc (suc k) + n ≡ k + suc (suc n) = omega arith in
    let slots' = set slots k (get_or slots (suc k) none) in
    let ih =
      shift_left-remove_at n (suc k) slots'
        (omega (arith, length-set slots k (get_or slots (suc k) none))) in
    rw (a, b, c, d)
      (ih
        ∙ ap (λ m. remove_at (suc k) (take m slots')) e
        ∙ remove_at-moved k n slots none (omega arith))

length-shift_left :
    (n i : ℕ) (slots : List (Option Bytes)) → length (shift_left n i slots) ≡ length slots
unfolding shift_left
length-shift_left zero i slots = refl
length-shift_left (suc n) i slots =
    length-shift_left n (i + 1) _ ∙ length-set slots (i - 1) (get_or slots i none)

-- What makes room for one more element and keeps the contents.
abbrev HasRoom : DynamicArray → DynamicArray → Type 0
HasRoom da da' =
    IsArray da' × (da'.size < da'.capacity) × (da'.size ≡ da.size) × (contents da' ≡ contents da)

grow-HasRoom :
    (da : DynamicArray)
    → IsArray da
    → da.capacity ≤ da.size
    → HasRoom da (record da {
      slots = da.slots ++ replicate (grown da.capacity - da.capacity) none;
      capacity = grown da.capacity;
    })
grow-HasRoom da v h = (
  record {
    counted =
        length-append da.slots _
        ∙ ground (
          arith,
          v.counted,
          length-replicate {A = Option Bytes} (grown da.capacity - da.capacity) none,
        );
    fits = ground (arith, v.fits);
  },
  ground (arith, v.fits),
  refl,
  take-append da.size da.slots _ (omega (arith, v.fits, v.counted)),
)

ensure-HasRoom :
    (ok : Bool) (da da' : DynamicArray)
    → IsArray da
    → da_ensure_capacity ok da ≡ some da'
    → HasRoom da da'
unfolding da_ensure_capacity
ensure-HasRoom ok da da' v h = elim (Bool-cases (ltb da.size da.capacity)) [
  | inl room ↦
      let same : da ≡ da' = ground arith in subst (HasRoom da) same (v, ltb→lt _ _ room, refl, refl)
  | inr full ↦ elim (Bool-cases ok) [
    | inl given ↦
        let same : record da {
          slots = da.slots ++ replicate (grown da.capacity - da.capacity) none;
          capacity = grown da.capacity;
        }
            ≡ da' =
          ground arith in
        subst (HasRoom da) same (grow-HasRoom da v (ltb→ge _ _ full))
    | inr refused ↦ cc (rw (full, refused) at h)
  ]
]

store-contents :
    (val : Option Bytes) (da : DynamicArray)
    → IsArray da
    → da.size < da.capacity
    → IsArray (store val da) × (contents (store val da) ≡ contents da ++ (val ∷ []))
store-contents val da v h = (
  record { counted = length-set da.slots da.size val ∙ v.counted; fits = omega arith },
  ap (λ n. take n (set da.slots da.size val)) {x = da.size + 1} {y = suc da.size} (omega arith)
      ∙ take-set_end da.size da.slots val (omega (arith, v.counted)),
)

ensure-none : (ok : Bool) (da : DynamicArray) → da_ensure_capacity ok da ≡ none → ok ≡ false
unfolding da_ensure_capacity
ensure-none ok da h = ground arith

stored :
    (ok ok' : Bool) (da da' : DynamicArray) (val : Option Bytes)
    → HasRoom da da'
    → IsArray (put_value ok' da' val)
      × ((contents (put_value ok' da' val) ≡ contents da ++ (val ∷ []))
          ⊎ (((ok && ok') ≡ false) × (contents (put_value ok' da' val) ≡ contents da)))
stored ok ok' da da' none r =
    let c = store-contents none da' r.0 r.1 in (c.0, inl (c.1 ∙ ap (λ l. l ++ (none ∷ [])) r.3))
stored ok true da da' (some s) r =
    let c = store-contents (some s) da' r.0 r.1 in
    (c.0, inl (c.1 ∙ ap (λ l. l ++ (some s ∷ [])) r.3))
stored ok false da da' (some s) r = (r.0, inr (ground arith, r.3))

-- `da_put` appends the value at the end where memory is granted, and otherwise leaves the contents
-- as they were; either way the array stays well formed.
pub da_put-contents :
    (ok ok' : Bool) (da : DynamicArray) (val : Option Bytes)
    → IsArray da
    → IsArray (da_put ok ok' da val)
      × ((contents (da_put ok ok' da val) ≡ contents da ++ (val ∷ []))
          ⊎ (((ok && ok') ≡ false) × (contents (da_put ok ok' da val) ≡ contents da)))
unfolding da_put
da_put-contents ok ok' da val v = elim (Option-cases (da_ensure_capacity ok da)) [
  | inl e ↦ rw (e, da_put) (v, inr (ground (arith, ensure-none ok da e), refl))
  | inr (da', e) ↦
      let r = ensure-HasRoom ok da da' v e in rw (e, da_put) (stored ok ok' da da' val r)
]

-- `da_get` reads the element at the index, and nothing past the end.
pub da_get-contents :
    (da : DynamicArray) (ind : ℕ)
    → IsArray da
    → da_get da ind ≡ (elim (get_elem? (contents da) ind) [ none ↦ none | some x ↦ x ])
unfolding da_get
da_get-contents da ind v = elim (Bool-cases (ltb ind da.size)) [
  | inl inside ↦ rw (
    inside,
    get_or-take da.size ind da.slots none (ltb→lt _ _ inside) (omega (arith, v.fits, v.counted)),
  )
  | inr outside ↦ rw (outside, get_elem?-out da.size ind da.slots (ltb→ge _ _ outside))
]

-- `da_delete` removes the element at the index and closes the gap; past the end it does nothing.
pub da_delete-contents :
    (da : DynamicArray) (ind : ℕ)
    → IsArray da
    → IsArray (da_delete da ind)
      × (contents (da_delete da ind)
          ≡ (if ltb ind da.size then remove_at ind (contents da) else contents da))
unfolding da_delete
da_delete-contents da ind v = elim (Bool-cases (ltb ind da.size)) [
  | inl inside ↦ rw inside (
    record {
      counted = length-shift_left (da.size - (ind + 1)) (ind + 1) da.slots ∙ v.counted;
      fits = omega (arith, v.fits);
    },
    let n = da.size - (ind + 1) in
        let a : ind + 1 ≡ suc ind = omega arith in
        let b : da.size - 1 ≡ ind + n = omega (arith, ltb→lt _ _ inside) in
        let c : suc ind + n ≡ da.size = omega (arith, ltb→lt _ _ inside) in
        ap₂ (λ m i. take m (shift_left n i da.slots)) b a
        ∙ shift_left-remove_at n ind da.slots (omega (arith, c, v.fits, v.counted))
        ∙ ap (λ m. remove_at ind (take m da.slots)) c,
  )
  | inr outside ↦ rw outside (v, refl)
]
