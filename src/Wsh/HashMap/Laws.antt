-- ===== src/Wsh/HashMap/Laws.antt =====
-- The alias table as a finite map: what `hm_get` sees after `hm_put` and `hm_delete`.
use systems_programming_port.Prelude.{
  ℕ, zero, suc, ◌<◌, ◌≡◌, refl, sym, ap, ◌∙◌, inl, inr, false, none, some, List, [], ◌∷◌, arith,
  length, set, get_or, replicate, ◌==◌, if◌then◌else◌, Bool-cases, Option-cases, Bytes, str_eq,
  ==→eq, ==→ne,
}
use systems_programming_port.Prelude.{str_eq_iff, length-set, get_or-set_self, get_or-set_ne, subst}
use systems_programming_port.Wsh.HashMap.{
  Entry, HashMap, table_size, hash, bucket, hm_create, update_in, put_in, hm_put, get_in, hm_get,
  delete_in, hm_delete,
}

hash-lt : (key : Bytes) → hash key < table_size
unfolding hash
hash-lt key = omega arith

-- No chain holds a key twice.
abbrev Absent : Bytes → List Entry → Type 0
Absent key [] = Unit {0}
Absent key (e ∷ es) = (str_eq e.key key ≡ false) × Absent key es

abbrev Distinct : List Entry → Type 0
Distinct [] = Unit {0}
Distinct (e ∷ es) = Absent e.key es × Distinct es

-- All buckets are there, and no chain holds a key twice.
pub record IsTable (hm : HashMap) : Type 0 where
  pub full : length hm.buckets ≡ table_size
  pub distinct : (i : ℕ) → Distinct (get_or hm.buckets i [])

update_in-none :
    (key value : Bytes) (es : List Entry) → update_in key value es ≡ none → get_in key es ≡ none
unfolding update_in get_in
update_in-none key value [] h = refl
update_in-none key value (e ∷ es) h = ground (arith, update_in-none key value es)

update_in-some :
    (key j value : Bytes) (es es' : List Entry)
    → update_in key value es ≡ some es'
    → get_in j es' ≡ (if str_eq key j then some value else get_in j es)
unfolding update_in get_in
update_in-some key j value [] es' h = cc
update_in-some key j value (e ∷ es) es' h = elim (Bool-cases (str_eq e.key key)) [
  | inl hit ↦
      let shape : record e { value = value } ∷ es ≡ es' = ground arith in
      subst (λ l. get_in j l ≡ (if str_eq key j then some value else get_in j (e ∷ es))) shape
        (let same : e.key ≡ key = (str_eq_iff e.key key).0 hit in rw same (ground arith))
  | inr miss ↦ elim (Option-cases (update_in key value es)) [
    | inl none_there ↦ cc (rw (miss, none_there, update_in) at h)
    | inr (rest, there) ↦
        let shape : e ∷ rest ≡ es' = ground arith in
        subst (λ l. get_in j l ≡ (if str_eq key j then some value else get_in j (e ∷ es))) shape
          (ground (
            arith,
            update_in-some key j value es rest there,
            str_eq_iff e.key j,
            str_eq_iff key j,
            str_eq_iff e.key key,
          ))
  ]
]

get_in-put_in :
    (key j value : Bytes) (es : List Entry)
    → get_in j (put_in key value es) ≡ (if str_eq key j then some value else get_in j es)
unfolding put_in get_in
get_in-put_in key j value es = elim (Option-cases (update_in key value es)) [
  | inl e ↦ rw (e, put_in)
  | inr (es', e) ↦ rw (e, put_in) (update_in-some key j value es es' e)
]

-- What the array holds after a write to one bucket.
get_or-set :
    (xs : List (List Entry)) (i j : ℕ) (v : List Entry)
    → i < length xs
    → get_or (set xs i v) j [] ≡ (if i == j then v else get_or xs j [])
get_or-set xs i j v h = elim (Bool-cases (i == j)) [
  | inl hit ↦
      rw hit
        (subst (λ n. get_or (set xs i v) n [] ≡ v) (==→eq i j hit) (get_or-set_self xs i v [] h))
  | inr miss ↦ rw miss (get_or-set_ne xs i j v [] (==→ne i j miss))
]

differ : (key j : Bytes) → (hash key == hash j) ≡ false → str_eq key j ≡ false
differ key j h = elim (Bool-cases (str_eq key j)) [
  | inl e ↦ absurd (==→ne _ _ h (ap hash ((str_eq_iff key j).0 e)))
  | inr e ↦ e
]

-- `hm_get` after `hm_put`: the new value at the key, and the old answer at every other.
pub hm_get-hm_put :
    (hm : HashMap) (key j value : Bytes)
    → IsTable hm
    → hm_get (hm_put hm key value) j ≡ (if str_eq key j then some value else hm_get hm j)
unfolding hm_get hm_put
hm_get-hm_put hm key j value t =
    let slot =
      get_or-set hm.buckets (hash key) (hash j) (put_in key value (bucket hm key))
        (rw t.full (hash-lt key)) in
    elim (Bool-cases (hash key == hash j)) [
      | inl hit ↦
          let same : bucket hm j ≡ bucket hm key =
            ap (λ n. get_or hm.buckets n []) (sym (==→eq _ _ hit)) in
          rw (slot, hit) (rw same (get_in-put_in key j value (bucket hm key)))
      | inr miss ↦
          let other : str_eq key j ≡ false = differ key j miss in rw (slot, miss) (rw other refl)
    ]

get_in-Absent : (key : Bytes) (es : List Entry) → Absent key es → get_in key es ≡ none
unfolding get_in
get_in-Absent key [] a = refl
get_in-Absent key (e ∷ es) a = rw (a.0) (get_in-Absent key es a.1)

get_in-delete_in :
    (key j : Bytes) (es : List Entry)
    → Distinct es
    → get_in j (delete_in key es) ≡ (if str_eq key j then none else get_in j es)
unfolding get_in delete_in
get_in-delete_in key j [] d = ground arith
get_in-delete_in key j (e ∷ es) d = elim (Bool-cases (str_eq e.key key)) [
  | inl hit ↦
      let same : e.key ≡ key = (str_eq_iff e.key key).0 hit in
      rw hit (elim (Bool-cases (str_eq key j)) [
        | inl asked ↦
            let to_j : e.key ≡ j = same ∙ (str_eq_iff key j).0 asked in
            rw asked (get_in-Absent j es (subst (λ n. Absent n es) to_j d.0))
        | inr other ↦ rw (other, same) (rw other refl)
      ])
  | inr miss ↦ ground (
    arith,
    get_in-delete_in key j es d.1,
    str_eq_iff e.key key,
    str_eq_iff key j,
    str_eq_iff e.key j,
  )
]

Absent-delete_in : (key j : Bytes) (es : List Entry) → Absent j es → Absent j (delete_in key es)
unfolding delete_in
Absent-delete_in key j [] a = a
Absent-delete_in key j (e ∷ es) a = ground (arith, Absent-delete_in key j es a.1)

delete_in-Distinct : (key : Bytes) (es : List Entry) → Distinct es → Distinct (delete_in key es)
unfolding delete_in
delete_in-Distinct key [] d = d
delete_in-Distinct key (e ∷ es) d =
    ground (arith, delete_in-Distinct key es d.1, Absent-delete_in key e.key es d.0)

-- Updating in place keeps the keys of a chain.
Absent-update_in :
    (key value j : Bytes) (es es' : List Entry)
    → update_in key value es ≡ some es'
    → Absent j es
    → Absent j es'
unfolding update_in
Absent-update_in key value j [] es' h a = cc
Absent-update_in key value j (e ∷ es) es' h a = elim (Bool-cases (str_eq e.key key)) [
  | inl hit ↦
      let shape : record e { value = value } ∷ es ≡ es' = ground arith in subst (Absent j) shape a
  | inr miss ↦ elim (Option-cases (update_in key value es)) [
    | inl no_one ↦ cc (rw (miss, no_one, update_in) at h)
    | inr (rest, there) ↦
        let shape : e ∷ rest ≡ es' = ground arith in
        subst (Absent j) shape (a.0, Absent-update_in key value j es rest there a.1)
  ]
]

update_in-Distinct :
    (key value : Bytes) (es es' : List Entry)
    → update_in key value es ≡ some es'
    → Distinct es
    → Distinct es'
unfolding update_in
update_in-Distinct key value [] es' h d = cc
update_in-Distinct key value (e ∷ es) es' h d = elim (Bool-cases (str_eq e.key key)) [
  | inl hit ↦
      let shape : record e { value = value } ∷ es ≡ es' = ground arith in subst Distinct shape d
  | inr miss ↦ elim (Option-cases (update_in key value es)) [
    | inl no_one ↦ cc (rw (miss, no_one, update_in) at h)
    | inr (rest, there) ↦
        let shape : e ∷ rest ≡ es' = ground arith in
        subst Distinct shape (
          Absent-update_in key value e.key es rest there d.0,
          update_in-Distinct key value es rest there d.1,
        )
  ]
]

Absent-of_none :
    (key value : Bytes) (es : List Entry) → update_in key value es ≡ none → Absent key es
unfolding update_in
Absent-of_none key value [] h = tt
Absent-of_none key value (e ∷ es) h = elim (Bool-cases (str_eq e.key key)) [
  | inl hit ↦ cc (rw hit at h)
  | inr miss ↦ elim (Option-cases (update_in key value es)) [
    | inl no_one ↦ (miss, Absent-of_none key value es no_one)
    | inr (rest, there) ↦ cc (rw (miss, there, update_in) at h)
  ]
]

put_in-Distinct :
    (key value : Bytes) (es : List Entry) → Distinct es → Distinct (put_in key value es)
unfolding put_in
put_in-Distinct key value es d = elim (Option-cases (update_in key value es)) [
  | inl e ↦ rw (e, put_in) (Absent-of_none key value es e, d)
  | inr (es', e) ↦ rw (e, put_in) (update_in-Distinct key value es es' e d)
]

set-IsTable :
    (hm : HashMap) (i : ℕ) (v : List Entry)
    → i < table_size
    → Distinct v
    → IsTable hm
    → IsTable (record { buckets = set hm.buckets i v })
set-IsTable hm i v h d t = record {
  full = length-set hm.buckets i v ∙ t.full;
  distinct = λ j.
      subst Distinct (sym (get_or-set hm.buckets i j v (rw t.full h)))
        (ground (arith, t.distinct j));
}

-- `hm_put` keeps the table well formed.
pub hm_put-IsTable : (hm : HashMap) (key value : Bytes) → IsTable hm → IsTable (hm_put hm key value)
unfolding hm_put
hm_put-IsTable hm key value t =
    set-IsTable hm (hash key) _ (hash-lt key) (put_in-Distinct key value _ (t.distinct (hash key)))
      t

-- `hm_delete` keeps the table well formed.
pub hm_delete-IsTable : (hm : HashMap) (key : Bytes) → IsTable hm → IsTable (hm_delete hm key)
unfolding hm_delete
hm_delete-IsTable hm key t =
    set-IsTable hm (hash key) _ (hash-lt key) (delete_in-Distinct key _ (t.distinct (hash key))) t

get_or-replicate : (n i : ℕ) → Distinct (get_or (replicate n []) i [])
get_or-replicate zero i = tt
get_or-replicate (suc n) zero = tt
get_or-replicate (suc n) (suc i) = get_or-replicate n i

pub hm_create-IsTable : IsTable hm_create
hm_create-IsTable = record { full = refl; distinct = get_or-replicate table_size }

-- `hm_get` after `hm_delete`: nothing at the key, and the old answer at every other.
pub hm_get-hm_delete :
    (hm : HashMap) (key j : Bytes)
    → IsTable hm
    → hm_get (hm_delete hm key) j ≡ (if str_eq key j then none else hm_get hm j)
unfolding hm_get hm_delete
hm_get-hm_delete hm key j t =
    let slot =
      get_or-set hm.buckets (hash key) (hash j) (delete_in key (bucket hm key))
        (rw t.full (hash-lt key)) in
    elim (Bool-cases (hash key == hash j)) [
      | inl hit ↦
          let same : bucket hm j ≡ bucket hm key =
            ap (λ n. get_or hm.buckets n []) (sym (==→eq _ _ hit)) in
          rw (slot, hit) (rw same (get_in-delete_in key j (bucket hm key) (t.distinct (hash key))))
      | inr miss ↦
          let other : str_eq key j ≡ false = differ key j miss in rw (slot, miss) (rw other refl)
    ]
