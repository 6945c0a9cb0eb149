-- ===== src/Wsh/Text/Replace.antt =====
-- What `replaceKey` of 02-unix-shell-wsh/utils.c does to a text.
use native.Mathlib.Nat.{zero-add}
use systems_programming_port.Prelude.{
  ℕ, suc, ◌+◌, ◌≡◌, refl, ap, ◌≢◌, ◌⊎◌, inl, inr, true, none, some, [], ◌∷◌, ◌++◌, arith, length,
  take, drop, Bool-cases, Option-cases, Bytes, ==_refl,
}
use systems_programming_port.Wsh.Text.{replace_at, is_prefix, find_key, replace_key}

is_prefix-split : (key s : Bytes) → is_prefix key s ≡ true → key ++ drop (length key) s ≡ s
unfolding is_prefix
is_prefix-split [] s h = refl
is_prefix-split (k ∷ ks) [] h = cc
is_prefix-split (k ∷ ks) (c ∷ s) h = ground (arith, is_prefix-split ks s)

-- An occurrence that is found splits the text.
find_key-split :
    (key s : Bytes) (i : ℕ)
    → find_key key s ≡ some i
    → take i s ++ (key ++ drop (i + length key) s) ≡ s
unfolding find_key
find_key-split [] [] i h = ground arith
find_key-split (k ∷ ks) [] i h = cc
find_key-split key (c ∷ s) i h = elim (Bool-cases (is_prefix key (c ∷ s))) [
  | inl here ↦
      let at : i ≡ 0 = ground arith in
      rw at (rw (zero-add (length key)) (is_prefix-split key (c ∷ s) here))
  | inr later ↦ elim (Option-cases (find_key key s)) [
    | inl nowhere ↦ cc (rw (later, nowhere, find_key) at h)
    | inr (j, found) ↦
        let at : i ≡ suc j = ground arith in
        let n : suc j + length key ≡ suc (j + length key) = omega arith in
        rw at (rw n (ap (λ l. c ∷ l) (find_key-split key s j found)))
  ]
]

is_prefix-append : (key b : Bytes) → is_prefix key (key ++ b) ≡ true
unfolding is_prefix
is_prefix-append [] b = refl
is_prefix-append (k ∷ ks) b = rw (==_refl k, is_prefix-append ks b) refl

find_key-here : (key s : Bytes) → is_prefix key s ≡ true → find_key key s ≢ none
unfolding find_key
find_key-here key [] p h = ground arith
find_key-here key (c ∷ s) p h = ground arith

find_key-append : (a key b : Bytes) → find_key key (a ++ (key ++ b)) ≢ none
unfolding find_key
find_key-append [] key b h = find_key-here key (key ++ b) (is_prefix-append key b) h
find_key-append (c ∷ a) key b h = elim (Option-cases (find_key key (a ++ (key ++ b)))) [
  | inl nowhere ↦ find_key-append a key b nowhere
  | inr (j, found) ↦ ground arith
]

-- `replaceKey` puts the value in the place of one occurrence of the key, and leaves a text without
-- an occurrence as it is.
pub replace_key_lem :
    (command key value : Bytes)
    → ((a : Bytes) × (b : Bytes) × (a ++ (key ++ b) ≡ command)
        × (replace_key command key value ≡ a ++ (value ++ b)))
      ⊎ (((a b : Bytes) → a ++ (key ++ b) ≢ command) × (replace_key command key value ≡ command))
unfolding replace_key replace_at
replace_key_lem command key value = elim (Option-cases (find_key key command)) [
  | inl nowhere ↦
      inr (λ a b same. find_key-append a key b (rw same nowhere), rw (nowhere, replace_key) refl)
  | inr (i, found) ↦ inl (
    take i command,
    drop (i + length key) command,
    find_key-split key command i found,
    rw (found, replace_key) refl,
  )
]
