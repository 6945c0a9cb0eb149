-- ===== src/Wsh/Text.antt =====
-- 02-unix-shell-wsh/utils.c: replacing and appending text. Allocation is taken to succeed in the
-- first two functions, which exit the program where it fails; `append` has its result as an argument.
pub mod Replace
use systems_programming_port.Prelude.{
  ℕ, suc, ◌+◌, ◌≡◌, refl, ap, inl, inr, Bool, true, false, ◌&&◌, Option, none, some, [], ◌∷◌, ◌++◌,
  arith, length, take, drop, ◌==◌, if◌then◌else◌, Bool-cases, Option-cases, Bytes,
}

-- `n` bytes from place `i` replaced by `value`.
unfoldable pub replace_at : Bytes → ℕ → ℕ → Bytes → Bytes
replace_at command i n value = take i command ++ (value ++ drop (i + n) command)

unfoldable pub is_prefix : Bytes → Bytes → Bool
is_prefix [] s = true
is_prefix (k ∷ ks) [] = false
is_prefix (k ∷ ks) (c ∷ s) = (k == c) && is_prefix ks s

-- `strstr`: the place of the first occurrence.
unfoldable pub find_key : Bytes → Bytes → Option ℕ
unfolding is_prefix
find_key key [] = if is_prefix key [] then some 0 else none
find_key key (c ∷ s) =
    let rest = find_key key s in
    if is_prefix key (c ∷ s) then some 0 else elim rest [ none ↦ none | some i ↦ some (suc i) ]

unfoldable pub replace_key : Bytes → Bytes → Bytes → Bytes
unfolding find_key replace_at
replace_key command key value = elim (find_key key command) [
  | none ↦ command
  | some i ↦ replace_at command i (length key) value
]

-- `dest` and `src` may be null; a failed `realloc` gives null.
unfoldable pub append : Bool → Option Bytes → Option Bytes → Option Bytes
append realloc_ok dest none = dest
append false dest (some src) = none
append true none (some src) = some src
append true (some dest) (some src) = some (dest ++ src)
