-- ===== src/Wsh/Parse.antt =====
-- 02-unix-shell-wsh/wsh.c: `parseline_no_subst` and `split_pipeline`. Allocation is taken to succeed.
pub mod Laws
use mathlib.Core.List.{reverse}
use systems_programming_port.Prelude.{
  ℕ, zero, suc, ◌+◌, ◌-◌, ◌*◌, ◌/◌, ◌%◌, ◌^◌, ◌≤◌, ◌<◌, ◌≡◌, refl, sym, ap, ◌∙◌, ◌≢◌, ◌↔◌, ◌⊎◌, inl,
  inr, Bool, true, false, not, ◌&&◌, ◌||◌, Option, none, some, List, [], ◌∷◌, ◌++◌, map, arith,
  length, get_elem?, set, get_or, take, drop, replicate, modify, ltb, leb, ◌==◌, if◌then◌else◌,
  Bool-cases, Option-cases, Bytes, codes, str_eq, ==_refl, ne→==, ==→eq, ==→ne, tests,
}

abbrev pub quote : ℕ
quote = 39

abbrev pub space : ℕ
space = 32

abbrev pub newline : ℕ
newline = 10

abbrev pub bar : ℕ
bar = 124

abbrev pub max_segs : ℕ
max_segs = 128

-- The buffer: a trailing newline becomes a space, and any other line gets one.
unfoldable pub with_space : Bytes → Bytes
with_space [] = space ∷ []
with_space (c ∷ []) = if c == newline then space ∷ [] else c ∷ space ∷ []
with_space (c ∷ d ∷ s) = c ∷ with_space (d ∷ s)

unfoldable pub skip_spaces : Bytes → Bytes
skip_spaces [] = []
skip_spaces (c ∷ s) = let rest = skip_spaces s in if c == space then rest else c ∷ s

-- `strchr` and the cut there: what stands before the byte, and what after it.
unfoldable pub cut_at : ℕ → Bytes → Option (Bytes × Bytes)
cut_at b [] = none
cut_at b (c ∷ s) =
    let rest = cut_at b s in
    if c == b
    then some ([], s)
    else elim rest [ none ↦ none | some (token, after) ↦ some (c ∷ token, after) ]

-- One token from a text that does not begin with a space: a quoted one, or one up to a space.
pub data Token : Type 0 where
  token : Bytes → Bytes → Token
  unclosed : Token
  no_more : Token

abbrev token_or : Token → Option (Bytes × Bytes) → Token
token_or t none = t
token_or t (some (word, after)) = token word after

unfoldable pub next_token : Bytes → Token
unfolding cut_at
next_token [] = no_more
next_token (c ∷ s) =
    if c == quote
    then token_or unclosed (cut_at quote s)
    else token_or no_more (cut_at space (c ∷ s))

-- The arguments, or `none` for a quote that is not closed (the warning, and no arguments).
-- `fuel` bounds the number of tokens.
unfoldable pub tokens : ℕ → Bytes → Option (List Bytes)
unfolding next_token skip_spaces
tokens zero s = some []
tokens (suc fuel) s = elim (next_token s) [
  | no_more ↦ some []
  | unclosed ↦ none
  | token word after ↦ elim (tokens fuel (skip_spaces after)) [
    | none ↦ none
    | some words ↦ some (word ∷ words)
  ]
]

unfoldable pub parseline_no_subst : Bytes → Option (List Bytes)
unfolding with_space skip_spaces tokens
parseline_no_subst cmdline =
    let buf = skip_spaces (with_space cmdline) in tokens (suc (length buf)) buf

-- The loop of `split_pipeline`: the segment so far, reversed, and whether a quote is open.
unfoldable pub split_from : Bool → Bytes → Bytes → List Bytes
split_from in_single seg [] = reverse seg ∷ []
split_from in_single seg (c ∷ s) =
    let flipped = split_from (not in_single) (c ∷ seg) s in
    let next = split_from in_single [] s in
    let more = split_from in_single (c ∷ seg) s in
    if c == quote then flipped else if (c == bar) && not in_single then reverse seg ∷ next else more

-- The segments, or `none` for the result -1 where there are more than `max_segs`.
unfoldable pub split_pipeline : Bytes → ℕ → Option (List Bytes)
unfolding split_from
split_pipeline line max =
    let segs = split_from false [] line in if leb (length segs) max then some segs else none
