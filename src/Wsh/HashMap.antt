-- ===== src/Wsh/HashMap.antt =====
-- 02-unix-shell-wsh/hash_map.c: the chained table of aliases. Allocation is taken to succeed.
pub mod Laws
use systems_programming_port.Prelude.{
  ℕ, zero, suc, ◌+◌, ◌-◌, ◌*◌, ◌/◌, ◌%◌, ◌^◌, ◌≤◌, ◌<◌, ◌≡◌, refl, sym, ap, ◌∙◌, ◌≢◌, ◌↔◌, ◌⊎◌, inl,
  inr, Bool, true, false, not, ◌&&◌, ◌||◌, Option, none, some, List, [], ◌∷◌, ◌++◌, map, arith,
  length, get_elem?, set, get_or, take, drop, replicate, modify, ltb, leb, ◌==◌, if◌then◌else◌,
  Bool-cases, Option-cases, Bytes, codes, str_eq, ==_refl, ne→==, ==→eq, ==→ne, tests,
}

abbrev pub table_size : ℕ
table_size = 101

pub record Entry : Type 0 where
  pub key : Bytes
  pub value : Bytes

-- The `buckets` array; each chain is the list of its entries from the head on.
pub record HashMap : Type 0 where
  pub buckets : List (List Entry)

-- `h * 33 + c` in an `unsigned long`; `char` is signed.
unfoldable pub hash_step : ℕ → ℕ → ℕ
hash_step h c = (h * 33 + (if ltb c 128 then c else c + 2 ^ 64 - 256)) % 2 ^ 64

unfoldable pub hash_from : ℕ → Bytes → ℕ
unfolding hash_step
hash_from h [] = h
hash_from h (c ∷ cs) = hash_from (hash_step h c) cs

unfoldable pub hash : Bytes → ℕ
unfolding hash_from
hash key = hash_from 5381 key % table_size

abbrev pub hm_create : HashMap
hm_create = record { buckets = replicate table_size [] }

abbrev pub bucket : HashMap → Bytes → List Entry
bucket hm key = get_or hm.buckets (hash key) []

-- The chain with the value of the first entry of that key replaced, or `none` without such an entry.
unfoldable pub update_in : Bytes → Bytes → List Entry → Option (List Entry)
update_in key value [] = none
update_in key value (e ∷ es) =
    let rest = update_in key value es in
    if str_eq e.key key
    then some (record e { value = value } ∷ es)
    else elim rest [ none ↦ none | some es' ↦ some (e ∷ es') ]

unfoldable pub put_in : Bytes → Bytes → List Entry → List Entry
unfolding update_in
put_in key value es = elim (update_in key value es) [
  | none ↦ record { key = key; value = value } ∷ es
  | some es' ↦ es'
]

unfoldable pub hm_put : HashMap → Bytes → Bytes → HashMap
unfolding put_in hash
hm_put hm key value = record {
  buckets = set hm.buckets (hash key) (put_in key value (bucket hm key));
}

unfoldable pub get_in : Bytes → List Entry → Option Bytes
get_in key [] = none
get_in key (e ∷ es) = if str_eq e.key key then some e.value else get_in key es

unfoldable pub hm_get : HashMap → Bytes → Option Bytes
unfolding get_in hash
hm_get hm key = get_in key (bucket hm key)

unfoldable pub delete_in : Bytes → List Entry → List Entry
delete_in key [] = []
delete_in key (e ∷ es) = if str_eq e.key key then es else e ∷ delete_in key es

unfoldable pub hm_delete : HashMap → Bytes → HashMap
unfolding delete_in hash
hm_delete hm key = record { buckets = set hm.buckets (hash key) (delete_in key (bucket hm key)) }

abbrev pub entry_line : Bytes → Bytes → Bytes
entry_line key value = key ++ (codes " = '" ++ (value ++ codes "'\n"))

unfoldable pub chain_lines : List Entry → Bytes
chain_lines [] = []
chain_lines (e ∷ es) = entry_line e.key e.value ++ chain_lines es

unfoldable pub table_lines : List (List Entry) → Bytes
unfolding chain_lines
table_lines [] = []
table_lines (es ∷ bs) = chain_lines es ++ table_lines bs

unfoldable pub hm_print : HashMap → Bytes
unfolding table_lines
hm_print hm = table_lines hm.buckets

-- The keys in the order in which `hm_print_sorted` collects them.
unfoldable pub all_keys : List (List Entry) → List Bytes
all_keys [] = []
all_keys (es ∷ bs) = map (λ (e : Entry). e.key) es ++ all_keys bs

-- `%s` of a null pointer, as glibc prints it.
abbrev value_or_null : Option Bytes → Bytes
value_or_null none = codes "(null)"
value_or_null (some v) = v

unfoldable pub key_lines : HashMap → List Bytes → Bytes
unfolding hm_get
key_lines hm [] = []
key_lines hm (k ∷ ks) = entry_line k (value_or_null (hm_get hm k)) ++ key_lines hm ks

-- `sort` is `qsort` with `cmp_keys`.
unfoldable pub hm_print_sorted : (List Bytes → List Bytes) → HashMap → Bytes
unfolding key_lines all_keys
hm_print_sorted sort hm = key_lines hm (sort (all_keys hm.buckets))
