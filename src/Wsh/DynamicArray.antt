-- ===== src/Wsh/DynamicArray.antt =====
-- 02-unix-shell-wsh/dynamic_array.c: the array of strings behind the history.
-- Whether `realloc` and `malloc` succeed is an argument; slots from `size` on hold nothing yet.
pub mod Laws
pub mod Refines
use systems_programming_port.Prelude.{
  ℕ, zero, suc, ◌+◌, ◌-◌, ◌*◌, ◌/◌, ◌%◌, ◌^◌, ◌≤◌, ◌<◌, ◌≡◌, refl, sym, ap, ◌∙◌, ◌≢◌, ◌↔◌, ◌⊎◌, inl,
  inr, Bool, true, false, not, ◌&&◌, ◌||◌, Option, none, some, List, [], ◌∷◌, ◌++◌, map, arith,
  length, get_elem?, set, get_or, take, drop, replicate, modify, ltb, leb, ◌==◌, if◌then◌else◌,
  Bool-cases, Option-cases, Bytes, codes, str_eq, ==_refl, ne→==, ==→eq, ==→ne, tests,
}

-- `data` has `capacity` slots, and a slot may hold a null pointer.
pub record DynamicArray : Type 0 where
  pub slots : List (Option Bytes)
  pub size : ℕ
  pub capacity : ℕ

unfoldable pub da_create : ℕ → DynamicArray
da_create init_capacity =
    let capacity = if init_capacity == 0 then 8 else init_capacity in
    record { slots = replicate capacity none; size = 0; capacity = capacity }

abbrev pub grown : ℕ → ℕ
grown capacity = if capacity == 0 then 8 else capacity * 2

unfoldable pub da_ensure_capacity : Bool → DynamicArray → Option DynamicArray
da_ensure_capacity realloc_ok da =
    if ltb da.size da.capacity
    then some da
    else if realloc_ok
    then some (record da {
      slots = da.slots ++ replicate (grown da.capacity - da.capacity) none;
      capacity = grown da.capacity;
    })
    else none

abbrev pub store : Option Bytes → DynamicArray → DynamicArray
store val da = record da { slots = set da.slots da.size val; size = da.size + 1 }

-- The copy of the string needs memory too; a null pointer is stored as it is.
abbrev pub put_value : Bool → DynamicArray → Option Bytes → DynamicArray
put_value malloc_ok da none = store none da
put_value true da (some s) = store (some s) da
put_value false da (some s) = da

unfoldable pub da_put : Bool → Bool → DynamicArray → Option Bytes → DynamicArray
unfolding da_ensure_capacity
da_put realloc_ok malloc_ok da val = elim (da_ensure_capacity realloc_ok da) [
  | none ↦ da
  | some da' ↦ put_value malloc_ok da' val
]

unfoldable pub da_get : DynamicArray → ℕ → Option Bytes
da_get da ind = if ltb ind da.size then get_or da.slots ind none else none

-- The loop of `da_delete` with `n` rounds left, from `i` on.
unfoldable pub shift_left : ℕ → ℕ → List (Option Bytes) → List (Option Bytes)
shift_left zero i slots = slots
shift_left (suc n) i slots = shift_left n (i + 1) (set slots (i - 1) (get_or slots i none))

unfoldable pub da_delete : DynamicArray → ℕ → DynamicArray
unfolding shift_left
da_delete da ind =
    if ltb ind da.size
    then record da {
      slots = shift_left (da.size - (ind + 1)) (ind + 1) da.slots;
      size = da.size - 1;
    }
    else da

abbrev line_of : Option Bytes → Bytes
line_of none = codes "\n"
line_of (some s) = s ++ codes "\n"

unfoldable pub print_slots : ℕ → List (Option Bytes) → Bytes
print_slots zero slots = []
print_slots (suc n) [] = []
print_slots (suc n) (s ∷ slots) = line_of s ++ print_slots n slots

unfoldable pub da_print : DynamicArray → Bytes
unfolding print_slots
da_print da = print_slots da.size da.slots
