-- ===== src/Wsh/DynamicArray/Refines.antt =====
-- 02-unix-shell-wsh/dynamic_array.c as a list.
use systems_programming_port.Prelude.{
  ℕ, ◌≡◌, ◌⊎◌, Bool, false, ◌&&◌, Option, none, some, [], ◌∷◌, ◌++◌, get_elem?, ltb, if◌then◌else◌,
  Bytes,
}
use systems_programming_port.Wsh.DynamicArray.{DynamicArray, da_put, da_get, da_delete}
use systems_programming_port.Wsh.DynamicArray.Laws.{
  IsArray, contents, remove_at, da_put-contents, da_get-contents, da_delete-contents,
}

-- A well-formed array is a list. `da_put` appends the value where memory is granted and otherwise leaves the list;
-- `da_get` reads the element at the index, and nothing past the end; `da_delete` takes the element out and closes the
-- gap, and does nothing past the end. Both changes leave a well-formed array.
pub IsArray-contents :
    (da : DynamicArray)
    → IsArray da
    → ((ok ok' : Bool) (val : Option Bytes)
        → IsArray (da_put ok ok' da val)
          × ((contents (da_put ok ok' da val) ≡ contents da ++ (val ∷ []))
              ⊎ (((ok && ok') ≡ false) × (contents (da_put ok ok' da val) ≡ contents da))))
      × ((ind : ℕ)
          → da_get da ind ≡ (elim (get_elem? (contents da) ind) [ none ↦ none | some x ↦ x ]))
      × ((ind : ℕ)
          → IsArray (da_delete da ind)
            × (contents (da_delete da ind)
                ≡ (if ltb ind da.size then remove_at ind (contents da) else contents da)))
IsArray-contents da v = (
  λ ok ok' val. da_put-contents ok ok' da val v,
  λ ind. da_get-contents da ind v,
  λ ind. da_delete-contents da ind v,
)
