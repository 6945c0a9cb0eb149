-- ===== src/Wsh/Tests.antt =====
-- Concrete runs of the shell's components.
use systems_programming_port.Wsh.Text.{replace_key}
use systems_programming_port.Wsh.Text.Replace.{replace_key_lem}
use systems_programming_port.Prelude.{◌≢◌}
use systems_programming_port.Prelude.{
  ◌≤◌, ◌<◌, ◌≡◌, refl, ◌⊎◌, true, false, none, some, [], ◌∷◌, ◌++◌, arith, Bytes, codes, str_eq,
}
use systems_programming_port.Wsh.HashMap.{HashMap, hm_create, hm_put, hm_get, hm_delete}
use systems_programming_port.Wsh.HashMap.Laws.{
  IsTable, hm_get-hm_put, hm_get-hm_delete, hm_put-IsTable, hm_create-IsTable,
}
use systems_programming_port.Wsh.DynamicArray.{DynamicArray, da_put, da_get, da_delete}
use systems_programming_port.Wsh.DynamicArray.Refines.{IsArray-contents}
use systems_programming_port.Prelude.{if◌then◌else◌, ◌&&◌, ℕ, ltb, get_elem?, Option, Bool}
use systems_programming_port.Wsh.DynamicArray.Laws.{IsArray, contents, remove_at}
use systems_programming_port.Wsh.Parse.{parseline_no_subst, split_pipeline}
use systems_programming_port.Wsh.Parse.Laws.{
  parseline-quoted, split_pipeline-join, quoted, join_bars,
}
use systems_programming_port.Wsh.Builtins.{Os, Shell}
use systems_programming_port.Wsh.Line.{initial_shell, run_line, crashed}

abbrev ll : Bytes
ll = codes "ll"

abbrev long : Bytes
long = codes "ls -l"

abbrev aliases : HashMap
aliases = hm_put hm_create (codes "la") (codes "ls -a")

aliases-IsTable : IsTable aliases
aliases-IsTable = hm_put-IsTable hm_create (codes "la") (codes "ls -a") hm_create-IsTable

hm_get-hm_put_example : hm_get (hm_put aliases ll long) ll ≡ some long
unfolding str_eq
hm_get-hm_put_example = hm_get-hm_put aliases ll ll long aliases-IsTable

hm_get-hm_delete_example : hm_get (hm_delete aliases ll) (codes "la") ≡ hm_get aliases (codes "la")
unfolding hm_get str_eq
hm_get-hm_delete_example = hm_get-hm_delete aliases ll (codes "la") aliases-IsTable

abbrev lines : DynamicArray
lines = record {
  slots = some (codes "ls") ∷ some (codes "cd") ∷ some (codes "pwd") ∷ none ∷ [];
  size = 3;
  capacity = 4;
}

lines-IsArray : IsArray lines
lines-IsArray = record { counted = refl; fits = omega arith }

IsArray-contents_example :
    ((ok ok' : Bool) (val : Option Bytes)
      → IsArray (da_put ok ok' lines val)
        × ((contents (da_put ok ok' lines val) ≡ contents lines ++ (val ∷ []))
            ⊎ (((ok && ok') ≡ false) × (contents (da_put ok ok' lines val) ≡ contents lines))))
    × ((ind : ℕ)
        → da_get lines ind ≡ (elim (get_elem? (contents lines) ind) [ none ↦ none | some x ↦ x ]))
    × ((ind : ℕ)
        → IsArray (da_delete lines ind)
          × (contents (da_delete lines ind)
              ≡ (if ltb ind 3 then remove_at ind (contents lines) else contents lines)))
IsArray-contents_example = IsArray-contents lines lines-IsArray

parseline-quoted_example :
    parseline_no_subst (quoted (codes "a b" ∷ [] ∷ [])) ≡ some (codes "a b" ∷ [] ∷ [])
parseline-quoted_example =
    parseline-quoted (codes "a b" ∷ [] ∷ []) ((refl, (refl, (refl, tt))), (tt, tt))

split_pipeline-join_example :
    (join_bars (codes "ls " ∷ codes " wc" ∷ []) ≡ codes "ls | wc") × (0 < 2) × (2 ≤ 4)
unfolding split_pipeline
split_pipeline-join_example =
    split_pipeline-join (codes "ls | wc") 4 (codes "ls " ∷ codes " wc" ∷ []) refl

-- A system on which every command is there and succeeds.
abbrev machine : Os
machine = record {
  access = λ path. true;
  chdir = λ path. true;
  exec = λ path args. 0;
  qsort = λ names. names;
}

abbrev shell : Shell
shell = record (initial_shell none) { alias_hm = hm_put hm_create (codes "x") [] }

-- A line that is just the name of an alias with no words.
crash : run_line machine (codes "x\n") shell ≡ crashed
unfolding split_pipeline parseline_no_subst hm_get hm_put str_eq run_line
crash = refl

replace_key_lem_example :
    ((a : Bytes) × (b : Bytes) × (a ++ (ll ++ b) ≡ codes "a ll b")
      × (replace_key (codes "a ll b") ll long ≡ a ++ (long ++ b)))
    ⊎ (((a b : Bytes) → a ++ (ll ++ b) ≢ codes "a ll b")
        × (replace_key (codes "a ll b") ll long ≡ codes "a ll b"))
replace_key_lem_example = replace_key_lem (codes "a ll b") ll long
