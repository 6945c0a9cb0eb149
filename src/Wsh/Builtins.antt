-- ===== src/Wsh/Builtins.antt =====
-- 02-unix-shell-wsh/wsh.c: the shell's state and its builtin commands.
-- The operating system is the parameter `Os`: what `access`, `chdir` and a child process answer.
-- Allocation, `setenv`, `fork` and `pipe` are taken to succeed.
use mathlib.Core.List.{reverse}
use systems_programming_port.Prelude.{
  ℕ, ◌+◌, ◌-◌, ◌*◌, Bool, true, false, not, ◌&&◌, ◌||◌, Option, none, some, List, [], ◌∷◌, ◌++◌,
  take, ltb, leb, ◌==◌, if◌then◌else◌, Bytes, codes, str_eq,
}
use systems_programming_port.Wsh.HashMap.{HashMap, hm_put, hm_get, hm_delete, hm_print_sorted}
use systems_programming_port.Wsh.DynamicArray.{DynamicArray, da_get}

-- `access (path, X_OK) == 0`, `chdir (path) == 0`, the exit status of a program run with its
-- arguments (0 for success), `qsort` of the alias names.
pub record Os : Type 0 where
  pub access : Bytes → Bool
  pub chdir : Bytes → Bool
  pub exec : Bytes → List Bytes → ℕ
  pub qsort : List Bytes → List Bytes

-- What is written to the two output streams.
pub data Output : Type 0 where
  stdout : Bytes → Output
  stderr : Bytes → Output

-- `rc`, the two tables, the environment, and the output so far.
pub record Shell : Type 0 where
  pub rc : ℕ
  pub alias_hm : HashMap
  pub history_da : Option DynamicArray
  pub path : Option Bytes
  pub home : Option Bytes
  pub out : List Output

abbrev pub exit_success : ℕ
exit_success = 0

abbrev pub exit_failure : ℕ
exit_failure = 1

abbrev pub print : Output → Shell → Shell
print o sh = record sh { out = sh.out ++ (o ∷ []) }

unfoldable pub wsh_warn : Bytes → Shell → Shell
wsh_warn msg sh = record (print (stderr msg) sh) { rc = exit_failure }

-- A builtin returns the code that `try_run_builtin` stores in `rc`.
abbrev pub Builtin : Type 0
Builtin = List Bytes → Shell → ℕ × Shell

abbrev warn : Bytes → Shell → ℕ × Shell
warn msg sh = (exit_failure, wsh_warn msg sh)

abbrev cmd_not_found : Bytes → Bytes
cmd_not_found cmd = codes "Command not found or not an executable: " ++ (cmd ++ codes "\n")

-- `name` is one of the seven builtins.
unfoldable pub is_builtin : Bytes → Bool
is_builtin name =
    str_eq name (codes "exit")
    || str_eq name (codes "alias")
    || str_eq name (codes "unalias")
    || str_eq name (codes "which")
    || str_eq name (codes "path")
    || str_eq name (codes "cd")
    || str_eq name (codes "history")

-- `strtok_r` on colons: the pieces that are not empty, with the piece so far reversed.
unfoldable pub path_dirs : Bytes → Bytes → List Bytes
path_dirs piece [] = elim piece [ [] ↦ [] | c ∷ cs ↦ reverse (c ∷ cs) ∷ [] ]
path_dirs piece (c ∷ s) =
    let more = path_dirs (c ∷ piece) s in
    let next = path_dirs [] s in
    if c == b':' then elim piece [ [] ↦ next | d ∷ ds ↦ reverse (d ∷ ds) ∷ next ] else more

-- The first directory that holds an executable of that name.
unfoldable pub search_dirs : (Bytes → Bool) → Bytes → List Bytes → Option Bytes
search_dirs access cmd [] = none
search_dirs access cmd (dir ∷ dirs) =
    let full = dir ++ (b'/' ∷ cmd) in
    let rest = search_dirs access cmd dirs in if access full then some full else rest

-- A name that begins with a slash or a dot is looked up as it stands.
abbrev pub is_direct : Bytes → Bool
is_direct [] = false
is_direct (c ∷ cs) = (c == b'/') || (c == b'.')

abbrev pub is_empty : Bytes → Bool
is_empty [] = true
is_empty (c ∷ cs) = false

abbrev env_value : Option Bytes → Bytes
env_value none = []
env_value (some v) = v

unfoldable pub bi_path : Builtin
unfolding wsh_warn
bi_path (name ∷ []) sh = (exit_success, print (stdout (env_value sh.path ++ codes "\n")) sh)
bi_path (name ∷ dirs ∷ []) sh = (exit_success, record sh { path = some dirs })
bi_path _ sh = warn (codes "Incorrect usage of path. Correct format: path dir1:dir2:...:dirN\n") sh

abbrev bad_alias : Bytes
bad_alias = codes "Incorrect usage of alias. Correct format: alias | alias name = 'command'\n"

unfoldable pub bi_unalias : Builtin
unfolding wsh_warn hm_delete
bi_unalias (name ∷ key ∷ []) sh = (exit_success, record sh { alias_hm = hm_delete sh.alias_hm key })
bi_unalias _ sh = warn (codes "Incorrect usage of unalias. Correct format: unalias name\n") sh

-- `strtol` with base 10 up to the end of the text: the value, or `none` where it stops before.
unfoldable pub decimal_from : ℕ → Bytes → Option ℕ
decimal_from n [] = some n
decimal_from n (c ∷ s) =
    let rest = decimal_from (n * 10 + (c - 48)) s in if leb 48 c && leb c 57 then rest else none

unfoldable pub digits_from : Bytes → Option ℕ
unfolding decimal_from
digits_from [] = none
digits_from (c ∷ s) = decimal_from 0 (c ∷ s)

abbrev is_white : ℕ → Bool
is_white c = (c == 32) || (leb 9 c && leb c 13)

-- Leading white space and one sign are skipped; a minus sign makes every number below 1.
unfoldable pub strtol_positive : Bytes → Option ℕ
unfolding digits_from
strtol_positive [] = none
strtol_positive (c ∷ s) =
    let after = strtol_positive s in
    if is_white c
    then after
    else if c == b'+'
    then digits_from s
    else if c == b'-'
    then elim (digits_from s) [ none ↦ none | some n ↦ some 0 ]
    else digits_from (c ∷ s)

abbrev history_lines : List (Option Bytes) → List Output
history_lines [] = []
history_lines (none ∷ l) = history_lines l
history_lines (some s ∷ l) = stdout (s ++ codes "\n") ∷ history_lines l

abbrev history_entry : Option Bytes → Shell → ℕ × Shell
history_entry none sh = (exit_failure, sh)
history_entry (some s) sh = (exit_success, print (stdout (s ++ codes "\n")) sh)

abbrev history_invalid : Shell → ℕ × Shell
history_invalid sh =
    (exit_failure, print (stderr (codes "Invalid argument passed to history\n")) sh)

unfoldable pub history_nth : DynamicArray → Option ℕ → Shell → ℕ × Shell
unfolding da_get
history_nth da none sh = history_invalid sh
history_nth da (some v) sh =
    if ltb v 1 || ltb da.size v then history_invalid sh else history_entry (da_get da (v - 1)) sh

unfoldable pub history_of : DynamicArray → Builtin
unfolding wsh_warn history_nth strtol_positive
history_of da (name ∷ []) sh =
    (exit_success, record sh { out = sh.out ++ history_lines (take da.size da.slots) })
history_of da (name ∷ arg ∷ []) sh = history_nth da (strtol_positive arg) sh
history_of da _ sh =
    warn (codes "Incorrect usage of history. Correct format: history | history n\n") sh

unfoldable pub bi_history : Builtin
unfolding history_of
bi_history argv sh = elim sh.history_da [
  | none ↦ (exit_success, sh)
  | some da ↦ history_of da argv sh
]

module _ (os : Os) where
  open os use {access, chdir, exec, qsort}

  unfoldable pub bi_alias : Builtin
  unfolding wsh_warn hm_put hm_print_sorted
  bi_alias (name ∷ []) sh = (exit_success, print (stdout (hm_print_sorted qsort sh.alias_hm)) sh)
  bi_alias (name ∷ key ∷ eq ∷ []) sh =
      if str_eq eq (codes "=")
      then (exit_success, record sh { alias_hm = hm_put sh.alias_hm key [] })
      else warn bad_alias sh
  bi_alias (name ∷ key ∷ eq ∷ value ∷ []) sh =
      if str_eq eq (codes "=")
      then (exit_success, record sh { alias_hm = hm_put sh.alias_hm key value })
      else warn bad_alias sh
  bi_alias _ sh = warn bad_alias sh

  abbrev go_to : Bytes → Shell → ℕ × Shell
  go_to dir sh =
      if chdir dir then (exit_success, sh) else (exit_failure, print (stderr (codes "cd")) sh)

  unfoldable pub bi_cd : Builtin
  unfolding wsh_warn
  bi_cd (name ∷ []) sh = elim sh.home [
    | none ↦ (exit_failure, print (stderr (codes "cd: HOME not set\n")) sh)
    | some h ↦
        if is_empty h
        then (exit_failure, print (stderr (codes "cd: HOME not set\n")) sh)
        else go_to h sh
  ]
  bi_cd (name ∷ dir ∷ []) sh = go_to dir sh
  bi_cd _ sh = warn (codes "Incorrect usage of cd. Correct format: cd | cd directory\n") sh

  -- Where an executable is found: the name itself, or the first directory of `PATH`.
  unfoldable pub locate : Bytes → Option Bytes → Option Bytes
  unfolding search_dirs path_dirs
  locate cmd path =
      if is_direct cmd
      then (if access cmd then some cmd else none)
      else search_dirs access cmd (path_dirs [] (env_value path))

  abbrev which_answer : Bytes → Option Bytes → Shell → ℕ × Shell
  which_answer name none sh = (exit_failure, print (stdout (name ++ codes ": not found\n")) sh)
  which_answer name (some full) sh =
      (exit_success, print (stdout (name ++ (codes ": found at " ++ (full ++ codes "\n")))) sh)

  unfoldable pub which_unaliased : Bytes → Shell → ℕ × Shell
  unfolding is_builtin locate
  which_unaliased name sh =
      if is_builtin name
      then (exit_success, print (stdout (name ++ codes ": wsh builtin\n")) sh)
      else which_answer name (locate name sh.path) sh

  unfoldable pub bi_which : Builtin
  unfolding wsh_warn which_unaliased hm_get
  bi_which (cmd ∷ name ∷ []) sh = elim (hm_get sh.alias_hm name) [
    | some av ↦
        (exit_success, print (stdout (name ++ (codes ": aliased to '" ++ (av ++ codes "'\n")))) sh)
    | none ↦ which_unaliased name sh
  ]
  bi_which _ sh = warn (codes "Incorrect usage of which. Correct format: which name\n") sh

  -- The path to run, or `none` with a warning and `rc` set.
  unfoldable pub resolve_exec_path : Bytes → Shell → Option Bytes × Shell
  unfolding locate wsh_warn
  resolve_exec_path cmd sh =
      if not (is_direct cmd) && is_empty (env_value sh.path)
      then (none, wsh_warn (codes "PATH empty or not set\n") sh)
      else elim (locate cmd sh.path) [
        | none ↦ (none, wsh_warn (cmd_not_found cmd) sh)
        | some full ↦ (some full, sh)
      ]
