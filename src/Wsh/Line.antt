-- ===== src/Wsh/Line.antt =====
-- 02-unix-shell-wsh/wsh.c: from a line of input to the commands that it runs.
pub mod Laws
use systems_programming_port.Prelude.{
  ℕ, zero, suc, ◌+◌, ◌-◌, ◌*◌, ◌/◌, ◌%◌, ◌^◌, ◌≤◌, ◌<◌, ◌≡◌, refl, sym, ap, ◌∙◌, ◌≢◌, ◌↔◌, ◌⊎◌, inl,
  inr, Bool, true, false, not, ◌&&◌, ◌||◌, Option, none, some, List, [], ◌∷◌, ◌++◌, map, arith,
  length, get_elem?, set, get_or, take, drop, replicate, modify, ltb, leb, ◌==◌, if◌then◌else◌,
  Bool-cases, Option-cases, Bytes, codes, str_eq, ==_refl, ne→==, ==→eq, ==→ne, tests,
}
use systems_programming_port.Wsh.HashMap.{hm_create, hm_get}
use systems_programming_port.Wsh.DynamicArray.{DynamicArray, da_create, da_put}
use systems_programming_port.Wsh.Parse.{newline, max_segs, parseline_no_subst, split_pipeline}
use systems_programming_port.Wsh.Builtins.{
  Os, Output, stdout, stderr, Shell, Builtin, exit_success, exit_failure, wsh_warn, is_builtin,
  bi_path, bi_alias, bi_unalias, bi_cd, bi_which, bi_history, resolve_exec_path, print,
}

-- The shell goes on, or `exit` has ended it with a status, or it has passed a null pointer on.
pub data Running : Type 0 where
  running : Shell → Running
  exited : ℕ → Running
  crashed : Running

unfoldable pub trim_newline : Bytes → Bytes
trim_newline [] = []
trim_newline (c ∷ []) = if c == newline then [] else c ∷ []
trim_newline (c ∷ d ∷ s) = c ∷ trim_newline (d ∷ s)

abbrev history_array : Option DynamicArray → DynamicArray
history_array none = da_create 8
history_array (some da) = da

unfoldable pub add_history_after_exec : Bytes → Shell → Shell
unfolding trim_newline da_put da_create
add_history_after_exec line sh = record sh {
  history_da = some (da_put true true (history_array sh.history_da) (some (trim_newline line)));
}

abbrev with_rc : ℕ × Shell → Running
with_rc (code, sh) = running (record sh { rc = code })

-- A parse that fails has warned, and yields no arguments.
unfoldable pub parse_words : Bytes → Shell → List Bytes × Shell
unfolding parseline_no_subst wsh_warn
parse_words text sh = elim (parseline_no_subst text) [
  | none ↦ ([], wsh_warn (codes "Missing Closing Quote\n") sh)
  | some words ↦ (words, sh)
]

-- The alias of the first word, if it has one, in place of that word.
unfoldable pub expand_alias_first_token : List Bytes → Shell → List Bytes × Shell
unfolding parse_words hm_get
expand_alias_first_token [] sh = ([], sh)
expand_alias_first_token (cmd ∷ args) sh = elim (hm_get sh.alias_hm cmd) [
  | none ↦ (cmd ∷ args, sh)
  | some alias_cmd ↦ let (words, sh') = parse_words alias_cmd sh in (words ++ args, sh')
]

module _ (os : Os) where
  open os use {exec}

  unfoldable pub try_run_builtin : List Bytes → Shell → Running
  unfolding wsh_warn bi_alias bi_unalias bi_which bi_path bi_cd bi_history
  try_run_builtin [] sh = running sh
  try_run_builtin (name ∷ args) sh =
      if str_eq name (codes "exit")
      then elim args [
        | [] ↦ exited sh.rc
        | a ∷ as' ↦ running (wsh_warn (codes "Incorrect usage of exit. Too many arguments\n") sh)
      ]
      else if str_eq name (codes "alias")
      then with_rc (bi_alias os (name ∷ args) sh)
      else if str_eq name (codes "unalias")
      then with_rc (bi_unalias (name ∷ args) sh)
      else if str_eq name (codes "which")
      then with_rc (bi_which os (name ∷ args) sh)
      else if str_eq name (codes "path")
      then with_rc (bi_path (name ∷ args) sh)
      else if str_eq name (codes "cd")
      then with_rc (bi_cd os (name ∷ args) sh)
      else if str_eq name (codes "history")
      then with_rc (bi_history (name ∷ args) sh)
      else running sh

  abbrev pub code_of : ℕ → ℕ
  code_of status = if status == 0 then exit_success else exit_failure

  -- `argv[0]`, a null pointer at the end of an empty vector.
  abbrev pub first_word : List Bytes → Option Bytes
  first_word [] = none
  first_word (cmd ∷ args) = some cmd

  -- A null pointer names no builtin.
  abbrev pub is_builtin_word : Option Bytes → Bool
  is_builtin_word none = false
  is_builtin_word (some name) = is_builtin name

  -- `resolve_exec_path` reads the first byte of its argument: `none` for a null pointer.
  abbrev pub resolve_word : Option Bytes → Shell → Option (Option Bytes × Shell)
  resolve_word none sh = none
  resolve_word (some cmd) sh = some (resolve_exec_path os cmd sh)

  unfoldable pub run_external : List Bytes → Shell → Running
  unfolding resolve_exec_path is_builtin
  run_external argv sh = elim (resolve_word (first_word argv) sh) [
    | none ↦ crashed
    | some (path, sh') ↦
        running
          (elim path [ none ↦ sh' | some full ↦ record sh' { rc = code_of (exec full argv) } ])
  ]

  -- The exit status of one stage, run in a child that has its own copy of the shell.
  unfoldable pub stage_status : List Bytes → Shell → ℕ
  unfolding try_run_builtin resolve_exec_path is_builtin
  stage_status [] sh = exit_failure
  stage_status (cmd ∷ args) sh =
      if is_builtin cmd
      then elim (try_run_builtin (cmd ∷ args) sh) [
        | exited code ↦ code
        | running sh' ↦ code_of sh'.rc
        | crashed ↦ exit_failure
      ]
      else elim (resolve_exec_path os cmd sh).0 [
        | none ↦ exit_failure
        | some full ↦ exec full (cmd ∷ args)
      ]

  -- `rc` comes from the last stage.
  unfoldable pub run_pipeline : List (List Bytes) → Shell → Shell
  unfolding stage_status
  run_pipeline [] sh = record sh { rc = exit_failure }
  run_pipeline (argv ∷ []) sh = record sh { rc = code_of (stage_status argv sh) }
  run_pipeline (argv ∷ next ∷ rest) sh = run_pipeline (next ∷ rest) sh

  -- The stages of a pipeline, each parsed and expanded; the flag is cleared by an empty one.
  unfoldable pub prepare_stages : List Bytes → Shell → Bool × List (List Bytes) × Shell
  unfolding parse_words expand_alias_first_token wsh_warn
  prepare_stages [] sh = (true, [], sh)
  prepare_stages (seg ∷ segs) sh =
      let (words, sh1) = parse_words seg sh in
      elim words [
        | [] ↦
            let (good, stages, sh2) =
              prepare_stages segs (wsh_warn (codes "Empty command segment in pipeline\n") sh1) in
            (false, [] ∷ stages, sh2)
        | cmd ∷ args ↦
            let (argv, sh2) = expand_alias_first_token (cmd ∷ args) sh1 in
            let (good, stages, sh3) = prepare_stages segs sh2 in (good, argv ∷ stages, sh3)
      ]

  -- An alias that stands for nothing leaves no first word: `resolve_exec_path` reads a null pointer.
  unfoldable pub run_command : List Bytes → Shell → Running
  unfolding is_builtin try_run_builtin run_external
  run_command argv sh =
      if is_builtin_word (first_word argv) then try_run_builtin argv sh else run_external argv sh

  -- A blank line runs nothing.
  unfoldable pub run_words : List Bytes → Shell → Running
  unfolding expand_alias_first_token run_command
  run_words [] sh = running sh
  run_words (cmd ∷ args) sh =
      let (argv, sh') = expand_alias_first_token (cmd ∷ args) sh in run_command argv sh'

  -- A line of one segment.
  unfoldable pub run_simple : Bytes → Shell → Running
  unfolding parse_words run_words
  run_simple seg sh = let (words, sh') = parse_words seg sh in run_words words sh'

  unfoldable pub run_stages : List Bytes → Shell → Shell
  unfolding prepare_stages run_pipeline
  run_stages segs sh =
      let (good, stages, sh') = prepare_stages segs sh in
      if good then run_pipeline stages sh' else record sh' { rc = exit_failure }

  unfoldable pub run_segments : Option (List Bytes) → Shell → Running
  unfolding run_simple run_stages
  run_segments none sh = running (record sh { rc = exit_failure })
  run_segments (some []) sh = running sh
  run_segments (some (seg ∷ [])) sh = run_simple seg sh
  run_segments (some (seg ∷ next ∷ segs)) sh = running (run_stages (seg ∷ next ∷ segs) sh)

  abbrev remember : Bytes → Running → Running
  remember line (running sh) = running (add_history_after_exec line sh)
  remember line (exited code) = exited code
  remember line crashed = crashed

  unfoldable pub run_line : Bytes → Shell → Running
  unfolding run_segments split_pipeline add_history_after_exec
  run_line line sh = remember line (run_segments (split_pipeline line max_segs) sh)

  -- `batch_main` over the lines that `fgets` reads, and the status of the shell; none after a crash.
  unfoldable pub batch_main : List Bytes → Shell → Option ℕ
  unfolding run_line
  batch_main [] sh = some sh.rc
  batch_main (line ∷ lines) sh = elim (run_line line sh) [
    | running sh' ↦ batch_main lines sh'
    | exited code ↦ some code
    | crashed ↦ none
  ]

-- The state that `main` sets up.
unfoldable pub initial_shell : Option Bytes → Shell
initial_shell home = record {
  rc = 0;
  alias_hm = hm_create;
  history_da = none;
  path = some (codes "/bin");
  home = home;
  out = [];
}
