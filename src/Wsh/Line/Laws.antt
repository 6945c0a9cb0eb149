-- ===== src/Wsh/Line/Laws.antt =====
-- 02-unix-shell-wsh/wsh.c: what a line and a pipeline do to the shell.
use systems_programming_port.Prelude.{◌≡◌, refl, List, [], ◌∷◌, ◌++◌, Bytes}
use systems_programming_port.Wsh.Builtins.{Os, Shell}
use systems_programming_port.Wsh.Line.{code_of, stage_status, run_pipeline}

-- A pipeline leaves the shell as it was but for `rc`, which the last stage alone decides: what a
-- builtin does in any stage is lost with its child.
pub run_pipeline-last :
    (os : Os) (stages : List (List Bytes)) (argv : List Bytes) (sh : Shell)
    → run_pipeline os (stages ++ (argv ∷ [])) sh
      ≡ record sh { rc = code_of os (stage_status os argv sh) }
unfolding run_pipeline
run_pipeline-last os [] argv sh = refl
run_pipeline-last os (s ∷ []) argv sh = refl
run_pipeline-last os (s ∷ t ∷ stages) argv sh = run_pipeline-last os (t ∷ stages) argv sh
