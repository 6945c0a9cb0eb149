-- ===== src/Wfs/Path.antt =====
-- 01-fuse-filesystem-wfs/wfs.c: paths as C strings without their NUL. `dirname` and `basename` are those of
-- POSIX, on paths that start with one slash.
use systems_programming_port.Prelude.{
  ℕ, Bool, not, List, [], ◌∷◌, length, drop, ◌==◌, if◌then◌else◌, Bytes, str_eq,
}
use systems_programming_port.Wfs.Color.{strip_ansi_codes}
use systems_programming_port.Wfs.Disk.{Errno, enoent, einval}

abbrev pub path_max : ℕ
path_max = 4096

abbrev pub slash : ℕ
slash = 47

abbrev pub root : Bytes
root = slash ∷ []

abbrev pub or_root : Bytes → Bytes
or_root [] = root
or_root (c ∷ cs) = c ∷ cs

unfoldable pub clean_path : Bytes → Bytes
unfolding strip_ansi_codes
clean_path path = or_root (strip_ansi_codes path path_max)

abbrev pub keep_before : ℕ → Bool → Bytes → Bytes
keep_before c keep [] = if keep then c ∷ [] else []
keep_before c keep (x ∷ xs) = c ∷ x ∷ xs

-- Without the slashes at the end.
unfoldable pub trim_end : Bytes → Bytes
trim_end [] = []
trim_end (c ∷ cs) = keep_before c (not (c == slash)) (trim_end cs)

-- Up to the last slash.
unfoldable pub up_to_slash : Bytes → Bytes
up_to_slash [] = []
up_to_slash (c ∷ cs) = keep_before c (c == slash) (up_to_slash cs)

unfoldable pub dirname : Bytes → Bytes
unfolding trim_end up_to_slash
dirname path = or_root (trim_end (up_to_slash (trim_end path)))

unfoldable pub basename : Bytes → Bytes
unfolding trim_end up_to_slash
basename path = or_root (drop (length (up_to_slash (trim_end path))) (trim_end path))

pub data Split : Type 0 where
  parts : (parent name : Bytes) → Split
  refused : Errno → Split

unfoldable pub split_path : Bytes → Split
unfolding dirname basename str_eq
split_path [] = refused enoent
split_path (c ∷ cs) =
    if not (c == slash)
    then refused enoent
    else if str_eq (c ∷ cs) root
    then refused einval
    else parts (dirname (c ∷ cs)) (basename (c ∷ cs))

abbrev pub push_char : ℕ → List Bytes → List Bytes
push_char c [] = (c ∷ []) ∷ []
push_char c (piece ∷ pieces) = (c ∷ piece) ∷ pieces

abbrev pub drop_empty : List Bytes → List Bytes
drop_empty [] = []
drop_empty ([] ∷ pieces) = drop_empty pieces
drop_empty ((c ∷ cs) ∷ pieces) = (c ∷ cs) ∷ drop_empty pieces

unfoldable pub pieces_of : Bytes → List Bytes
pieces_of [] = [] ∷ []
pieces_of (c ∷ cs) = if c == slash then [] ∷ pieces_of cs else push_char c (pieces_of cs)

-- What `strtok_r` yields with "/": the pieces between slashes that are not empty.
unfoldable pub components : Bytes → List Bytes
unfolding pieces_of
components path = drop_empty (pieces_of path)
