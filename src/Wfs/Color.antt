-- ===== src/Wfs/Color.antt =====
-- 01-fuse-filesystem-wfs/wfs.c: the color names and codes, and `strip_ansi_codes`.
pub mod Shown
use systems_programming_port.Prelude.{
  ℕ, zero, suc, ◌+◌, ◌-◌, ◌*◌, ◌/◌, ◌%◌, ◌^◌, ◌≤◌, ◌<◌, ◌≡◌, refl, sym, ap, subst, ◌∙◌, ◌≢◌, ◌↔◌,
  ◌⊎◌, inl, inr, Bool, true, false, not, ◌&&◌, ◌||◌, Option, none, some, List, [], ◌∷◌, ◌++◌, map,
  arith, length, get_elem?, set, get_or, take, drop, replicate, modify, ltb, leb, ◌==◌,
  if◌then◌else◌, Bool-cases, Option-cases, Bytes, codes, str_eq, ==_refl, ne→==, ==→eq, ==→ne,
  tests, ltb→lt, ltb→ge, lt→ltb,
}

abbrev pub wfs_color_max : ℕ
wfs_color_max = 12

-- The entries of `color_table`, in the order of their codes from 0.
abbrev pub color_table : List Bytes
color_table =
    codes "none"
    ∷ codes "red"
    ∷ codes "green"
    ∷ codes "blue"
    ∷ codes "yellow"
    ∷ codes "magenta"
    ∷ codes "cyan"
    ∷ codes "white"
    ∷ codes "black"
    ∷ codes "orange"
    ∷ codes "purple"
    ∷ codes "gray"
    ∷ []

abbrev pub tolower : ℕ → ℕ
tolower c = if leb 65 c && leb c 90 then c + 32 else c

unfoldable pub find_color : Bytes → ℕ → List Bytes → Option ℕ
unfolding str_eq
find_color name code [] = none
find_color name code (entry ∷ entries) =
    let rest = find_color name (code + 1) entries in if str_eq name entry then some code else rest

-- The buffer of the lowered name holds 31 characters.
unfoldable pub parse_color_name : Bytes → Option ℕ
unfolding find_color
parse_color_name s = find_color (map tolower (take 31 s)) 0 color_table

pub record ColorInfo : Type 0 where
  pub ansi : Bytes
  pub name : Bytes

abbrev pub color_of : Bytes → Bytes → ColorInfo
color_of ansi name = record { ansi = ansi; name = name }

abbrev pub esc : ℕ
esc = 27

abbrev pub color_info : List ColorInfo
color_info =
    color_of [] (codes "none")
    ∷ color_of (esc ∷ codes "[31m") (codes "red")
    ∷ color_of (esc ∷ codes "[32m") (codes "green")
    ∷ color_of (esc ∷ codes "[34m") (codes "blue")
    ∷ color_of (esc ∷ codes "[33m") (codes "yellow")
    ∷ color_of (esc ∷ codes "[35m") (codes "magenta")
    ∷ color_of (esc ∷ codes "[36m") (codes "cyan")
    ∷ color_of (esc ∷ codes "[37m") (codes "white")
    ∷ color_of (esc ∷ codes "[30m") (codes "black")
    ∷ color_of (esc ∷ codes "[38;5;208m") (codes "orange")
    ∷ color_of (esc ∷ codes "[35m") (codes "purple")
    ∷ color_of (esc ∷ codes "[90m") (codes "gray")
    ∷ []

unfoldable pub wfs_color_from_code : ℕ → ColorInfo
wfs_color_from_code code =
    let plain : ColorInfo = record { ansi = []; name = codes "none" } in
    if ltb code wfs_color_max then get_or color_info code plain else plain

-- Where the scan stands: at a character, at the `[` of a sequence, or inside it.
pub data StripState : Type 0 where
  at_char at_bracket in_sequence : StripState

abbrev pub opens : ℕ → Bytes → Bool
opens c [] = false
opens c (next ∷ rest) = (c == esc) && (next == 91)

-- `room` is what the output can still take before its last byte.
unfoldable pub strip_from : StripState → ℕ → Bytes → Bytes
strip_from at_char room [] = []
strip_from at_char zero (c ∷ cs) = []
strip_from at_char (suc room) (c ∷ cs) =
    let skipped = strip_from at_bracket (suc room) cs in
    let kept = strip_from at_char room cs in if opens c cs then skipped else c ∷ kept
strip_from at_bracket room [] = []
strip_from at_bracket room (c ∷ cs) = strip_from in_sequence room cs
strip_from in_sequence room [] = []
strip_from in_sequence room (c ∷ cs) =
    let after = strip_from at_char room cs in
    let inside = strip_from in_sequence room cs in if c == 109 then after else inside

-- For an output of `out_len` bytes, at least one.
unfoldable pub strip_ansi_codes : Bytes → ℕ → Bytes
unfolding strip_from
strip_ansi_codes inp out_len = strip_from at_char (out_len - 1) inp

-- The name that `wfs_readdir` shows to `ls`.
unfoldable pub decorated : ℕ → Bytes → Bytes
unfolding wfs_color_from_code
decorated color name = (wfs_color_from_code color).ansi ++ (name ++ (esc ∷ codes "[0m"))
