-- ===== src/Wfs/Color/Shown.antt =====
-- The names that `wfs_readdir` of 01-fuse-filesystem-wfs/wfs.c shows in color, and the names of the colors.
use systems_programming_port.Prelude.{
  ℕ, zero, suc, ◌+◌, ◌-◌, ◌<◌, ◌≡◌, refl, ap, ◌∙◌, ◌≢◌, inl, inr, Bool, true, false, Option, none,
  some, List, [], ◌∷◌, ◌++◌, arith, length, get_or, ltb, ◌==◌, Bool-cases, Bytes, codes, ne→==,
  ==→eq,
}
use systems_programming_port.Wfs.Color.{
  wfs_color_max, parse_color_name, ColorInfo, wfs_color_from_code, esc, at_char, opens, color_of,
  color_info, strip_from, strip_ansi_codes, decorated,
}
use systems_programming_port.Wfs.Word.{passes, passes_each}

-- No byte of the name starts a sequence.
abbrev pub IsPlain : Bytes → Type 0
IsPlain [] = [] ≡ codes ""
IsPlain (c ∷ cs) = (c ≢ esc) × IsPlain cs

plain_opens : (c : ℕ) (cs : Bytes) → c ≢ esc → opens c cs ≡ false
plain_opens c [] h = refl
plain_opens c (x ∷ xs) h = rw (ne→== c esc h) refl

-- The sequence that resets the color ends the output.
strip-name :
    (room : ℕ) (name : Bytes)
    → IsPlain name
    → length name < room
    → strip_from at_char room (name ++ (esc ∷ codes "[0m")) ≡ name
unfolding strip_from
strip-name zero name p h = absurd (omega (arith, h))
strip-name (suc room) [] p h = refl
strip-name (suc room) (c ∷ cs) (ne, p) h =
    rw (plain_opens c (cs ++ (esc ∷ codes "[0m")) ne)
      (ap (λ (xs : Bytes). c ∷ xs) (strip-name room cs p (omega (arith, h))))

-- An entry of the table whose sequence the scan takes away.
abbrev Vanishes : ColorInfo → ℕ → Bytes → Type 0
Vanishes info room rest =
    strip_from at_char (suc room) (info.ansi ++ rest) ≡ strip_from at_char (suc room) rest

abbrev AllVanish : List ColorInfo → ℕ → Bytes → Type 0
AllVanish [] room rest = [] ≡ codes ""
AllVanish (info ∷ infos) room rest = Vanishes info room rest × AllVanish infos room rest

entry-Vanishes :
    (infos : List ColorInfo) (code : ℕ) (info : ColorInfo) (room : ℕ) (rest : Bytes)
    → AllVanish infos room rest
    → Vanishes info room rest
    → Vanishes (get_or infos code info) room rest
entry-Vanishes [] code info room rest h k = k
entry-Vanishes (i ∷ is) zero info room rest (h, hs) k = h
entry-Vanishes (i ∷ is) (suc code) info room rest (h, hs) k =
    entry-Vanishes is code info room rest hs k

table-Vanishes : (room : ℕ) (rest : Bytes) → AllVanish color_info room rest
unfolding strip_from
table-Vanishes room rest = (
  refl,
  (refl, (refl, (refl, (refl, (refl, (refl, (refl, (refl, (refl, (refl, (refl, refl))))))))))),
)

strip-ansi : (code room : ℕ) (rest : Bytes) → Vanishes (wfs_color_from_code code) room rest
unfolding wfs_color_from_code
strip-ansi code room rest = elim (Bool-cases (ltb code wfs_color_max)) [
  | inl t ↦ rw t (
      entry-Vanishes color_info code (color_of [] (codes "none")) room rest
        (table-Vanishes room rest) refl)
  | inr f ↦ rw f refl
]

-- The name that `wfs_readdir` shows to `ls` in any color is read back by `clean_path`'s scan as the
-- name itself, where no byte of it is the escape character and it fits the output.
pub strip_ansi_codes-decorated :
    (code : ℕ) (name : Bytes) (out_len : ℕ)
    → IsPlain name
    → length name + 1 < out_len
    → strip_ansi_codes (decorated code name) out_len ≡ name
unfolding strip_ansi_codes decorated
strip_ansi_codes-decorated code name zero p h = absurd (omega (arith, h))
strip_ansi_codes-decorated code name (suc zero) p h = absurd (omega (arith, h))
strip_ansi_codes-decorated code name (suc (suc room)) p h =
    let less : suc (suc room) - 1 ≡ suc room = omega arith in
    rw less (
      strip-ansi code room (name ++ (esc ∷ codes "[0m"))
      ∙ strip-name (suc room) name p (omega (arith, h)))

is_code : ℕ → Option ℕ → Bool
is_code code none = false
is_code code (some c) = c == code

is_code-some : (code : ℕ) (o : Option ℕ) → is_code code o ≡ true → o ≡ some code
unfolding is_code
is_code-some code none h = absurd (ground (arith, h))
is_code-some code (some c) h = ap (λ (x : ℕ). some x) (==→eq _ _ h)

-- The name of each color is read back as its code.
pub parse_color_name-name :
    (code : ℕ)
    → code < wfs_color_max
    → parse_color_name ((wfs_color_from_code code).name) ≡ some code
unfolding parse_color_name wfs_color_from_code passes is_code
parse_color_name-name code lt = is_code-some code _ (
    passes_each (λ c. is_code c (parse_color_name ((wfs_color_from_code c).name))) wfs_color_max
      refl code lt)
