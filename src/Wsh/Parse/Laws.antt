-- ===== src/Wsh/Parse/Laws.antt =====
-- The two parsers against what they read: quoted words come back, segments join to the line.
use systems_programming_port.Prelude.{
  append_assoc, ℕ, zero, suc, ◌≤◌, ◌<◌, ◌≡◌, refl, sym, ap, ◌∙◌, inl, inr, Bool, false, not, ◌&&◌,
  some, List, [], ◌∷◌, ◌++◌, arith, length, leb, ◌==◌, Bool-cases, Bytes, ==_refl,
}
use mathlib.Core.List.{reverse, reverse-cons}
use systems_programming_port.Prelude.{leb→le, length-append, subst, ap₂}
use systems_programming_port.Wsh.Parse.{
  quote, space, newline, bar, with_space, skip_spaces, cut_at, next_token, tokens,
  parseline_no_subst, split_from, split_pipeline,
}

-- A word without the byte `b`.
abbrev pub Without : ℕ → Bytes → Type 0
Without b [] = Unit {0}
Without b (c ∷ s) = ((c == b) ≡ false) × Without b s

-- Every word free of quotes.
abbrev pub AllWithout : ℕ → List Bytes → Type 0
AllWithout b [] = Unit {0}
AllWithout b (w ∷ ws) = Without b w × AllWithout b ws

-- Each word in single quotes, with a space behind it.
abbrev pub quoted : List Bytes → Bytes
quoted [] = []
quoted (w ∷ ws) = quote ∷ (w ++ (quote ∷ space ∷ quoted ws))

cut_at-append : (b : ℕ) (w rest : Bytes) → Without b w → cut_at b (w ++ (b ∷ rest)) ≡ some (w, rest)
unfolding cut_at
cut_at-append b [] rest h = rw (==_refl b)
cut_at-append b (c ∷ w) rest h = rw (h.0) (rw (cut_at-append b w rest h.1, cut_at))

-- A line that does not end in a newline.
abbrev NoNewline : Bytes → Type 0
NoNewline [] = Unit {0}
NoNewline (c ∷ []) = (c == newline) ≡ false
NoNewline (c ∷ d ∷ s) = NoNewline (d ∷ s)

with_space-append : (s : Bytes) → NoNewline s → with_space s ≡ s ++ (space ∷ [])
unfolding with_space
with_space-append [] h = refl
with_space-append (c ∷ []) h = rw h
with_space-append (c ∷ d ∷ s) h = ap (λ l. c ∷ l) (with_space-append (d ∷ s) h)

NoNewline-append : (w : Bytes) (d : ℕ) (s : Bytes) → NoNewline (d ∷ s) → NoNewline (w ++ (d ∷ s))
NoNewline-append [] d s h = h
NoNewline-append (c ∷ []) d s h = h
NoNewline-append (c ∷ e ∷ w) d s h = NoNewline-append (e ∷ w) d s h

NoNewline-cons : (c d : ℕ) (s : Bytes) → NoNewline (d ∷ s) → NoNewline (c ∷ d ∷ s)
NoNewline-cons c d s h = h

quoted-NoNewline : (w : Bytes) (ws : List Bytes) → NoNewline (quoted (w ∷ ws))
quoted-NoNewline w [] = NoNewline-append (quote ∷ w) quote (space ∷ []) refl
quoted-NoNewline w (v ∷ ws) =
    NoNewline-append (quote ∷ w) quote (space ∷ quoted (v ∷ ws)) (quoted-NoNewline v ws)

tokens-quoted :
    (ws : List Bytes) (fuel : ℕ)
    → AllWithout quote ws
    → length ws < fuel
    → tokens fuel (skip_spaces (quoted ws ++ (space ∷ []))) ≡ some ws
unfolding tokens skip_spaces next_token
tokens-quoted ws zero a h = absurd (omega arith)
tokens-quoted [] (suc fuel) a h = refl
tokens-quoted (w ∷ ws) (suc fuel) a h =
    let after = space ∷ (quoted ws ++ (space ∷ [])) in
    let whole : cut_at quote ((w ++ (quote ∷ space ∷ quoted ws)) ++ (space ∷ []))
        ≡ some (w, after) =
      ap (cut_at quote) (append_assoc w (quote ∷ space ∷ quoted ws) (space ∷ []))
      ∙ cut_at-append quote w after a.0 in
    rw (whole, tokens) (rw (tokens-quoted ws fuel a.1 (omega arith), tokens) refl)

words-le : (ws : List Bytes) → length ws ≤ length (quoted ws)
words-le [] = omega arith
words-le (w ∷ ws) = omega (arith, length-append w (quote ∷ space ∷ quoted ws), words-le ws)

length-quoted :
    (ws : List Bytes) → length ws < suc (length (skip_spaces (quoted ws ++ (space ∷ []))))
unfolding skip_spaces
length-quoted [] = omega arith
length-quoted (w ∷ ws) = omega (
  arith,
  length-append (w ++ (quote ∷ space ∷ quoted ws)) (space ∷ []),
  length-append w (quote ∷ space ∷ quoted ws),
  words-le ws,
)

-- Quoted words come back: the parser reads a line of words in single quotes, none of which holds a
-- single quote, as exactly those words, spaces and empty words included.
pub parseline-quoted :
    (ws : List Bytes) → AllWithout quote ws → parseline_no_subst (quoted ws) ≡ some ws
unfolding parseline_no_subst
parseline-quoted [] a = refl
parseline-quoted (w ∷ ws) a =
    let buf = with_space-append (quoted (w ∷ ws)) (quoted-NoNewline w ws) in
    rw buf (tokens-quoted (w ∷ ws) _ a (length-quoted (w ∷ ws)))

-- Segments with a bar between them.
abbrev after_bars : List Bytes → Bytes
after_bars [] = []
after_bars (x ∷ xs) = bar ∷ (x ++ after_bars xs)

abbrev pub join_bars : List Bytes → Bytes
join_bars [] = []
join_bars (x ∷ xs) = x ++ after_bars xs

split_from-cons :
    (b : Bool) (seg s : Bytes) → (x : Bytes) × (xs : List Bytes) × (split_from b seg s ≡ x ∷ xs)
unfolding split_from
split_from-cons b seg [] = (reverse seg, [], refl)
split_from-cons b seg (c ∷ s) = elim (Bool-cases (c == quote)) [
  | inl q ↦ rw q (split_from-cons (not b) (c ∷ seg) s)
  | inr n ↦ elim (Bool-cases ((c == bar) && not b)) [
    | inl cut ↦ rw (n, cut) (reverse seg, split_from b [] s, refl)
    | inr on ↦ rw (n, on) (split_from-cons b (c ∷ seg) s)
  ]
]

after_bars-join :
    (l : List Bytes) (x : Bytes) (xs : List Bytes) → l ≡ x ∷ xs → after_bars l ≡ bar ∷ join_bars l
after_bars-join l x xs e = rw e refl

join-split_from : (b : Bool) (seg s : Bytes) → join_bars (split_from b seg s) ≡ reverse seg ++ s
unfolding split_from
join-split_from b seg [] = refl
join-split_from b seg (c ∷ s) =
    let more : reverse (c ∷ seg) ++ s ≡ reverse seg ++ (c ∷ s) =
      rw (reverse-cons c seg) (append_assoc (reverse seg) (c ∷ []) s) in
    elim (Bool-cases (c == quote)) [
      | inl q ↦ rw q (join-split_from (not b) (c ∷ seg) s ∙ more)
      | inr n ↦ elim (Bool-cases ((c == bar) && not b)) [
        | inl cut ↦
            let (x, xs, e) = split_from-cons b [] s in
            let is_bar : bar ≡ c = ground arith in
            rw (n, cut)
              (ap (λ l. reverse seg ++ l)
                (after_bars-join (split_from b [] s) x xs e
                  ∙ ap₂ (λ d l. d ∷ l) is_bar (join-split_from b [] s)))
        | inr on ↦ rw (n, on) (join-split_from b (c ∷ seg) s ∙ more)
      ]
    ]

-- The pipeline splitter loses and adds nothing: there are at least one and at most `max` segments,
-- and with a bar between them they are the line again.
pub split_pipeline-join :
    (line : Bytes) (max : ℕ) (segs : List Bytes)
    → split_pipeline line max ≡ some segs
    → (join_bars segs ≡ line) × (0 < length segs) × (length segs ≤ max)
unfolding split_pipeline
split_pipeline-join line max segs h =
    elim (Bool-cases (leb (length (split_from false [] line)) max)) [
      | inl few ↦
          let same : split_from false [] line ≡ segs = ground arith in
          let (x, xs, e) = split_from-cons false [] line in
          (
            ap join_bars (sym same) ∙ join-split_from false [] line,
            subst (λ l. 0 < length l) (sym e ∙ same) (omega arith),
            subst (λ l. length l ≤ max) same (leb→le _ _ few),
          )
      | inr many ↦ cc (rw many at h)
    ]
