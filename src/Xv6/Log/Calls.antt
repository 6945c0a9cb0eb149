-- ===== src/Xv6/Log/Calls.antt =====
-- What the calls of 03-xv6-stcf-scheduler/log.c leave of the log where they do not sleep or panic.
use systems_programming_port.Prelude.{
  ℕ, ◌+◌, ◌-◌, ◌*◌, ◌≤◌, ◌<◌, ◌≡◌, refl, sym, ap, subst, ◌∙◌, ◌≢◌, ◌⊎◌, inl, inr, true, false, ◌||◌,
  some, List, [], ◌∷◌, ◌++◌, arith, length, ltb, leb, ◌==◌, if◌then◌else◌, Bool-cases, ne→==,
  ltb→ge,
}
use mathlib.Core.Bool.{true≢false}
use systems_programming_port.Prelude.{Bool, true, false, sym, ==→eq}
use systems_programming_port.Prelude.Maps.{update}
use systems_programming_port.Xv6.Log.{
  Log, has_block, log_size, max_op_blocks, begin_op, log_write, end_op, commit, install_trans,
  write_head, write_log,
}
use systems_programming_port.Xv6.Log.View.{IsHome, Fits}
use systems_programming_port.Xv6.Log.Phases.{write_log-Kept, install-Kept}

has_block-append :
    (b c : ℕ) (bs : List ℕ) → has_block b bs ≡ false → c ≢ b → has_block b (bs ++ c ∷ []) ≡ false
has_block-append b c [] h ne = rw (ne→== c b ne) refl
has_block-append b c (x ∷ bs) h ne = ground (arith, h, has_block-append b c bs)

pub Fits-append :
    (s size c : ℕ) (bs : List ℕ)
    → Fits s size bs
    → IsHome s size c
    → has_block c bs ≡ false
    → Fits s size (bs ++ c ∷ [])
Fits-append s size c [] f home new = (home, refl, f)
Fits-append s size c (b ∷ bs) (h, ne, f) home new = (
  h,
  has_block-append b c bs ne (λ e. absurd (ground (arith, e, new))),
  Fits-append s size c bs f home (ground (arith, new)),
)

-- `begin_op` reserves the blocks of one more operation.
pub begin_op-some :
    (l l' : Log)
    → begin_op l ≡ some l'
    → (l.committing ≡ false)
      × (length l.lh + (l.outstanding + 1) * max_op_blocks ≤ log_size)
      × (l' ≡ record l { outstanding = l.outstanding + 1 })
unfolding begin_op
begin_op-some l l' e = elim (Bool-cases l.committing) [
  | inl t ↦ absurd (ground (arith, e, t))
  | inr f ↦ elim (Bool-cases (ltb log_size (length l.lh + (l.outstanding + 1) * max_op_blocks))) [
    | inl full ↦ absurd (ground (arith, e, f, full))
    | inr fits ↦ (f, ltb→ge _ _ fits, ground (arith, e, f, fits))
  ]
]

pub log_write-some :
    (b : ℕ) (l l' : Log)
    → log_write b l ≡ some l'
    → l' ≡ record l {
      lh = if has_block b l.lh then l.lh else l.lh ++ (b ∷ []);
      pinned = update l.pinned b true;
    }
unfolding log_write
log_write-some b l l' e =
    elim (Bool-cases (leb log_size (length l.lh) || leb (l.size - 1) (length l.lh))) [
      | inl full ↦ absurd (ground (arith, e, full))
      | inr room ↦ elim (Bool-cases (ltb l.outstanding 1)) [
        | inl outside ↦ absurd (ground (arith, e, room, outside))
        | inr within ↦ ground (arith, e, room, within)
      ]
    ]

-- What the end of an operation leaves of the log, and whether a commit is due.
pub record Ended (l : Log) (due : Bool) (l' : Log) : Type 0 where
  pub idle : l.committing ≡ false
  pub count : l'.outstanding ≡ l.outstanding - 1
  pub flag : l'.committing ≡ due
  pub last : due ≡ true → l'.outstanding ≡ 0
  pub place : (l'.start ≡ l.start) × (l'.size ≡ l.size)
  pub header : l'.lh ≡ l.lh

pub commit-Ended :
    (l : Log)
    → ((commit l).start ≡ l.start)
      × ((commit l).size ≡ l.size)
      × ((commit l).outstanding ≡ l.outstanding)
      × (((commit l).lh ≡ l.lh) ⊎ ((commit l).lh ≡ []))
unfolding commit install_trans write_head write_log
commit-Ended l = elim (Bool-cases (ltb 0 (length l.lh))) [
  | inr nothing ↦ rw nothing (refl, refl, refl, inl refl)
  | inl some_there ↦
      let w = write_log l in
      let a = write_head w in
      let before = write_log-Kept 0 l.lh l in
      let after = install-Kept 0 a.lh a in
      rw some_there
        (after.start ∙ before.start, after.size ∙ before.size, after.count ∙ before.count, inr refl)
]

pub end_op-some : (l l' : Log) (due : Bool) → end_op l ≡ some (due, l') → Ended l due l'
unfolding end_op
end_op-some l l' due e = elim (Bool-cases l.committing) [
  | inl t ↦ absurd (ground (arith, e, t))
  | inr f ↦ elim (Bool-cases (l.outstanding - 1 == 0)) [
    | inr more ↦
        let same : l' ≡ record l { outstanding = l.outstanding - 1 } = ground (arith, e, f, more) in
        let none_due : due ≡ false = ground (arith, e, f, more) in
        rw (same, none_due)
          (record {
            idle = f;
            count = refl;
            flag = f;
            last = λ t. absurd (true≢false (sym t));
            place = (refl, refl);
            header = refl;
          })
    | inl none_left ↦
        let same : l' ≡ record l { outstanding = l.outstanding - 1; committing = true } =
          ground (arith, e, f, none_left) in
        let is_due : due ≡ true = ground (arith, e, f, none_left) in
        rw (same, is_due)
          (record {
            idle = f;
            count = refl;
            flag = refl;
            last = λ t. ==→eq _ _ none_left;
            place = (refl, refl);
            header = refl;
          })
  ]
]

pub fewer-Fits :
    (s size : ℕ) (l l' : Log)
    → Fits s size l.lh
    → 0 < size
    → (l'.lh ≡ l.lh) ⊎ (l'.lh ≡ [])
    → Fits s size l'.lh
fewer-Fits s size l l' f pos (inl same) = subst (Fits s size) (sym same) f
fewer-Fits s size l l' f pos (inr none_left) = subst (Fits s size) (sym none_left) pos

pub fewer-le : (l l' : Log) → (l'.lh ≡ l.lh) ⊎ (l'.lh ≡ []) → length l'.lh ≤ length l.lh
fewer-le l l' (inl same) = omega (arith, ap (λ (bs : List ℕ). length bs) same)
fewer-le l l' (inr none_left) = omega (arith, ap (λ (bs : List ℕ). length bs) none_left)
