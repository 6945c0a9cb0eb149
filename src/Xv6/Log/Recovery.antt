-- ===== src/Xv6/Log/Recovery.antt =====
-- Recovery in 03-xv6-stcf-scheduler/log.c, and the second half of `commit`, which does the same work.
use systems_programming_port.Prelude.{
  ℕ, ◌+◌, ◌<◌, ◌≡◌, refl, sym, ap, subst, ◌∙◌, ◌≢◌, inl, inr, false, List, [], arith, length, ltb,
  Bool-cases, ltb→lt, ltb→ge,
}
use systems_programming_port.Xv6.Log.{
  Log, Block, has_block, install_from, install_trans, read_head, write_head, header_of,
  recover_from_log, reboot,
}
use systems_programming_port.Xv6.Log.View.{
  view, seen, IsHome, Fits, SameSlots, range-SameSlots, view-named, slot_unnamed, view-ext,
}
use systems_programming_port.Xv6.Log.Phases.{
  install-Kept, left-install, install-other, install-view, write_head-other, write_head-header,
}

-- A disk that recovery takes to the blocks `c`, outside of the log.
pub record Recovers (s size : ℕ) (d : ℕ → Block) (c : ℕ → Block) : Type 0 where
  pub fits : Fits s size (header_of (d s))
  pub room : length (header_of (d s)) < size
  pub blocks : (x : ℕ) → IsHome s size x → seen s d x ≡ c x

header_unnamed : (s size : ℕ) (bs : List ℕ) → Fits s size bs → 0 < size → has_block s bs ≡ false
header_unnamed s size bs f pos =
    let at : s + 0 ≡ s = omega arith in
    subst (λ n. has_block n bs ≡ false) at (slot_unnamed s size 0 bs f pos)

module _ (a : Log) (f : Fits a.start a.size a.lh) (room : length a.lh < a.size)
    (header : header_of (a.disk a.start) ≡ a.lh)
    (slots : length a.lh < a.left → SameSlots a.start 0 a.lh a.disk a.cache) where
  abbrev told : ℕ → Block
  told x = view a.start 0 a.lh a.disk x

  abbrev installed : Log
  installed = record (install_from 0 a.lh a) { lh = [] }

  start_same : installed.start ≡ a.start
  start_same = (install-Kept 0 a.lh a).start

  -- The log itself is not touched by the installation.
  in_log : (k : ℕ) → k < a.size → installed.disk (a.start + k) ≡ a.disk (a.start + k)
  in_log k lt = install-other 0 a.lh a (a.start + k) (slot_unnamed a.start a.size k a.lh f lt)

  at_start : installed.disk a.start ≡ a.disk a.start
  at_start =
      install-other 0 a.lh a a.start (header_unnamed a.start a.size a.lh f (omega (arith, room)))

  still_told : (x : ℕ) → view a.start 0 a.lh installed.disk x ≡ told x
  still_told x =
      let same = range-SameSlots a.start 0 a.lh a.disk installed.disk (λ k lo hi.
        let at : a.start + (k + 1) ≡ a.start + k + 1 = omega arith in
        subst (λ n. installed.disk n ≡ a.disk n) at (in_log (k + 1) (omega (arith, hi, room)))) in
      elim (Bool-cases (has_block x a.lh)) [
        | inl named ↦ view-named a.start 0 a.lh a.disk installed.disk x same named
        | inr other ↦
            view-ext a.start 0 a.lh a.disk installed.disk x same (install-other 0 a.lh a x other)
      ]

  -- Where the header is not erased.
  installed-Recovers : Recovers a.start a.size installed.disk told
  installed-Recovers =
      let same : header_of (installed.disk a.start) ≡ a.lh = ap header_of at_start ∙ header in
      record {
        fits = subst (Fits a.start a.size) (sym same) f;
        room = subst (λ (bs : List ℕ). length bs < a.size) (sym same) room;
        blocks =
            λ x home. ap (λ (bs : List ℕ). view a.start 0 bs installed.disk x) same ∙ still_told x;
      }

  abbrev erased : Log
  erased = write_head installed

  home_other : (x : ℕ) → IsHome a.start a.size x → x ≢ installed.start
  home_other x (inl lo) e = absurd (omega (arith, lo, e, start_same))
  home_other x (inr hi) e = absurd (omega (arith, hi, e, start_same, room))

  -- With power until the header is erased.
  pub finish_lem :
      length a.lh < a.left
      → (header_of (erased.disk a.start) ≡ [])
        × ((x : ℕ) → IsHome a.start a.size x → erased.disk x ≡ told x)
  finish_lem on = (
    subst (λ n. header_of (erased.disk n) ≡ []) start_same
        ((write_head-header installed).0 (omega (arith, on, left-install 0 a.lh a))),
    λ x home.
        write_head-other installed x (home_other x home)
        ∙ install-view 0 a.lh a f (omega (arith, room)) (slots on) on x,
  )

  erased-Recovers : length a.lh < a.left → Recovers a.start a.size erased.disk told
  unfolding view
  erased-Recovers on =
      let (empty, blocks) = finish_lem on in
      record {
        fits = subst (Fits a.start a.size) (sym empty) (omega (arith, room));
        room = subst (λ (bs : List ℕ). length bs < a.size) (sym empty) (omega (arith, room));
        blocks =
            λ x home. ap (λ (bs : List ℕ). view a.start 0 bs erased.disk x) empty ∙ blocks x home;
      }

  -- Wherever the power fails.
  pub finish-Recovers : Recovers a.start a.size erased.disk told
  finish-Recovers = elim (Bool-cases (ltb (length a.lh) a.left)) [
    | inl on ↦ erased-Recovers (ltb→lt _ _ on)
    | inr off ↦
        subst (λ (d : ℕ → Block). Recovers a.start a.size d told)
          (sym (
            (write_head-header installed).1 (omega (arith, ltb→ge _ _ off, left-install 0 a.lh a))))
          installed-Recovers
  ]

slots_same : (s tail : ℕ) (bs : List ℕ) (d : ℕ → Block) → SameSlots s tail bs d d
slots_same s tail bs d = range-SameSlots s tail bs d d (λ k lo hi. refl)

-- The next boot, whatever power it has: what recovery makes of the disk stays the same.
pub recover-Recovers :
    (k : ℕ) (l : Log) (c : ℕ → Block)
    → Recovers l.start l.size l.disk c
    → Recovers l.start l.size (recover_from_log (reboot k l)).disk c
      × (length (header_of (l.disk l.start)) < k
          → (x : ℕ) → IsHome l.start l.size x
          → (recover_from_log (reboot k l)).disk x ≡ c x)
unfolding recover_from_log read_head install_trans
recover-Recovers k l c r =
    let a = read_head (reboot k l) in
    let same = slots_same l.start 0 (header_of (l.disk l.start)) l.disk in
    let all = finish-Recovers a r.fits r.room refl (λ on. same) in
    (
      record {
        fits = all.fits;
        room = all.room;
        blocks = λ x home. all.blocks x home ∙ r.blocks x home;
      },
      λ on x home. (finish_lem a r.fits r.room refl (λ p. same) on).1 x home ∙ r.blocks x home,
    )
