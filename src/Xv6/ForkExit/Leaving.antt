-- ===== src/Xv6/ForkExit/Leaving.antt =====
-- What `exit` of 03-xv6-stcf-scheduler/proc.c leaves behind.
use systems_programming_port.Prelude.{
  ℕ, zero, suc, ◌+◌, ◌<◌, ◌≡◌, refl, sym, ap, subst, ◌∙◌, ◌≢◌, ◌⊎◌, inl, inr, true, false, Option,
  none, some, List, [], ◌∷◌, map, arith, length, get_elem?, modify, ◌==◌, Bool-cases, Option-cases,
  ==_refl, ne→==, ==→eq, ==→ne, get_elem?-modify_self, length-modify, length-map,
}
use systems_programming_port.Xv6.Proc.{Proc, Kernel, zombie, proc_addr, is_zombie, Chan}
use systems_programming_port.Xv6.Scheduler.{leave_cpu, stcf_account, wakeup1, sleeps_on}
use systems_programming_port.Xv6.Lifecycle.{done}
use systems_programming_port.Xv6.ForkExit.{
  Files, is_child, abandon_one, abandon, chan_of, farewell, exit_done, exit, close_all,
}
use systems_programming_port.Xv6.ForkExit.Waiting.{NoChild}
use systems_programming_port.Xv6.System.Inv.{modify_inv, map_inv}

get_elem?-lt : {A : Type 0} (xs : List A) (i : ℕ) (x : A) → get_elem? xs i ≡ some x → i < length xs
get_elem?-lt [] i x h = cc
get_elem?-lt (y ∷ xs) zero x h = omega arith
get_elem?-lt (y ∷ xs) (suc i) x h = omega (arith, get_elem?-lt xs i x h)

get_elem?-some :
    {A : Type 0} (xs : List A) (i : ℕ) → i < length xs → (x : A) × (get_elem? xs i ≡ some x)
get_elem?-some [] i h = absurd (omega (arith, h))
get_elem?-some (y ∷ xs) zero h = (y, refl)
get_elem?-some (y ∷ xs) (suc i) h = get_elem?-some xs i (omega (arith, h))

-- An update of a slot keeps its PID, and its parent but for a change to `init`.
abbrev Kept : ℕ → Proc → Proc → Type 0
Kept init p q = (q.pid ≡ p.pid) × ((q.parent ≡ p.parent) ⊎ (q.parent ≡ some init))

-- The updates of a table that do so in every slot.
record Adopts (init : ℕ) (t t' : List Proc) : Type 0 where
  same_length : length t' ≡ length t
  from :
      (j : ℕ) (q : Proc)
      → get_elem? t' j ≡ some q
      → (p : Proc) × (get_elem? t j ≡ some p) × Kept init p q

Adopts-trans : (init : ℕ) (t u v : List Proc) → Adopts init t u → Adopts init u v → Adopts init t v
Adopts-trans init t u v a b = record {
  same_length = b.same_length ∙ a.same_length;
  from = λ j r h.
      let (q, hq, kq) = b.from j r h in
      let (p, hp, kp) = a.from j q hq in (p, hp, (kq.0 ∙ kp.0, later p q r kp.1 kq.1));
}
  where
    later :
        (p q r : Proc)
        → (q.parent ≡ p.parent) ⊎ (q.parent ≡ some init)
        → (r.parent ≡ q.parent) ⊎ (r.parent ≡ some init)
        → (r.parent ≡ p.parent) ⊎ (r.parent ≡ some init)
    later p q r x (inr y) = inr y
    later p q r (inl x) (inl y) = inl (y ∙ x)
    later p q r (inr x) (inl y) = inr (y ∙ x)

modify-Adopts :
    (init : ℕ) (t : List Proc) (i : ℕ) (f : Proc → Proc)
    → ((p : Proc) → Kept init p (f p))
    → Adopts init t (modify t i f)
modify-Adopts init t i f keeps = record {
  same_length = length-modify t i f;
  from = λ j q h.
      let (p, g, e) = modify_inv t i f j q h in
      (
        p,
        g,
        elim (Bool-cases (i == j)) [
          | inl hit ↦ subst (Kept init p) (sym (rw hit at e)) (keeps p)
          | inr miss ↦ subst (Kept init p) (sym (rw miss at e)) (refl, inl refl)
        ],
      );
}

wakeup1-Adopts : (init : ℕ) (c : Chan) (t : List Proc) → Adopts init t (wakeup1 c t)
unfolding wakeup1
wakeup1-Adopts init c t = record {
  same_length = length-map t _;
  from = λ j q h.
      let (p, g, e) = map_inv _ t j q h in
      (
        p,
        g,
        elim (Bool-cases (sleeps_on c p)) [
          | inl hit ↦ subst (Kept init p) (sym (rw hit at e)) (refl, inl refl)
          | inr miss ↦ subst (Kept init p) (sym (rw miss at e)) (refl, inl refl)
        ],
      );
}

abandon_one-Adopts :
    (cur init i : ℕ) (p : Proc) (t : List Proc) → Adopts init t (abandon_one cur init i p t)
unfolding abandon_one
abandon_one-Adopts cur init i p t =
    let moved = modify t i (λ q. record q { parent = some init }) in
    let adopted : Adopts init t moved = modify-Adopts init t i _ (λ q. (refl, inr refl)) in
    elim (Bool-cases (is_child cur p)) [
      | inl child ↦ elim (Bool-cases (is_zombie p.state)) [
        | inl dead ↦
            rw (child, dead)
              (Adopts-trans init t moved _ adopted (wakeup1-Adopts init (proc_addr init) moved))
        | inr live ↦ rw (child, live) adopted
      ]
      | inr other ↦
          rw other (record { same_length = refl; from = λ j q h. (q, h, (refl, inl refl)) })
    ]

-- No slot below `i` holds a child of `cur`.
abbrev Cleared : ℕ → ℕ → List Proc → Type 0
Cleared cur i t = (j : ℕ) (q : Proc) → get_elem? t j ≡ some q → j < i → is_child cur q ≡ false

Kept-other :
    (cur init : ℕ) (p q : Proc)
    → cur ≢ init
    → Kept init p q
    → is_child cur p ≡ false
    → is_child cur q ≡ false
Kept-other cur init p q ne (e, inl same) h = rw same h
Kept-other cur init p q ne (e, inr moved) h = rw moved (ne→== init cur (λ x. ne (sym x)))

moved-parent :
    (init i : ℕ) (t : List Proc) (q : Proc)
    → get_elem? (modify t i (λ p. record p { parent = some init })) i ≡ some q
    → q.parent ≡ some init
moved-parent init i t q h =
    let (p, g, e) = modify_inv t i _ i q h in ap (λ x. x.parent) (rw (==_refl i) at e)

woken-parent :
    (init i : ℕ) (c : Chan) (t : List Proc) (q : Proc)
    → ((p : Proc) → get_elem? t i ≡ some p → p.parent ≡ some init)
    → get_elem? (wakeup1 c t) i ≡ some q
    → q.parent ≡ some init
unfolding wakeup1
woken-parent init i c t q all h =
    let (p, g, e) = map_inv _ t i q h in
    elim (Bool-cases (sleeps_on c p)) [
      | inl hit ↦ ap (λ x. x.parent) (rw hit at e) ∙ all p g
      | inr miss ↦ ap (λ x. x.parent) (rw miss at e) ∙ all p g
    ]

abandon_one-parent :
    (cur init i : ℕ) (p q : Proc) (t : List Proc)
    → is_child cur p ≡ true
    → get_elem? (abandon_one cur init i p t) i ≡ some q
    → q.parent ≡ some init
unfolding abandon_one
abandon_one-parent cur init i p q t child h = elim (Bool-cases (is_zombie p.state)) [
  | inl dead ↦
      woken-parent init i (proc_addr init) _ q (moved-parent init i t)
        (rw (child, dead, abandon_one) at h)
  | inr live ↦ moved-parent init i t q (rw (child, live, abandon_one) at h)
]

abandon_one-Cleared :
    (cur init i : ℕ) (p : Proc) (t : List Proc)
    → cur ≢ init
    → get_elem? t i ≡ some p
    → Cleared cur i t
    → Cleared cur (suc i) (abandon_one cur init i p t)
abandon_one-Cleared cur init i p t ne g c j q h lt =
    let (r, hr, kept) = (abandon_one-Adopts cur init i p t).from j q h in
    elim (Bool-cases (j == i)) [
      | inr miss ↦ Kept-other cur init r q ne kept (c j r hr (omega (arith, lt, ==→ne j i miss)))
      | inl hit ↦ elim (Bool-cases (is_child cur p)) [
        | inl child ↦
            let here =
              subst (λ n. get_elem? (abandon_one cur init i p t) n ≡ some q) (==→eq j i hit) h in
            rw (abandon_one-parent cur init i p q t child here) (ne→== init cur (λ x. ne (sym x)))
        | inr other ↦
            let there : get_elem? t i ≡ some r =
              subst (λ n. get_elem? t n ≡ some r) (==→eq j i hit) hr in
            let same : p ≡ r = ground arith in
            Kept-other cur init r q ne kept (subst (λ x. is_child cur x ≡ false) same other)
      ]
    ]

abandon-Adopts : (cur init n i : ℕ) (t : List Proc) → Adopts init t (abandon cur init n i t)
unfolding abandon
abandon-Adopts cur init zero i t = record {
  same_length = refl;
  from = λ j q h. (q, h, (refl, inl refl));
}
abandon-Adopts cur init (suc n) i t = elim (Option-cases (get_elem? t i)) [
  | inl e ↦
      rw (e, abandon) (record { same_length = refl; from = λ j q h. (q, h, (refl, inl refl)) })
  | inr (p, e) ↦
      rw (e, abandon)
        (Adopts-trans init t (abandon_one cur init i p t) _ (abandon_one-Adopts cur init i p t)
          (abandon-Adopts cur init n (suc i) (abandon_one cur init i p t)))
]

abandon-NoChild :
    (cur init n i : ℕ) (t : List Proc)
    → cur ≢ init
    → length t ≡ i + n
    → Cleared cur i t
    → NoChild cur (abandon cur init n i t)
unfolding abandon
abandon-NoChild cur init zero i t ne len c =
    λ j q h. c j q h (omega (arith, len, get_elem?-lt t j q h))
abandon-NoChild cur init (suc n) i t ne len c =
    let (p, e) = get_elem?-some t i (omega (arith, len)) in
    rw (e, abandon)
      (abandon-NoChild cur init n (suc i) (abandon_one cur init i p t) ne
        (omega (arith, len, (abandon_one-Adopts cur init i p t).same_length))
        (abandon_one-Cleared cur init i p t ne e c))

farewell-Adopts :
    (cur init : ℕ) (me : Proc) (t : List Proc) → Adopts init t (farewell cur init me t)
unfolding farewell
farewell-Adopts cur init me t =
    let shut = modify t cur (λ p. record p { ofile = map (λ f. 0) p.ofile; cwd = 0 }) in
    let woken = wakeup1 (chan_of me.parent) shut in
    Adopts-trans init t shut _ (modify-Adopts init t cur _ (λ p. (refl, inl refl))) (
      Adopts-trans init shut woken _ (wakeup1-Adopts init (chan_of me.parent) shut)
        (abandon-Adopts cur init (length woken) 0 woken))

farewell-NoChild :
    (cur init : ℕ) (me : Proc) (t : List Proc) → cur ≢ init → NoChild cur (farewell cur init me t)
unfolding farewell
farewell-NoChild cur init me t ne =
    let woken =
      wakeup1 (chan_of me.parent)
        (modify t cur (λ p. record p { ofile = map (λ f. 0) p.ofile; cwd = 0 })) in
    abandon-NoChild cur init (length woken) 0 woken ne (omega arith)
      (λ j q h lt. absurd (omega (arith, lt)))

account-same :
    (now : ℕ) (p : Proc)
    → ((stcf_account now p).parent ≡ p.parent) × ((stcf_account now p).pid ≡ p.pid)
unfolding stcf_account
account-same now p = ground arith

-- The last update, of the slot of the exiting process.
abbrev ended : ℕ → Proc → Proc
ended now p = record (stcf_account now p) { state = zombie }

ended-NoChild :
    (cur : ℕ) (now : ℕ) (t : List Proc) → NoChild cur t → NoChild cur (modify t cur (ended now))
ended-NoChild cur now t all j q h =
    let (p, g, e) = modify_inv t cur (ended now) j q h in
    elim (Bool-cases (cur == j)) [
      | inl hit ↦
          let same : q ≡ ended now p = rw hit at e in
          let from : q.parent ≡ p.parent = ap (λ x. x.parent) same ∙ (account-same now p).0 in
          rw from (all j p g)
      | inr miss ↦ subst (λ x. is_child cur x ≡ false) (sym (rw miss at e)) (all j p g)
    ]

ended-zombie :
    (cur init now : ℕ) (t t' : List Proc) (me : Proc)
    → Adopts init t t'
    → get_elem? t cur ≡ some me
    → (q : Proc) × (get_elem? (modify t' cur (ended now)) cur ≡ some q)
      × (q.state ≡ zombie)
      × (q.pid ≡ me.pid)
ended-zombie cur init now t t' me a g =
    let (p, hp) = get_elem?-some t' cur (omega (arith, a.same_length, get_elem?-lt t cur me g)) in
    let (r, hr, kept) = a.from cur p hp in
    let same : me ≡ r = ground arith in
    (
      ended now p,
      get_elem?-modify_self t' cur (ended now) p hp,
      refl,
      (account-same now p).1 ∙ kept.0 ∙ ap (λ x. x.pid) (sym same),
    )

exit_done_lem :
    (files : Files) (cur : ℕ) (me : Proc) (k k' : Kernel) (o : Option files.State)
    (s' : files.State)
    → cur ≢ k.initproc
    → get_elem? k.ptable cur ≡ some me
    → exit_done files cur me k o ≡ done (k', s')
    → NoChild cur k'.ptable
      × (k'.cpu_proc ≡ none)
      × ((q : Proc) × (get_elem? k'.ptable cur ≡ some q) × (q.state ≡ zombie) × (q.pid ≡ me.pid))
unfolding exit_done leave_cpu
exit_done_lem files cur me k k' none s' ne g h = cc
exit_done_lem files cur me k k' (some s) s' ne g h =
    let t = farewell cur k.initproc me k.ptable in
    let left : Kernel = record k { ptable = modify t cur (ended k.ticks); cpu_proc = none } in
    let same : left ≡ k' = cc in
    subst
      (λ x.
        NoChild cur x.ptable
        × (x.cpu_proc ≡ none)
        × ((q : Proc) × (get_elem? x.ptable cur ≡ some q) × (q.state ≡ zombie) × (q.pid ≡ me.pid)))
      same
      (
        ended-NoChild cur k.ticks t (farewell-NoChild cur k.initproc me k.ptable ne),
        refl,
        ended-zombie cur k.initproc k.ticks k.ptable t me
            (farewell-Adopts cur k.initproc me k.ptable) g,
      )

-- A process that exits is left as a zombie with its PID, off the CPU, and no process is its child
-- any more.
pub exit_lem :
    (files : Files) (cur : ℕ) (me : Proc) (k k' : Kernel) (s s' : files.State)
    → get_elem? k.ptable cur ≡ some me
    → exit files cur me k s ≡ done (k', s')
    → NoChild cur k'.ptable
      × (k'.cpu_proc ≡ none)
      × ((q : Proc) × (get_elem? k'.ptable cur ≡ some q) × (q.state ≡ zombie) × (q.pid ≡ me.pid))
unfolding exit
exit_lem files cur me k k' s s' g h = elim (Bool-cases (cur == k.initproc)) [
  | inl init ↦ cc (rw (init, exit) at h)
  | inr other ↦
      exit_done_lem files cur me k k' (close_all files me.ofile s) s' (==→ne _ _ other) g
        (rw (other, exit) at h)
]
