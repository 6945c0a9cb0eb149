-- ===== src/Xv6/System/Inv.antt =====
-- What holds of the process table between critical sections, and how single updates keep it.
use systems_programming_port.Prelude.{
  ℕ, zero, suc, ◌<◌, ◌≡◌, refl, sym, ◌∙◌, inl, inr, subst, true, false, Option, some, List, [], ◌∷◌,
  map, arith, get_elem?, modify, ◌==◌, if◌then◌else◌, Bool-cases, ==→eq,
}
use systems_programming_port.Xv6.Proc.{Proc, is_running, is_unused}
use systems_programming_port.Xv6.Scheduler.{is_target}

-- A process table, the next PID, the process on the CPU and the target of the skip.
pub record Inv (t : List Proc) (next : ℕ) (cpu target : Option ℕ) : Type 0 where
  pub on_cpu : (j : ℕ) (q : Proc) → get_elem? t j ≡ some q → is_running q.state ≡ is_target cpu j
  pub marked : (j : ℕ) (q : Proc) → get_elem? t j ≡ some q → q.skip_once ≡ true → target ≡ some j
  pub own : (i j : ℕ) → cpu ≡ some i → target ≡ some j → i ≡ j
  pub below : (j : ℕ) (q : Proc) → get_elem? t j ≡ some q → is_unused q.state ≡ false → q.pid < next
  pub distinct :
      (i j : ℕ) (p q : Proc)
      → get_elem? t i ≡ some p
      → get_elem? t j ≡ some q
      → is_unused p.state ≡ false
      → is_unused q.state ≡ false
      → p.pid ≡ q.pid
      → i ≡ j

-- An update of a slot that the invariant does not see.
pub record Quiet (p q : Proc) : Type 0 where
  pub runs : is_running q.state ≡ is_running p.state
  pub skips : q.skip_once ≡ true → p.skip_once ≡ true
  pub pids : is_unused q.state ≡ false → q.pid ≡ p.pid
  pub used : is_unused q.state ≡ false → is_unused p.state ≡ false

abbrev pub Quietly : List Proc → List Proc → Type 0
Quietly t t' =
    (j : ℕ) (q : Proc) → get_elem? t' j ≡ some q → (p : Proc) × (get_elem? t j ≡ some p) × Quiet p q

pub modify_inv :
    {A : Type 0} (t : List A) (i : ℕ) (f : A → A) (j : ℕ) (q : A)
    → get_elem? (modify t i f) j ≡ some q
    → (p : A) × (get_elem? t j ≡ some p) × (q ≡ (if i == j then f p else p))
modify_inv [] i f j q h = cc
modify_inv (p ∷ t) zero f zero q h = (p, refl, ground arith)
modify_inv (p ∷ t) zero f (suc j) q h = (q, h, ground arith)
modify_inv (p ∷ t) (suc i) f zero q h = (q, h, ground arith)
modify_inv (p ∷ t) (suc i) f (suc j) q h =
    let (p', g, e) = modify_inv t i f j q h in (p', g, ground arith)

pub map_inv :
    {A B : Type 0} (f : A → B) (t : List A) (j : ℕ) (q : B)
    → get_elem? (map f t) j ≡ some q
    → (p : A) × (get_elem? t j ≡ some p) × (q ≡ f p)
map_inv f [] j q h = cc
map_inv f (p ∷ t) zero q h = (p, refl, ground arith)
map_inv f (p ∷ t) (suc j) q h = map_inv f t j q h

Quiet-refl : (p : Proc) → Quiet p p
Quiet-refl p = record { runs = refl; skips = λ h. h; pids = λ h. refl; used = λ h. h }

Quiet-trans : (p q r : Proc) → Quiet p q → Quiet q r → Quiet p r
Quiet-trans p q r a b = record {
  runs = b.runs ∙ a.runs;
  skips = λ h. a.skips (b.skips h);
  pids = λ h. b.pids h ∙ a.pids (b.used h);
  used = λ h. a.used (b.used h);
}

pub Quietly-refl : (t : List Proc) → Quietly t t
Quietly-refl t j q h = (q, h, Quiet-refl q)

pub Quietly-trans : (t u v : List Proc) → Quietly t u → Quietly u v → Quietly t v
Quietly-trans t u v a b j r h =
    let (q, hq, bq) = b j r h in let (p, hp, ap') = a j q hq in (p, hp, Quiet-trans p q r ap' bq)

pub modify-Quietly :
    (t : List Proc) (i : ℕ) (f : Proc → Proc)
    → ((p : Proc) → get_elem? t i ≡ some p → Quiet p (f p))
    → Quietly t (modify t i f)
modify-Quietly t i f quiet j q h =
    let (p, g, e) = modify_inv t i f j q h in
    (
      p,
      g,
      elim (Bool-cases (i == j)) [
        | inl hit ↦
            let same : i ≡ j = ==→eq i j hit in
            subst (Quiet p) (sym (rw hit at e))
              (quiet p (subst (λ n. get_elem? t n ≡ some p) (sym same) g))
        | inr miss ↦ subst (Quiet p) (sym (rw miss at e)) (Quiet-refl p)
      ],
    )

pub map-Quietly :
    (t : List Proc) (f : Proc → Proc) → ((p : Proc) → Quiet p (f p)) → Quietly t (map f t)
map-Quietly t f quiet j q h =
    let (p, g, e) = map_inv f t j q h in (p, g, subst (Quiet p) (sym e) (quiet p))

pub Inv-Quietly :
    (t t' : List Proc) (next : ℕ) (cpu target : Option ℕ)
    → Inv t next cpu target
    → Quietly t t'
    → Inv t' next cpu target
Inv-Quietly t t' next cpu target v quiet = record {
  on_cpu = λ j q h. let (p, g, s) = quiet j q h in s.runs ∙ v.on_cpu j p g;
  marked = λ j q h m. let (p, g, s) = quiet j q h in v.marked j p g (s.skips m);
  own = v.own;
  below = λ j q h u. let (p, g, s) = quiet j q h in rw (s.pids u) (v.below j p g (s.used u));
  distinct = λ i j p q hp hq up uq e.
      let (p', gp, sp) = quiet i p hp in
      let (q', gq, sq) = quiet j q hq in
      v.distinct i j p' q' gp gq (sp.used up) (sq.used uq) (sym (sp.pids up) ∙ e ∙ sq.pids uq);
}
