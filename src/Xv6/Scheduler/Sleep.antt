-- ===== src/Xv6/Scheduler/Sleep.antt =====
-- Sleeping and waking: which processes a wakeup, a tick and a kill make runnable, and when.
use systems_programming_port.Prelude.{
  ℕ, zero, suc, ◌≡◌, refl, ap, ◌∙◌, true, ◌&&◌, some, List, [], ◌∷◌, map, arith, get_elem?,
  if◌then◌else◌,
}
use systems_programming_port.Prelude.Int.{pos}
use systems_programming_port.Xv6.Proc.{
  Proc, Kernel, Chan, ticks_addr, runnable, is_sleeping, chan_eq,
}
use systems_programming_port.Xv6.Scheduler.{sleeps_on, wakeup, notify, timer_tick}

get_elem?-map :
    {A B : Type 0} (f : A → B) (xs : List A) (i : ℕ) (x : A)
    → get_elem? xs i ≡ some x
    → get_elem? (map f xs) i ≡ some (f x)
get_elem?-map f [] i x h = cc
get_elem?-map f (y ∷ xs) zero x h = ground arith
get_elem?-map f (y ∷ xs) (suc i) x h = get_elem?-map f xs i x h

-- `wakeup` makes runnable exactly the processes that sleep on the channel, and changes nothing
-- else of any process.
pub wakeup_lem :
    (chan : Chan) (k : Kernel) (j : ℕ) (q : Proc)
    → get_elem? k.ptable j ≡ some q
    → get_elem? (wakeup chan k).ptable j
      ≡ some
          (if is_sleeping q.state && chan_eq q.chan chan then record q { state = runnable } else q)
unfolding wakeup
wakeup_lem chan k j q h = get_elem?-map _ k.ptable j q h

-- `n` timer interrupts.
abbrev pub ticks_after : ℕ → Kernel → Kernel
ticks_after zero k = k
ticks_after (suc n) k = ticks_after n (timer_tick k)

pub notify_at :
    (k : Kernel) (j : ℕ) (q : Proc)
    → get_elem? k.ptable j ≡ some q
    → get_elem? (timer_tick k).ptable j ≡ some (notify q)
unfolding timer_tick
notify_at k j q h = get_elem?-map notify k.ptable j q h

-- While its count is above 0, a process that sleeps on the ticks sleeps on with one tick less.
notify-suc :
    (q : Proc) (n : ℕ)
    → sleeps_on ticks_addr q ≡ true
    → q.sleepticks ≡ pos (suc n)
    → notify q ≡ record q { sleepticks = pos n }
unfolding notify
notify-suc q n s e = ground arith

notify-zero :
    (q : Proc)
    → sleeps_on ticks_addr q ≡ true
    → q.sleepticks ≡ pos 0
    → notify q ≡ record q { state = runnable }
unfolding notify
notify-zero q s e = ground arith

-- A process that sleeps on the ticks with a count of `n` is still asleep after `n` timer
-- interrupts, and its count is then 0.
pub asleep_for :
    (n : ℕ) (k : Kernel) (j : ℕ) (q : Proc)
    → get_elem? k.ptable j ≡ some q
    → sleeps_on ticks_addr q ≡ true
    → q.sleepticks ≡ pos n
    → get_elem? (ticks_after n k).ptable j ≡ some (record q { sleepticks = pos 0 })
asleep_for zero k j q h s e = ground arith
asleep_for (suc n) k j q h s e =
    asleep_for n (timer_tick k) j (record q { sleepticks = pos n })
      (notify_at k j q h ∙ ap some (notify-suc q n s e)) s refl

ticks_after-suc : (n : ℕ) (k : Kernel) → ticks_after (suc n) k ≡ timer_tick (ticks_after n k)
ticks_after-suc zero k = refl
ticks_after-suc (suc n) k = ticks_after-suc n (timer_tick k)

-- A process that sleeps on the ticks with a count of `n` is made runnable by the timer interrupt
-- numbered `n + 1`.
pub woken_after :
    (n : ℕ) (k : Kernel) (j : ℕ) (q : Proc)
    → get_elem? k.ptable j ≡ some q
    → sleeps_on ticks_addr q ≡ true
    → q.sleepticks ≡ pos n
    → get_elem? (ticks_after (suc n) k).ptable j
      ≡ some (record q { sleepticks = pos 0; state = runnable })
woken_after n k j q h s e =
    let late : Proc = record q { sleepticks = pos 0 } in
    rw (ticks_after-suc n k) (
      notify_at (ticks_after n k) j late (asleep_for n k j q h s e)
      ∙ ap some (notify-zero late s refl))
