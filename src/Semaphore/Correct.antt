-- ===== src/Semaphore/Correct.antt =====
-- task.c: semaphore_signal does not lose a wake-up.
use scal_ux.Prelude.{
  ==_iff, Bool, Bool-cases, List, [], ap, arith, bit, count, false, inl, inr, none, refl, subst,
  suc, sym, tally, tally_one, true, update, zero, ℕ, ◌+◌, ◌-◌, ◌<◌, ◌==◌, ◌^◌, ◌∙◌, ◌∷◌, ◌≡◌, ◌≢◌,
  ◌≤◌,
}
use scal_ux.Semaphore.{
  Leads, Semaphore, Stage, Step, and_then, none_yet, outside, queueing, queues, semaphore_init,
  signal_wake, signalling, signals, sleeping, waits, wakes,
}
use scal_ux.Semaphore.Invariant.{
  Inv, debt, is_blocked, is_queueing, is_signalling, is_sleeping, semaphore_init-Inv, signal_up-Inv,
  update-Moved, wait_down-Inv, wait_queue-Inv,
}

sleeping_stage : (p : Stage) → is_sleeping p ≡ true → p ≡ sleeping
sleeping_stage outside h = cc
sleeping_stage queueing h = cc
sleeping_stage sleeping h = refl
sleeping_stage signalling h = cc

module _ (n : ℕ) (s : Semaphore) (inv : Inv n s) (t : ℕ) (low : t < n) where
  wake_one-Inv :
      (w : ℕ) (rest : List ℕ)
      → s.stage t ≡ signalling
      → s.waiters ≡ w ∷ rest
      → Inv n (record s { waiters = rest; stage = update (update s.stage t outside) w outside })
  wake_one-Inv w rest e q =
      let c : (u : ℕ) → count u s.waiters ≡ bit (u == w) + count u rest = λ u. rw q refl in
      let on : is_sleeping (s.stage w) ≡ true = ground (arith, inv.queued w, c w) in
      let at : s.stage w ≡ sleeping = sleeping_stage (s.stage w) on in
      let low' : w < n = ground (arith, inv.queued w, c w) in
      let once : count w rest ≡ 0 = ground (arith, inv.queued w, c w) in
      let apart : (t == w) ≡ false = elim (Bool-cases (t == w)) [
        | inl same ↦
            let f : true ≡ false =
              ap is_signalling (sym e ∙ ap s.stage ((==_iff t w).0 same) ∙ at) in
            absurd cc
        | inr other ↦ other
      ] in
      let v = update-Moved n s.stage t signalling outside low e in
      let v' =
        update-Moved n (update s.stage t outside) w sleeping outside low'
          (ground (arith, apart, at)) in
      record {
        few = inv.few;
        int = inv.int;
        balanced = omega (arith, v.blocked, v.wakers, v'.blocked, v'.wakers, inv.balanced);
        locked = λ u l. ground (arith, inv.locked u l, e, at);
        queued = λ u. ground (arith, inv.queued u, e, c u, once);
      }

-- Where some of the first `n` pass the test, one of them can be named.
tally_some :
    (q : Stage → Bool) (f : ℕ → Stage) (n : ℕ)
    → 0 < tally q f n
    → (i : ℕ) × (i < n) × (q (f i) ≡ true)
unfolding tally
tally_some q f zero h = absurd (omega arith)
tally_some q f (suc n) h = elim (Bool-cases (q (f n))) [
  | inl on ↦ (n, omega arith, on)
  | inr off ↦ let (i, low, on) = tally_some q f n (ground (arith, h, off)) in (i, omega arith, on)
]

blocked_sleeps : (p : Stage) → is_blocked p ≡ true → is_queueing p ≡ false → is_sleeping p ≡ true
blocked_sleeps outside b q = cc
blocked_sleeps queueing b q = cc
blocked_sleeps sleeping b q = refl
blocked_sleeps signalling b q = cc

some_waiter :
    (n : ℕ) (s : Semaphore) (t : ℕ)
    → Inv n s
    → t < n
    → s.stage t ≡ signalling
    → s.lock ≡ none
    → s.waiters ≢ []
some_waiter n s t inv low e free q =
    let one : 1 ≤ tally is_signalling s.stage n =
      subst (λ p. bit (is_signalling p) ≤ tally is_signalling s.stage n) e
        (tally_one is_signalling s.stage t n low) in
    let (i, low', on) = tally_some is_blocked s.stage n (omega (arith, inv.balanced)) in
    let not_queueing : is_queueing (s.stage i) ≡ false = inv.locked i low' ∙ rw free refl in
    let asleep = blocked_sleeps (s.stage i) on not_queueing in
    let c : count i s.waiters ≡ 1 = ground (arith, inv.queued i, asleep) in
    let z : count i s.waiters ≡ 0 = rw q refl in omega arith

signal_wake-Inv :
    (n : ℕ) (s : Semaphore) (t : ℕ) (l : List ℕ)
    → Inv n s
    → t < n
    → s.stage t ≡ signalling
    → s.lock ≡ none
    → s.waiters ≡ l
    → Inv n (signal_wake t l s)
unfolding signal_wake
signal_wake-Inv n s t [] inv low e free q = absurd (some_waiter n s t inv low e free q)
signal_wake-Inv n s t (w ∷ rest) inv low e free q = wake_one-Inv n s inv t low w rest e q

Step-Inv : (n : ℕ) (s k : Semaphore) → Inv n s → Step n s k → Inv n k
Step-Inv n s k inv (waits t low e free) = wait_down-Inv n s inv t low e free
Step-Inv n s k inv (queues t low e) = wait_queue-Inv n s inv t low e
Step-Inv n s k inv (signals t low e room) = signal_up-Inv n s inv t low e room
Step-Inv n s k inv (wakes t low e free) = signal_wake-Inv n s t s.waiters inv low e free refl

pub Leads-Inv : (n : ℕ) (s k : Semaphore) → Inv n s → Leads n s k → Inv n k
Leads-Inv n s k inv none_yet = inv
Leads-Inv n s k inv (and_then {k = j} l step) = Step-Inv n j k (Leads-Inv n s j inv l) step

-- Whatever fewer than 2^31 - 1 threads do with a semaphore that starts at 0 or more, a thread that is
-- about to wake a waiter, and may take the lock, finds one.
pub semaphore_signal_wakes :
    (n c t : ℕ) (k : Semaphore)
    → n < 2 ^ 31 - 1
    → c < 2 ^ 31
    → Leads n (semaphore_init c) k
    → t < n
    → k.stage t ≡ signalling
    → k.lock ≡ none
    → k.waiters ≢ []
semaphore_signal_wakes n c t k few start l low e free =
    some_waiter n k t (Leads-Inv n (semaphore_init c) k (semaphore_init-Inv n c few start) l) low e
      free

-- Whatever fewer than 2^31 - 1 threads do with a semaphore that starts at 0 or more, as many are
-- blocked in semaphore_wait as the count is below 0, and one for each wake-up on its way.
pub semaphore_balance :
    (n c : ℕ) (k : Semaphore)
    → n < 2 ^ 31 - 1
    → c < 2 ^ 31
    → Leads n (semaphore_init c) k
    → tally is_blocked k.stage n ≡ debt k.count + tally is_signalling k.stage n
semaphore_balance n c k few start l =
    let v = Leads-Inv n (semaphore_init c) k (semaphore_init-Inv n c few start) l in v.balanced
