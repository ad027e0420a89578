-- ===== src/Sync/Mutex/Correct.antt =====
-- task.c: what mutex_lock and mutex_unlock guarantee, and where they wait for ever.
use scal_ux.Prelude.{
  ==_iff, Bool-cases, ap, arith, bit, false, inl, inr, leb, refl, subst, sym, tally, tally_one,
  tally_two, true, update, ℕ, ◌+◌, ◌<◌, ◌==◌, ◌^◌, ◌∙◌, ◌≡◌, ◌≢◌, ◌≤◌,
}
use scal_ux.Sync.Mutex.{
  Mutex, Place, Reaches, Turn, entering, goes, here, holding, idle, joining, lock_arrive,
  mutex_init, panics, releasing, stays, step, step_at, then_step, waiting, waitq_await, waking,
}
use scal_ux.Sync.Mutex.Invariant.{Inv, is_counted, is_given, mutex_init-Inv, tally-le, update-Moved}
use scal_ux.Sync.Mutex.Steps.{
  lock_arrive-Inv, lock_own-Inv, unlock_disown-Inv, unlock_leave-Inv, waitq_await-Inv,
  waitq_wake_one-Inv,
}

-- A turn that is no panic, and after which the invariant holds.
pub data Fine (n : ℕ) : Turn → Type 0 where
  blocked : Fine n stays
  moved : (k : Mutex) → Inv n k → Fine n (goes k)

step_at-Fine :
    (n : ℕ) (m : Mutex) (t : ℕ) (p : Place)
    → Inv n m
    → t < n
    → m.place t ≡ p
    → Fine n (step_at p t m)
unfolding step_at
step_at-Fine n m t idle inv low e = moved _ (lock_arrive-Inv n m inv t low e)
step_at-Fine n m t joining inv low e = moved _ (waitq_await-Inv n m inv t low e)
step_at-Fine n m t waiting inv low e = blocked
step_at-Fine n m t entering inv low e =
    let (k, run, v) = lock_own-Inv n m inv t low e in rw run (moved k v)
step_at-Fine n m t holding inv low e =
    let (k, run, v) = unlock_disown-Inv n m inv t low e in rw run (moved k v)
step_at-Fine n m t releasing inv low e = moved _ (unlock_leave-Inv n m inv t low e)
step_at-Fine n m t waking inv low e = moved _ (waitq_wake_one-Inv n m inv t low e)

step-Fine : (n : ℕ) (m : Mutex) (t : ℕ) → Inv n m → t < n → Fine n (step t m)
unfolding step
step-Fine n m t inv low = step_at-Fine n m t (m.place t) inv low refl

abbrev pub after : Mutex → Turn → Mutex
after d stays = d
after d panics = d
after d (goes k) = k

goes_on : (n : ℕ) (r : Turn) (k : Mutex) → Fine n r → r ≡ goes k → Inv n k
goes_on n r k blocked e = cc
goes_on n r k (moved k' v) e = subst (Inv n) (ap (after k) e) v

pub Reaches-Inv : (n : ℕ) (m k : Mutex) → Inv n m → Reaches n m k → Inv n k
Reaches-Inv n m k inv here = inv
Reaches-Inv n m k inv (then_step {k = j} t r low run) =
    goes_on n _ k (step-Fine n j t (Reaches-Inv n m j inv r) low) run

no_panic : (n : ℕ) (r : Turn) → Fine n r → r ≢ panics
no_panic n r blocked e = cc
no_panic n r (moved k v) e = cc

-- Whatever fewer than 2^32 threads do with a new mutex, no assertion on its owner fails: not that a
-- thread which was let in finds no owner, and not that the thread which unlocks is the owner.
pub mutex_never_panics :
    (n t : ℕ) (k : Mutex) → n < 2 ^ 32 → Reaches n mutex_init k → t < n → step t k ≢ panics
mutex_never_panics n t k few r low =
    no_panic n _ (step-Fine n k t (Reaches-Inv n mutex_init k (mutex_init-Inv n few) r) low)

-- Whatever fewer than 2^32 threads do with a new mutex, at most one of them holds it.
pub mutex_excludes :
    (n t u : ℕ) (k : Mutex)
    → n < 2 ^ 32
    → Reaches n mutex_init k
    → t < n
    → u < n
    → k.place t ≡ holding
    → k.place u ≡ holding
    → t ≡ u
mutex_excludes n t u k few r low low' a b = elim (Bool-cases (t == u)) [
  | inl same ↦ (==_iff t u).0 same
  | inr other ↦
      let inv = Reaches-Inv n mutex_init k (mutex_init-Inv n few) r in
      let two : bit (is_given (k.place t)) + bit (is_given (k.place u)) ≤ tally is_given k.place n =
        tally_two is_given k.place t u n low low' (λ e. ground (arith, other)) in
      let both : 2 ≤ tally is_given k.place n = rw (a, b) at two in
      absurd (omega (arith, both, inv.given_once))
]

-- The mutex counts threads but is given to none.
pub record Lost (n : ℕ) (m : Mutex) : Type 0 where
  pub inv : Inv n m
  pub to_none : tally is_given m.place n ≡ 0
  pub claimed : 0 < m.count

Lost-place : (n : ℕ) (m : Mutex) (t : ℕ) → Lost n m → t < n → is_given (m.place t) ≡ false
Lost-place n m t l low = ground (arith, tally_one is_given m.place t n low, l.to_none)

Lost-lock_arrive :
    (n : ℕ) (m : Mutex) (t : ℕ) → Lost n m → t < n → m.place t ≡ idle → Lost n (lock_arrive t m)
unfolding lock_arrive
Lost-lock_arrive n m t l low e =
    let busy : leb 1 m.count ≡ true = ground (arith, l.claimed) in
    let v = update-Moved n m.place t idle joining low e in
    record {
      inv = lock_arrive-Inv n m l.inv t low e;
      to_none = rw busy (omega (arith, v.given, l.to_none));
      claimed = ground (
        arith,
        l.inv.counted,
        v.counted,
        l.inv.few,
        tally-le is_counted (update m.place t joining) n,
      );
    }

Lost-waitq_await :
    (n : ℕ) (m : Mutex) (t : ℕ) → Lost n m → t < n → m.place t ≡ joining → Lost n (waitq_await t m)
unfolding waitq_await
Lost-waitq_await n m t l low e =
    let v = update-Moved n m.place t joining waiting low e in
    record {
      inv = waitq_await-Inv n m l.inv t low e;
      to_none = omega (arith, v.given, l.to_none);
      claimed = l.claimed;
    }

given_no_more :
    (n : ℕ) (m : Mutex) (t : ℕ) (p : Place)
    → Lost n m
    → t < n
    → m.place t ≡ p
    → is_given p ≡ true
    → ⊥
given_no_more n m t p l low e g =
    let f : true ≡ false = sym g ∙ ap is_given (sym e) ∙ Lost-place n m t l low in absurd cc

Lost-step :
    (n : ℕ) (m k : Mutex) (t : ℕ) (p : Place)
    → Lost n m
    → t < n
    → m.place t ≡ p
    → step_at p t m ≡ goes k
    → Lost n k
unfolding step_at
Lost-step n m k t idle l low e run =
    subst (Lost n) (ap (after m) run) (Lost-lock_arrive n m t l low e)
Lost-step n m k t joining l low e run =
    subst (Lost n) (ap (after m) run) (Lost-waitq_await n m t l low e)
Lost-step n m k t waiting l low e run = cc
Lost-step n m k t entering l low e run = absurd (given_no_more n m t entering l low e refl)
Lost-step n m k t holding l low e run = absurd (given_no_more n m t holding l low e refl)
Lost-step n m k t releasing l low e run = absurd (given_no_more n m t releasing l low e refl)
Lost-step n m k t waking l low e run = absurd (given_no_more n m t waking l low e refl)

Lost-Reaches : (n : ℕ) (m k : Mutex) → Lost n m → Reaches n m k → Lost n k
unfolding step
Lost-Reaches n m k l here = l
Lost-Reaches n m k l (then_step {k = j} t r low run) =
    Lost-step n j k t (j.place t) (Lost-Reaches n m j l r) low refl run

-- From a state with the invariant in which a mutex counts threads but is given to none, no thread
-- ever holds it again, whatever the threads do.
pub mutex_stuck : (n t : ℕ) (m k : Mutex) → Lost n m → Reaches n m k → t < n → k.place t ≢ holding
mutex_stuck n t m k l r low e = given_no_more n k t holding (Lost-Reaches n m k l r) low e refl
