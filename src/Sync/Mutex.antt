-- ===== src/Sync/Mutex.antt =====
-- task.c: mutex_lock, mutex_unlock, waitq_await and waitq_wake_one on one mutex, by any number of
-- threads. A step is one atomic operation on the mutex, or one use of the wait queue under its lock;
-- between two steps any other thread may run.
pub mod Invariant
pub mod Steps
pub mod Correct
use scal_ux.Prelude.{
  List, Option, [], if◌then◌else◌, leb, ltb, none, owns, some, update, ℕ, ◌%◌, ◌++◌, ◌+◌, ◌-◌, ◌<◌,
  ◌^◌, ◌∷◌, ◌≡◌,
}

-- How far a thread is in its call.
pub data Place : Type 0 where
  -- Outside.
  idle : Place
  -- In mutex_lock, after a count that was not 0; then on the wait queue.
  joining : Place
  waiting : Place
  -- In mutex_lock, about to become the owner.
  entering : Place
  -- The owner, outside both calls.
  holding : Place
  -- In mutex_unlock, no longer the owner; then with a waiter to wake.
  releasing : Place
  waking : Place

pub record Mutex : Type 0 where
  pub owner : Option ℕ
  pub waiters : List ℕ
  pub count : ℕ
  -- The threads.
  pub place : ℕ → Place

-- MUTEX_INITIALISER
unfoldable pub mutex_init : Mutex
mutex_init = record { owner = none; waiters = []; count = 0; place = λ _. idle }

-- What a step of a thread does: it waits to be woken, fails an assertion, or goes on.
pub data Turn : Type 0 where
  stays : Turn
  panics : Turn
  goes : Mutex → Turn

-- `atomic_fetch_add(&mtx->count, 1) >= 1`
unfoldable pub lock_arrive : ℕ → Mutex → Mutex
lock_arrive t m = record m {
  count = (m.count + 1) % 2 ^ 32;
  place = update m.place t (if leb 1 m.count then joining else entering);
}

-- waitq_await: the thread goes to the tail of the queue and gives the processor up.
unfoldable pub waitq_await : ℕ → Mutex → Mutex
waitq_await t m = record m { waiters = m.waiters ++ t ∷ []; place = update m.place t waiting }

-- The exchange of no owner for the thread.
unfoldable pub lock_own : ℕ → Mutex → Turn
lock_own t m = elim m.owner [
  | none ↦ goes (record m { owner = some t; place = update m.place t holding })
  | some u ↦ panics
]

unfoldable pub unlock_disown : ℕ → Mutex → Turn
unlock_disown t m =
    if owns t m.owner
    then goes (record m { owner = none; place = update m.place t releasing })
    else panics

-- `atomic_fetch_sub(&mtx->count, 1) > 1`
unfoldable pub unlock_leave : ℕ → Mutex → Mutex
unlock_leave t m = record m {
  count = (m.count + (2 ^ 32 - 1)) % 2 ^ 32;
  place = update m.place t (if ltb 1 m.count then waking else idle);
}

-- The first waiter is woken, if there is one.
unfoldable pub wake_first : ℕ → List ℕ → Mutex → Mutex
wake_first t [] m = record m { place = update m.place t idle }
wake_first t (w ∷ rest) m = record m {
  waiters = rest;
  place = update (update m.place t idle) w entering;
}

unfoldable pub waitq_wake_one : ℕ → Mutex → Mutex
waitq_wake_one t m = wake_first t m.waiters m

-- The next step of a thread: a thread outside takes the lock, and an owner gives it up.
unfoldable pub step_at : Place → ℕ → Mutex → Turn
step_at idle t m = goes (lock_arrive t m)
step_at joining t m = goes (waitq_await t m)
step_at waiting t m = stays
step_at entering t m = lock_own t m
step_at holding t m = unlock_disown t m
step_at releasing t m = goes (unlock_leave t m)
step_at waking t m = goes (waitq_wake_one t m)

unfoldable pub step : ℕ → Mutex → Turn
step t m = step_at (m.place t) t m

-- The states that `n` threads can bring about from one.
pub data Reaches (n : ℕ) (m : Mutex) : Mutex → Type 0 where
  here : Reaches n m m
  then_step : {k k' : Mutex} (t : ℕ) → Reaches n m k → t < n → step t k ≡ goes k' → Reaches n m k'
