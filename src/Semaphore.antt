-- ===== src/Semaphore.antt =====
-- task.c: semaphore_wait and semaphore_signal on one semaphore, by any number of threads. The count is
-- an `int` as 32 bits. A step is one atomic operation; the lock of the wait queue is held from the
-- count to the queue in semaphore_wait, and for a whole wake-up.
pub mod Invariant
pub mod Correct
mod Tests
use scal_ux.Prelude.{
  List, Option, [], if◌then◌else◌, leb, none, some, update, ℕ, ◌%◌, ◌++◌, ◌+◌, ◌-◌, ◌<◌, ◌==◌, ◌^◌,
  ◌||◌, ◌∷◌, ◌≡◌, ◌≢◌,
}

-- How far a thread is in its call.
pub data Stage : Type 0 where
  outside : Stage
  -- In semaphore_wait, with the lock, about to join the wait queue; then on it.
  queueing : Stage
  sleeping : Stage
  -- In semaphore_signal, about to wake a waiter.
  signalling : Stage

pub record Semaphore : Type 0 where
  pub count : ℕ
  pub lock : Option ℕ
  pub waiters : List ℕ
  pub stage : ℕ → Stage

-- The semaphore of SEMAPHORE_INITIALIZER has the count 0.
unfoldable pub semaphore_init : ℕ → Semaphore
semaphore_init count = record { count = count; lock = none; waiters = []; stage = λ _. outside }

-- `--sem->count < 0`, with the lock taken before.
unfoldable pub wait_down : ℕ → Semaphore → Semaphore
wait_down t s =
    let count = (s.count + (2 ^ 32 - 1)) % 2 ^ 32 in
    if leb (2 ^ 31) count
    then record s { count = count; lock = some t; stage = update s.stage t queueing }
    else record s { count = count }

-- waitq_await_locked, which unlocks the queue.
unfoldable pub wait_queue : ℕ → Semaphore → Semaphore
wait_queue t s = record s {
  lock = none;
  waiters = s.waiters ++ t ∷ [];
  stage = update s.stage t sleeping;
}

-- `++sem->count <= 0`, without the lock.
unfoldable pub signal_up : ℕ → Semaphore → Semaphore
signal_up t s =
    let count = (s.count + 1) % 2 ^ 32 in
    if count == 0 || leb (2 ^ 31) count
    then record s { count = count; stage = update s.stage t signalling }
    else record s { count = count }

-- waitq_wake_one: the first waiter returns from semaphore_wait.
unfoldable pub signal_wake : ℕ → List ℕ → Semaphore → Semaphore
signal_wake t [] s = record s { stage = update s.stage t outside }
signal_wake t (w ∷ rest) s = record s {
  waiters = rest;
  stage = update (update s.stage t outside) w outside;
}

-- One step of one of `n` threads. The lock is waited for, and the count does not pass the largest int.
pub data Step (n : ℕ) (s : Semaphore) : Semaphore → Type 0 where
  waits : (t : ℕ) → t < n → s.stage t ≡ outside → s.lock ≡ none → Step n s (wait_down t s)
  queues : (t : ℕ) → t < n → s.stage t ≡ queueing → Step n s (wait_queue t s)
  signals : (t : ℕ) → t < n → s.stage t ≡ outside → s.count ≢ 2 ^ 31 - 1 → Step n s (signal_up t s)
  wakes :
      (t : ℕ)
      → t < n
      → s.stage t ≡ signalling
      → s.lock ≡ none
      → Step n s (signal_wake t s.waiters s)

pub data Leads (n : ℕ) (s : Semaphore) : Semaphore → Type 0 where
  none_yet : Leads n s s
  and_then : {k k' : Semaphore} → Leads n s k → Step n k k' → Leads n s k'
