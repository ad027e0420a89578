-- ===== src/Sync/Tests.antt =====
-- Two threads and a mutex.
use scal_ux.Prelude.{arith, refl, tally, ℕ, ◌≡◌, ◌≢◌}
use scal_ux.Sync.Mutex.{
  Mutex, Reaches, here, holding, lock_arrive, lock_own, mutex_init, panics, step, step_at,
  then_step, unlock_disown, unlock_leave, waitq_wake_one, wake_first,
}
use scal_ux.Sync.Mutex.Correct.{
  Lost, Reaches-Inv, after, mutex_excludes, mutex_never_panics, mutex_stuck,
}
use scal_ux.Sync.Mutex.Invariant.{mutex_init-Inv}

abbrev play_step : (t : ℕ) (m : Mutex) → Mutex
play_step t m = after m (step t m)

-- Thread 0 holds the mutex.
held : Mutex
held = play_step 0 (play_step 0 mutex_init)

held-Reaches : Reaches 2 mutex_init held
unfolding held step step_at lock_arrive lock_own mutex_init
held-Reaches = then_step 0 (then_step 0 here (omega arith) refl) (omega arith) refl

-- Thread 1 has counted itself, and thread 0 has unlocked the mutex and found no waiter to wake.
lost : Mutex
unfolding held
lost = play_step 0 (play_step 0 (play_step 0 (play_step 1 held)))

lost-Reaches : Reaches 2 mutex_init lost
unfolding lost held step step_at lock_arrive lock_own unlock_disown unlock_leave waitq_wake_one
    wake_first mutex_init
lost-Reaches =
    then_step 0
      (then_step 0 (then_step 0 (then_step 1 held-Reaches (omega arith) refl) (omega arith) refl)
        (omega arith) refl)
      (omega arith) refl

lost-Lost : Lost 2 lost
unfolding lost held step step_at lock_arrive lock_own unlock_disown unlock_leave waitq_wake_one
    wake_first mutex_init tally
lost-Lost = record {
  inv = Reaches-Inv 2 mutex_init lost (mutex_init-Inv 2 (omega arith)) lost-Reaches;
  to_none = refl;
  claimed = omega arith;
}

mutex_never_panics_example : step 0 held ≢ panics
mutex_never_panics_example = mutex_never_panics 2 0 held (omega arith) held-Reaches (omega arith)

mutex_excludes_example : ◌≡◌ {A = ℕ} 0 0
unfolding held step step_at lock_arrive lock_own mutex_init
mutex_excludes_example =
    mutex_excludes 2 0 0 held (omega arith) held-Reaches (omega arith) (omega arith) refl refl

mutex_stuck_example : lost.place 1 ≢ holding
mutex_stuck_example = mutex_stuck 2 1 lost lost lost-Lost here (omega arith)
