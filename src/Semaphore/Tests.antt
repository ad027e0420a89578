-- ===== src/Semaphore/Tests.antt =====
-- Two threads and a semaphore.
use scal_ux.Semaphore.Invariant.{is_blocked, is_signalling, debt}
use scal_ux.Prelude.{[], arith, refl, tally, ◌+◌, ◌≡◌, ◌≢◌}
use scal_ux.Semaphore.{
  Leads, Semaphore, and_then, none_yet, queues, semaphore_init, signal_up, signals, wait_down,
  wait_queue, waits,
}
use scal_ux.Semaphore.Correct.{semaphore_balance, semaphore_signal_wakes}

-- Thread 1 waits for thread 0, which has counted its signal.
abbrev signalled : Semaphore
signalled = signal_up 0 (wait_queue 1 (wait_down 1 (semaphore_init 0)))

signalled-Leads : Leads 2 (semaphore_init 0) signalled
unfolding semaphore_init wait_down wait_queue signal_up
signalled-Leads =
    and_then
      (and_then (and_then none_yet (waits 1 (omega arith) refl refl)) (queues 1 (omega arith) refl))
      (signals 0 (omega arith) refl (omega arith))

semaphore_signal_wakes_example : signalled.waiters ≢ []
unfolding semaphore_init wait_down wait_queue signal_up
semaphore_signal_wakes_example =
    semaphore_signal_wakes 2 0 0 signalled (omega arith) (omega arith) signalled-Leads (omega arith)
      refl refl

semaphore_balance_example :
    tally is_blocked signalled.stage 2
    ≡ debt signalled.count + tally is_signalling signalled.stage 2
semaphore_balance_example =
    semaphore_balance 2 0 signalled (omega arith) (omega arith) signalled-Leads
