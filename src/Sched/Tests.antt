-- ===== src/Sched/Tests.antt =====
-- One processor with two threads besides the idle thread.
use scal_ux.Callout.{Cpu}
use scal_ux.Prelude.{[], arith, false, if◌then◌else◌, refl, some, ◌<◌, ◌==◌, ◌∷◌, ◌≡◌}
use scal_ux.Sched.{Sched, runnable, running, sched_reschedule, thread_new}
use scal_ux.Sched.Correct.{Switched, sched_reschedule-Switched, thread_new_lem}

abbrev no_callouts : Cpu
no_callouts = record { pendingcallouts = []; timer = 0; pending = λ i. false }

abbrev two_threads : Sched
two_threads = record {
  runqueue = λ c. 2 ∷ [];
  curthread = λ c. 1;
  idlethread = λ c. 0;
  in_interrupt = λ c. false;
  preempted = λ c. false;
  callouts = λ c. no_callouts;
  timeslicer = λ c. 0;
  state = λ t. if t == 1 then running else runnable;
  cpu_of = λ t. 0;
  lastcpu = 0;
  ncpu = 1;
  ipis = [];
}

sched_reschedule-Switched_example :
    (t : Sched) × (sched_reschedule 5 0 two_threads ≡ some t) × Switched 5 0 two_threads t
sched_reschedule-Switched_example =
    sched_reschedule-Switched 5 0 two_threads refl (omega arith) (λ off. tt)

thread_new_lem_example : (thread_new 3 two_threads).cpu_of 3 < two_threads.ncpu
thread_new_lem_example = thread_new_lem 3 two_threads (omega arith)
