-- ===== src/Sched.antt =====
-- task.c: the scheduler. Threads and processors are numbers; the scheduler's lock is held for each
-- call, which is one step. Switching stacks (md_switch) is the change of the current thread.
pub mod Correct
mod Tests
use scal_ux.Callout.{Cpu, callout_enqueue}
use scal_ux.Prelude.{
  Bool, List, Option, [], assert, false, if◌then◌else◌, leb, some, true, update, ℕ, ◌++◌, ◌+◌, ◌==◌,
  ◌>>=◌, ◌>>◌, ◌∷◌,
}

-- enum thread_state
pub data ThreadState : Type 0 where
  runnable : ThreadState
  running : ThreadState
  waiting : ThreadState
  exiting : ThreadState

-- The fields of the processors, the threads, and what nextcpu keeps.
pub record Sched : Type 0 where
  pub runqueue : ℕ → List ℕ
  pub curthread : ℕ → ℕ
  pub idlethread : ℕ → ℕ
  pub in_interrupt : ℕ → Bool
  pub preempted : ℕ → Bool
  -- The callouts of each processor, and the number of the one that ends its time slices.
  pub callouts : ℕ → Cpu
  pub timeslicer : ℕ → ℕ
  pub state : ℕ → ThreadState
  pub cpu_of : ℕ → ℕ
  pub lastcpu : ℕ
  pub ncpu : ℕ
  -- The processors that were sent md_ipi_resched, the last first.
  pub ipis : List ℕ

unfoldable pub nextcpu : Sched → ℕ × Sched
nextcpu s =
    let last = if leb s.ncpu (s.lastcpu + 1) then 0 else s.lastcpu + 1 in
    (last, record s { lastcpu = last })

-- The part of thread_new that the scheduler sees.
unfoldable pub thread_new : ℕ → Sched → Sched
thread_new thread s =
    let (cpu, s') = nextcpu s in
    record s' { state = update s'.state thread runnable; cpu_of = update s'.cpu_of thread cpu }

-- The thread to run next, taken off the run queue.
unfoldable pub first_thread : ℕ → ℕ → List ℕ → Sched → ℕ × Sched
first_thread cpu idle [] s = (idle, s)
first_thread cpu idle (cand ∷ rest) s = (cand, record s { runqueue = update s.runqueue cpu rest })

unfoldable pub sched_next : ℕ → Sched → ℕ × Sched
sched_next cpu s = first_thread cpu (s.idlethread cpu) (s.runqueue cpu) s

-- What becomes of the thread that has run, by its state.
unfoldable pub put_by_state : ThreadState → ℕ → ℕ → Sched → Sched
put_by_state running cpu old s = record s {
  runqueue = update s.runqueue cpu (s.runqueue cpu ++ old ∷ []);
}
put_by_state runnable cpu old s = s
put_by_state waiting cpu old s = s
put_by_state exiting cpu old s = s

abbrev pub is_running : ThreadState → Bool
is_running running = true
is_running _ = false

-- The idle thread is to be running, and is on no queue.
unfoldable pub put_old : ℕ → ℕ → Sched → Option Sched
put_old cpu old s =
    if old == s.idlethread cpu
    then (do assert (is_running (s.state old)); some s)
    else some (put_by_state (s.state old) cpu old s)

-- NS_PER_S
abbrev pub ns_per_s : ℕ
ns_per_s = 1000000000

-- The time slice of a second, unless one is counting. `remains` is what the timer has left.
unfoldable pub start_slice : ℕ → ℕ → Cpu → Option Cpu
start_slice remains slicer callouts =
    if callouts.pending slicer
    then some callouts
    else callout_enqueue remains (record { id = slicer; nanosecs = ns_per_s }) callouts

unfoldable pub switch_to : ℕ → ℕ → ℕ × Sched → Option Sched
switch_to remains cpu (next, s) = do
  callouts ← start_slice remains (s.timeslicer cpu) (s.callouts cpu)
  some (record s {
    state = update s.state next running;
    callouts = update s.callouts cpu callouts;
    curthread = update s.curthread cpu next;
  })

unfoldable pub sched_reschedule : ℕ → ℕ → Sched → Option Sched
sched_reschedule remains cpu s = do
  s' ← put_old cpu (s.curthread cpu) s
  switch_to remains cpu (sched_next cpu s')

unfoldable pub thread_resume : ℕ → ℕ → ℕ → Sched → Option Sched
thread_resume remains curcpu thread s =
    let cpu = s.cpu_of thread in
    let ready = record s {
      state = update s.state thread runnable;
      runqueue = update s.runqueue cpu (thread ∷ s.runqueue cpu);
    } in
    if cpu == curcpu
    then if s.in_interrupt cpu
      then some (record ready { preempted = update s.preempted cpu true })
      else sched_reschedule remains cpu ready
    else some (record ready { ipis = cpu ∷ s.ipis })

unfoldable pub sched_timeslice : ℕ → Sched → Sched
sched_timeslice curcpu s = record s { preempted = update s.preempted curcpu true }
