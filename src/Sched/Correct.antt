-- ===== src/Sched/Correct.antt =====
-- task.c: rescheduling goes round the run queue.
use scal_ux.Callout.{Cpu}
use scal_ux.Callout.Enqueue.{Enqueued, IsTicking, callout_enqueue-Enqueued}
use scal_ux.Prelude.{
  Bool-cases, List, [], ap, arith, false, if◌then◌else◌, inl, inr, refl, some, subst, sym, true,
  update, ℕ, ◌++◌, ◌<◌, ◌==◌, ◌>>=◌, ◌∙◌, ◌∷◌, ◌≡◌, ◌≢◌,
}
use scal_ux.Sched.{
  Sched, first_thread, nextcpu, ns_per_s, put_by_state, put_old, running, sched_next,
  sched_reschedule, start_slice, switch_to, thread_new,
}

-- The callout of the time slice was counting already, or has been enqueued for a second.
pub data SliceStarted (remains slicer : ℕ) (c c' : Cpu) : Type 0 where
  counting : c.pending slicer ≡ true → c' ≡ c → SliceStarted remains slicer c c'
  started :
      c.pending slicer ≡ false
      → Enqueued remains (record { id = slicer; nanosecs = ns_per_s }) c c'
      → SliceStarted remains slicer c c'

-- What sched_reschedule does to the threads of a processor: the thread that has run goes behind those on
-- the run queue, and the first of them all is taken off and runs. The time slice is counting.
pub record Switched (remains cpu : ℕ) (s t : Sched) : Type 0 where
  pub rotated : t.curthread cpu ∷ t.runqueue cpu ≡ s.runqueue cpu ++ s.curthread cpu ∷ []
  pub now_running : t.state (t.curthread cpu) ≡ running
  pub other_states : (x : ℕ) → (t.curthread cpu == x) ≡ false → t.state x ≡ s.state x
  pub other_cpus :
      (c : ℕ)
      → (cpu == c) ≡ false
      → (t.curthread c ≡ s.curthread c)
        × (t.runqueue c ≡ s.runqueue c)
        × (t.callouts c ≡ s.callouts c)
  pub slice : SliceStarted remains (s.timeslicer cpu) (s.callouts cpu) (t.callouts cpu)

self : (a : ℕ) → (a == a) ≡ true
self a = ground arith

start_slice-SliceStarted :
    (remains slicer : ℕ) (c : Cpu)
    → (c.pending slicer ≡ false → IsTicking remains c.pendingcallouts)
    → (c' : Cpu) × (start_slice remains slicer c ≡ some c') × SliceStarted remains slicer c c'
unfolding start_slice
start_slice-SliceStarted remains slicer c ticking = elim (Bool-cases (c.pending slicer)) [
  | inl on ↦ (c, rw on refl, counting on refl)
  | inr off ↦
      let (c', run, e) =
        callout_enqueue-Enqueued remains (record { id = slicer; nanosecs = ns_per_s }) c
          (omega arith) (ticking off) in
      (c', rw off run, started off e)
]

abbrev queued : ℕ → Sched → Sched
queued cpu s = record s {
  runqueue = update s.runqueue cpu (s.runqueue cpu ++ s.curthread cpu ∷ []);
}

queue_after :
    (cpu : ℕ) (s : Sched) → (queued cpu s).runqueue cpu ≡ s.runqueue cpu ++ s.curthread cpu ∷ []
queue_after cpu s = rw (self cpu) refl

-- A queue with one more behind is not empty.
has_head : (q : List ℕ) (old : ℕ) → (h : ℕ) × (rest : List ℕ) × (q ++ old ∷ [] ≡ h ∷ rest)
has_head [] old = (old, [], refl)
has_head (h ∷ q) old = (h, q ++ old ∷ [], refl)

module _ (remains cpu : ℕ) (s : Sched) (h : ℕ) (rest : List ℕ)
    (order : s.runqueue cpu ++ s.curthread cpu ∷ [] ≡ h ∷ rest) (c : Cpu) where
  abbrev switched : Sched
  switched = record s {
    runqueue = update (queued cpu s).runqueue cpu rest;
    state = update s.state h running;
    callouts = update s.callouts cpu c;
    curthread = update s.curthread cpu h;
  }

  switch_run :
      start_slice remains (s.timeslicer cpu) (s.callouts cpu) ≡ some c
      → switch_to remains cpu (sched_next cpu (queued cpu s)) ≡ some switched
  unfolding sched_next first_thread switch_to
  switch_run run =
      subst
        (λ l.
          switch_to remains cpu (first_thread cpu (s.idlethread cpu) l (queued cpu s))
          ≡ some switched)
        (sym (queue_after cpu s ∙ order)) (rw (run, ◌>>=◌) refl)

  switched-Switched :
      SliceStarted remains (s.timeslicer cpu) (s.callouts cpu) c → Switched remains cpu s switched
  switched-Switched slice = record {
    rotated = rw (self cpu) (sym order);
    now_running = rw (self cpu) (rw (self h) refl);
    other_states =
        λ x other. let other' : (h == x) ≡ false = rw (self cpu) at other in rw other' refl;
    other_cpus = λ k other. (rw other refl, rw other refl, rw other refl);
    slice =
        subst (λ x. SliceStarted remains (s.timeslicer cpu) (s.callouts cpu) x)
          (sym (ap (λ b. if b then c else s.callouts cpu) (self cpu))) slice;
  }

-- sched_reschedule from a thread that is running and not the idle thread, with no time slice to start or
-- a first callout that is still to come, does not panic. The thread goes behind those on the run queue, and
-- the first of them runs: it is taken off, and is marked running. The callout of the time slice is
-- counting, and nothing of other threads and processors has changed.
pub sched_reschedule-Switched :
    (remains cpu : ℕ) (s : Sched)
    → s.state (s.curthread cpu) ≡ running
    → s.curthread cpu ≢ s.idlethread cpu
    → ((s.callouts cpu).pending (s.timeslicer cpu) ≡ false
        → IsTicking remains (s.callouts cpu).pendingcallouts)
    → (t : Sched) × (sched_reschedule remains cpu s ≡ some t) × Switched remains cpu s t
unfolding sched_reschedule put_old put_by_state
sched_reschedule-Switched remains cpu s runs busy ticking =
    let other : (s.curthread cpu == s.idlethread cpu) ≡ false = ground (arith, busy) in
    let (h, rest, order) = has_head (s.runqueue cpu) (s.curthread cpu) in
    let (c, run, slice) =
      start_slice-SliceStarted remains (s.timeslicer cpu) (s.callouts cpu) ticking in
    (
      switched remains cpu s h rest order c,
      rw other (rw runs (switch_run remains cpu s h rest order c run)),
      switched-Switched remains cpu s h rest order c slice,
    )

-- Where there are processors, that of a new thread is one of them.
pub thread_new_lem :
    (thread : ℕ) (s : Sched) → 0 < s.ncpu → (thread_new thread s).cpu_of thread < s.ncpu
unfolding thread_new nextcpu
thread_new_lem thread s some_cpu = rw (self thread) (ground arith)
