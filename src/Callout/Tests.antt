-- ===== src/Callout/Tests.antt =====
-- Two callouts, and a third.
use scal_ux.Prelude.{[], arith, refl, some, true, update, ℕ, ◌==◌, ◌||◌, ◌∷◌, ◌≡◌}
use scal_ux.Callout.{
  Callout, Cpu, callout_dequeue, callout_enqueue, callout_interrupt, enqueue_before, insert_behind,
}
use scal_ux.Callout.Enqueue.{Enqueued, callout_enqueue-Enqueued}
use scal_ux.Callout.Dequeue.{Dequeued, callout_dequeue-Dequeued}
use scal_ux.Callout.Interrupt.{Fired, callout_interrupt-Fired}

abbrev at : ℕ → ℕ → Callout
at id nanosecs = record { id = id; nanosecs = nanosecs }

abbrev two_callouts : Cpu
two_callouts = record {
  pendingcallouts = at 1 10 ∷ at 2 20 ∷ [];
  timer = 10;
  pending = λ i. i == 1 || i == 2;
}

-- The third is due at 15, between the others at 10 and 30: it goes behind both, for 35.
between_two :
    callout_enqueue 10 (at 3 15) two_callouts
    ≡ some (record {
      pendingcallouts = at 1 10 ∷ at 2 20 ∷ at 3 5 ∷ [];
      timer = 10;
      pending = update two_callouts.pending 3 true;
    })
unfolding callout_enqueue enqueue_before insert_behind
between_two = refl

callout_enqueue-Enqueued_example :
    (t : Cpu) × (callout_enqueue 10 (at 3 15) two_callouts ≡ some t)
    × Enqueued 10 (at 3 15) two_callouts t
callout_enqueue-Enqueued_example =
    callout_enqueue-Enqueued 10 (at 3 15) two_callouts (omega arith) (omega arith)

callout_dequeue-Dequeued_example :
    (t : Cpu) × (callout_dequeue 10 2 two_callouts ≡ some t) × Dequeued 10 2 two_callouts t
callout_dequeue-Dequeued_example = callout_dequeue-Dequeued 10 2 two_callouts refl refl

callout_interrupt-Fired_example :
    (t : Cpu) × (callout_interrupt (λ i c. some c) two_callouts ≡ some t)
    × Fired (at 1 10) two_callouts t
callout_interrupt-Fired_example =
    callout_interrupt-Fired (λ i c. some c) two_callouts (at 1 10) (at 2 20 ∷ []) refl (λ c. refl)
