-- ===== src/Callout/Enqueue.antt =====
-- task.c: when callouts are due after callout_enqueue.
use scal_ux.Prelude.{
  Bool, Bool-cases, List, [], ap, arith, false, inl, inr, ltb, ltb→lt, lt→ltb, refl, some, subst,
  sym, true, update, ℕ, ◌++◌, ◌+◌, ◌-◌, ◌<◌, ◌>>=◌, ◌∙◌, ◌∷◌, ◌≡◌, ◌≤◌,
}
use scal_ux.Callout.{
  Callout, Cpu, callout_enqueue, enqueue_before, insert_behind, min, set_pending, waiting,
}
use scal_ux.Callout.Deadline.{deadlines, last_due}

-- Where a callout for the time `due` has gone, and when each callout is then due: behind all others,
-- or behind the first callout `c` that is not due before it, which makes it late by the time of `c`.
pub data Placed (start id due : ℕ) (q : List Callout) : List (ℕ × ℕ) → Type 0 where
  behind_all : last_due start q < due → Placed start id due q (deadlines start q ++ (id, due) ∷ [])
  too_late :
      (l r : List Callout) (c : Callout)
      → q ≡ l ++ c ∷ r
      → last_due start l < due
      → due ≤ last_due start l + c.nanosecs
      → Placed start id due q
          (deadlines start (l ++ c ∷ []) ++ (id, due + c.nanosecs) ∷ deadlines (due + c.nanosecs) r)

Placed-cons :
    (start id due : ℕ) (co : Callout) (q : List Callout) (d : List (ℕ × ℕ))
    → Placed (start + co.nanosecs) id due q d
    → Placed start id due (co ∷ q) ((co.id, start + co.nanosecs) ∷ d)
unfolding deadlines last_due
Placed-cons start id due co q d (behind_all h) = behind_all h
Placed-cons start id due co q d (too_late l r c e low high) =
    too_late (co ∷ l) r c (ap (λ x. co ∷ x) e) low high

here_late :
    (start due : ℕ) (new co : Callout) (rest : List Callout)
    → start < due
    → due ≡ start + new.nanosecs
    → due ≤ start + co.nanosecs
    → Placed start new.id due (co ∷ rest) (deadlines start (co ∷ new ∷ rest))
unfolding deadlines last_due
here_late start due new co rest before e late =
    let t : start + co.nanosecs + new.nanosecs ≡ due + co.nanosecs = omega arith in
    rw t (too_late [] rest co refl before late)

at_end :
    (start due : ℕ) (new co : Callout)
    → due ≡ start + new.nanosecs
    → co.nanosecs < new.nanosecs
    → Placed start new.id due
        (co ∷ [])
        (deadlines start (co ∷ waiting new (new.nanosecs - co.nanosecs) ∷ []))
unfolding deadlines last_due
at_end start due new co e after =
    let t : start + co.nanosecs + (new.nanosecs - co.nanosecs) ≡ due = omega arith in
    rw t (behind_all (omega arith))

insert_behind-Placed :
    (start due : ℕ) (rest : List Callout) (new co : Callout)
    → start < due
    → due ≡ start + new.nanosecs
    → Placed start new.id due (co ∷ rest) (deadlines start (insert_behind new co rest))
unfolding insert_behind deadlines
insert_behind-Placed start due [] new co before e =
    elim (Bool-cases (ltb co.nanosecs new.nanosecs)) [
      | inl after ↦ rw after (at_end start due new co e (ground (arith, after)))
      | inr late ↦ rw late (here_late start due new co [] before e (ground (arith, late)))
    ]
insert_behind-Placed start due (next ∷ rest) new co before e =
    elim (Bool-cases (ltb co.nanosecs new.nanosecs)) [
      | inl after ↦ rw after (
          Placed-cons start new.id due co (next ∷ rest) _ (
            insert_behind-Placed (start + co.nanosecs) due rest
              (waiting new (new.nanosecs - co.nanosecs)) next (ground (arith, after))
              (ground (arith, after))))
      | inr late ↦
          rw late (here_late start due new co (next ∷ rest) before e (ground (arith, late)))
    ]

-- The queue with what the timer has left for its first callout.
abbrev pub with_remaining : ℕ → List Callout → List Callout
with_remaining remains [] = []
with_remaining remains (co ∷ rest) = waiting co (min remains co.nanosecs) ∷ rest

-- The first callout, if there is one, is still to come.
abbrev pub IsTicking : ℕ → List Callout → Type 0
IsTicking remains [] = Unit
IsTicking remains (co ∷ rest) = 0 < min remains co.nanosecs

-- A callout of that time is due before the first, or is the only one.
abbrev pub comes_first : ℕ → ℕ → List Callout → Bool
comes_first remains due [] = true
comes_first remains due (co ∷ rest) = ltb due (min remains co.nanosecs)

-- The state `t` after a callout was enqueued: due before the first, it is due at its time and the others
-- when they were; not due before the first, it has been placed behind it.
pub data Enqueued (remains : ℕ) (new : Callout) (cpu t : Cpu) : Type 0 where
  in_front :
      comes_first remains new.nanosecs cpu.pendingcallouts ≡ true
      → deadlines 0 t.pendingcallouts
        ≡ (new.id, new.nanosecs) ∷ deadlines 0 (with_remaining remains cpu.pendingcallouts)
      → t.timer ≡ new.nanosecs
      → t.pending ≡ update cpu.pending new.id true
      → Enqueued remains new cpu t
  behind :
      comes_first remains new.nanosecs cpu.pendingcallouts ≡ false
      → Placed 0 new.id new.nanosecs
          (with_remaining remains cpu.pendingcallouts)
          (deadlines 0 t.pendingcallouts)
      → t.timer ≡ cpu.timer
      → t.pending ≡ update cpu.pending new.id true
      → Enqueued remains new cpu t

front_deadlines :
    (new first : Callout) (rest : List Callout)
    → new.nanosecs < first.nanosecs
    → deadlines 0 (new ∷ waiting first (first.nanosecs - new.nanosecs) ∷ rest)
      ≡ (new.id, new.nanosecs) ∷ deadlines 0 (first ∷ rest)
unfolding deadlines
front_deadlines new first rest h =
    let before : 0 + new.nanosecs ≡ new.nanosecs = omega arith in
    let whole : 0 + new.nanosecs + (first.nanosecs - new.nanosecs) ≡ first.nanosecs = omega arith in
    let same : 0 + first.nanosecs ≡ first.nanosecs = omega arith in rw (whole, before, same) refl

enqueue_before-Enqueued :
    (remains : ℕ) (new co : Callout) (rest : List Callout) (cpu : Cpu)
    → cpu.pendingcallouts ≡ co ∷ rest
    → 0 < new.nanosecs
    → 0 < min remains co.nanosecs
    → (t : Cpu) × (enqueue_before remains new co rest cpu ≡ some t) × Enqueued remains new cpu t
unfolding enqueue_before
enqueue_before-Enqueued remains new co rest cpu q pos ticking =
    elim (Bool-cases (ltb new.nanosecs (min remains co.nanosecs))) [
      | inl sooner ↦ rw (lt→ltb 0 _ ticking) (
          rw (sooner, ◌>>=◌)
            (
              _,
              refl,
              in_front (ap (comes_first remains new.nanosecs) q ∙ sooner)
                  (front_deadlines new (waiting co (min remains co.nanosecs)) rest
                      (ltb→lt _ _ sooner)
                    ∙ ap (λ l. (new.id, new.nanosecs) ∷ deadlines 0 (with_remaining remains l))
                        (sym q))
                  refl refl,
            ))
      | inr later ↦ rw (lt→ltb 0 _ ticking) (
          rw (later, ◌>>=◌)
            (
              _,
              refl,
              behind (ap (comes_first remains new.nanosecs) q ∙ later)
                  (subst
                    (λ l.
                      Placed 0 new.id new.nanosecs (with_remaining remains l) (
                        deadlines 0
                          (insert_behind new (waiting co (min remains co.nanosecs)) rest)))
                    (sym q)
                    (insert_behind-Placed 0 new.nanosecs rest new
                      (waiting co (min remains co.nanosecs)) pos (omega arith)))
                  refl refl,
            ))
    ]

enqueue_to :
    (remains : ℕ) (new : Callout) (cpu : Cpu) (l : List Callout)
    → cpu.pendingcallouts ≡ l
    → 0 < new.nanosecs
    → IsTicking remains l
    → (t : Cpu) × (callout_enqueue remains new cpu ≡ some t) × Enqueued remains new cpu t
unfolding callout_enqueue deadlines
enqueue_to remains new cpu [] q pos ticking = (
  record cpu {
    pendingcallouts = new ∷ [];
    timer = new.nanosecs;
    pending = set_pending new true cpu.pending;
  },
  rw (lt→ltb 0 _ pos) (rw (q, ◌>>=◌) refl),
  in_front (ap (comes_first remains new.nanosecs) q)
      (let z : 0 + new.nanosecs ≡ new.nanosecs = omega arith in rw (z, q) refl) refl refl,
)
enqueue_to remains new cpu (co ∷ rest) q pos ticking =
    let (t, run, done) = enqueue_before-Enqueued remains new co rest cpu q pos ticking in
    (t, rw (lt→ltb 0 _ pos) (rw (q, ◌>>=◌) run), done)

-- With a time that is not 0, and a first callout that is still to come, callout_enqueue does not
-- panic and marks the callout pending. If it is due before the first, it is due at its time, all
-- others are due when they were, and the timer is set for it. Otherwise the timer is left, and it is
-- placed behind all that are due before it: at its time when these are all, and else behind one more,
-- late by the time of that one, and those that follow count from there.
pub callout_enqueue-Enqueued :
    (remains : ℕ) (new : Callout) (cpu : Cpu)
    → 0 < new.nanosecs
    → IsTicking remains cpu.pendingcallouts
    → (t : Cpu) × (callout_enqueue remains new cpu ≡ some t) × Enqueued remains new cpu t
callout_enqueue-Enqueued remains new cpu pos ticking =
    enqueue_to remains new cpu cpu.pendingcallouts refl pos ticking
