-- ===== src/Callout/Dequeue.antt =====
-- task.c: when callouts are due after callout_dequeue.
use scal_ux.Prelude.{
  ==_iff, Bool, Bool-cases, List, [], add64, ap, arith, false, inl, inr, refl, some, sym, true,
  update, word, ℕ, ◌++◌, ◌+◌, ◌<◌, ◌==◌, ◌||◌, ◌∙◌, ◌∷◌, ◌≡◌,
}
use scal_ux.Callout.{Callout, Cpu, callout_dequeue, dequeue_from, min, pass_on, unlink}
use scal_ux.Callout.Deadline.{deadlines, deadlines-append, last_due}

abbrev pub has_id : ℕ → List Callout → Bool
has_id i [] = false
has_id i (co ∷ l) = (i == co.id) || has_id i l

-- The state `t` after the callout `i` was dequeued. The first leaves what the timer had left, or the
-- time of the next if that is less, to the next. One behind another callout leaves nothing: those behind it
-- are due earlier by its time, and it stays marked pending.
pub data Dequeued (remains i : ℕ) (cpu t : Cpu) : Type 0 where
  only :
      (co : Callout)
      → cpu.pendingcallouts ≡ co ∷ []
      → co.id ≡ i
      → t.pendingcallouts ≡ []
      → t.timer ≡ 0
      → t.pending ≡ update cpu.pending i false
      → Dequeued remains i cpu t
  first :
      (co next : Callout) (rest : List Callout)
      → cpu.pendingcallouts ≡ co ∷ next ∷ rest
      → co.id ≡ i
      → (next.nanosecs + min remains next.nanosecs < word
          → (deadlines 0 t.pendingcallouts ≡ deadlines (min remains next.nanosecs) (next ∷ rest))
            × (t.timer ≡ next.nanosecs + min remains next.nanosecs))
      → t.pending ≡ update cpu.pending i false
      → Dequeued remains i cpu t
  inner :
      (head co : Callout) (l r : List Callout)
      → cpu.pendingcallouts ≡ head ∷ l ++ co ∷ r
      → co.id ≡ i
      → has_id i (head ∷ l) ≡ false
      → deadlines 0 t.pendingcallouts
        ≡ deadlines 0 (head ∷ l) ++ deadlines (last_due 0 (head ∷ l)) r
      → t.timer ≡ cpu.timer
      → t.pending ≡ cpu.pending
      → Dequeued remains i cpu t

-- The first of that number is taken out.
unlink-split :
    (i : ℕ) (q : List Callout)
    → has_id i q ≡ true
    → (l r : List Callout) × (co : Callout) × (q ≡ l ++ co ∷ r)
      × (co.id ≡ i)
      × (has_id i l ≡ false)
      × (unlink i q ≡ l ++ r)
unfolding unlink
unlink-split i [] h = cc
unlink-split i (co ∷ q) h = elim (Bool-cases (i == co.id)) [
  | inl same ↦ ([], q, co, refl, sym ((==_iff i co.id).0 same), refl, rw same refl)
  | inr other ↦
      let (l, r, c, e, at, miss, cut) = unlink-split i q (ground (arith, h)) in
      (co ∷ l, r, c, ap (λ x. co ∷ x) e, at, ground (arith, miss), rw other (ap (λ x. co ∷ x) cut))
]

pass_on_first :
    (remains : ℕ) (next : Callout) (rest : List Callout) (cpu : Cpu)
    → next.nanosecs + min remains next.nanosecs < word
    → (deadlines 0 (pass_on remains (next ∷ rest) cpu).pendingcallouts
        ≡ deadlines (min remains next.nanosecs) (next ∷ rest))
      × ((pass_on remains (next ∷ rest) cpu).timer ≡ next.nanosecs + min remains next.nanosecs)
unfolding pass_on deadlines
pass_on_first remains next rest cpu room =
    let sum : add64 next.nanosecs (min remains next.nanosecs)
        ≡ next.nanosecs + min remains next.nanosecs =
      omega arith in
    let start : 0 + add64 next.nanosecs (min remains next.nanosecs)
        ≡ min remains next.nanosecs + next.nanosecs =
      omega arith in
    (rw start refl, sum)

first_goes :
    (remains i : ℕ) (cpu : Cpu) (co : Callout) (q : List Callout)
    → cpu.pendingcallouts ≡ co ∷ q
    → co.id ≡ i
    → Dequeued remains i cpu
        (pass_on remains q (record cpu { pending = update cpu.pending i false }))
unfolding pass_on
first_goes remains i cpu co [] e at = only co e at refl refl refl
first_goes remains i cpu co (next ∷ rest) e at =
    first co next rest e at
      (λ room.
        pass_on_first remains next rest (record cpu { pending = update cpu.pending i false }) room)
      refl

dequeue_from-Dequeued :
    (remains i : ℕ) (cpu : Cpu) (q : List Callout)
    → cpu.pendingcallouts ≡ q
    → has_id i q ≡ true
    → Dequeued remains i cpu (dequeue_from remains i q cpu)
unfolding dequeue_from unlink
dequeue_from-Dequeued remains i cpu [] e h = cc
dequeue_from-Dequeued remains i cpu (co ∷ rest) e h = elim (Bool-cases (i == co.id)) [
  | inl same ↦ rw same (first_goes remains i cpu co rest e (sym ((==_iff i co.id).0 same)))
  | inr other ↦ rw other (
      let (l, r, c, split, at, miss, cut) = unlink-split i rest (ground (arith, h, other)) in
      inner co c l r (e ∙ ap (λ x. co ∷ x) split) at (ground (arith, miss, other))
        (ap (λ x. deadlines 0 (co ∷ x)) cut ∙ deadlines-append 0 (co ∷ l) r) refl refl)
]

-- callout_dequeue of a pending callout of this processor does not panic; what it leaves is said by
-- the case that applies, by whether the callout was the only one, the first or behind another.
pub callout_dequeue-Dequeued :
    (remains i : ℕ) (cpu : Cpu)
    → cpu.pending i ≡ true
    → has_id i cpu.pendingcallouts ≡ true
    → (t : Cpu) × (callout_dequeue remains i cpu ≡ some t) × Dequeued remains i cpu t
unfolding callout_dequeue
callout_dequeue-Dequeued remains i cpu marked here = (
  dequeue_from remains i cpu.pendingcallouts cpu,
  rw marked refl,
  dequeue_from-Dequeued remains i cpu cpu.pendingcallouts refl here,
)
