-- ===== src/Callout/Interrupt.antt =====
-- task.c: what callout_interrupt leaves.
use scal_ux.Prelude.{
  List, Option, [], ap, arith, false, refl, some, subst, sym, update, ℕ, ◌+◌, ◌∙◌, ◌∷◌, ◌≡◌,
}
use scal_ux.Callout.{Callout, Cpu, callout_interrupt, interrupt_first, set_next}
use scal_ux.Callout.Deadline.{deadlines}

-- The state `t` after the first callout has run: it is no longer pending, the others are due when
-- they were, and the timer is set for the next of them.
pub record Fired (co : Callout) (cpu t : Cpu) : Type 0 where
  pub others :
      deadlines 0 cpu.pendingcallouts
      ≡ (co.id, co.nanosecs) ∷ deadlines co.nanosecs t.pendingcallouts
  pub next_timer :
      (next : Callout) (l : List Callout) → t.pendingcallouts ≡ next ∷ l → t.timer ≡ next.nanosecs
  pub disabled : t.pending co.id ≡ false

abbrev first_time : ℕ → List Callout → ℕ
first_time d [] = d
first_time d (co ∷ l) = co.nanosecs

set_next-Fired :
    (co : Callout) (rest : List Callout) (cpu c : Cpu)
    → cpu.pendingcallouts ≡ co ∷ rest
    → c.pendingcallouts ≡ rest
    → c.pending co.id ≡ false
    → Fired co cpu (set_next rest c)
unfolding set_next deadlines
set_next-Fired co [] cpu c e same off = record {
  others = rw (e, same) (let z : 0 + co.nanosecs ≡ co.nanosecs = omega arith in rw z refl);
  next_timer = λ next l q. let f : [] ≡ next ∷ l = sym same ∙ q in cc;
  disabled = off;
}
set_next-Fired co (n ∷ rest) cpu c e same off = record {
  others = rw (e, same) (let z : 0 + co.nanosecs ≡ co.nanosecs = omega arith in rw z refl);
  next_timer = λ next l q. let f : n ∷ rest ≡ next ∷ l = sym same ∙ q in ap (first_time 0) f;
  disabled = off;
}

-- When the callback of the first callout returns and uses no callouts itself, callout_interrupt does
-- not panic and leaves the others due when they were.
pub callout_interrupt-Fired :
    (callback : ℕ → Cpu → Option Cpu) (cpu : Cpu) (co : Callout) (rest : List Callout)
    → cpu.pendingcallouts ≡ co ∷ rest
    → ((c : Cpu) → callback co.id c ≡ some c)
    → (t : Cpu) × (callout_interrupt callback cpu ≡ some t) × Fired co cpu t
unfolding callout_interrupt interrupt_first
callout_interrupt-Fired callback cpu co rest e returns =
    let c : Cpu = record cpu { pendingcallouts = rest; pending = update cpu.pending co.id false } in
    (
      set_next rest c,
      subst (λ l. interrupt_first callback l cpu ≡ some (set_next rest c)) (sym e)
          (rw (returns c) refl),
      set_next-Fired co rest cpu c e refl (ground arith),
    )
