-- ===== src/Callout.antt =====
-- task.c: callouts, the queue of timeouts in which each one's time counts from the one before it. The
-- local timer is the time it was last set to; what it has left (md_timer_get_remaining) is read from
-- the hardware and is an argument, and so are the callbacks.
pub mod Deadline
pub mod Enqueue
pub mod Dequeue
pub mod Interrupt
mod Tests
use scal_ux.Prelude.{
  Bool, List, Option, [], add64, assert, false, if◌then◌else◌, ltb, some, true, update, ℕ, ◌-◌,
  ◌==◌, ◌>>=◌, ◌>>◌, ◌∷◌,
}

-- callout_t, by its number.
pub record Callout : Type 0 where
  pub id : ℕ
  pub nanosecs : ℕ

-- Of a cpu_t, the queue of pending callouts and the timer, and the states of all callouts.
pub record Cpu : Type 0 where
  pub pendingcallouts : List Callout
  pub timer : ℕ
  pub pending : ℕ → Bool

abbrev pub min : ℕ → ℕ → ℕ
min a b = if ltb a b then a else b

abbrev pub waiting : Callout → ℕ → Callout
waiting co nanosecs = record co { nanosecs = nanosecs }

-- The walk behind the callout `co`: the time is counted down as long as `co` comes before it, and the
-- callout goes behind the one where the walk ends.
unfoldable pub insert_behind : Callout → Callout → List Callout → List Callout
insert_behind new co [] =
    if ltb co.nanosecs new.nanosecs
    then co ∷ waiting new (new.nanosecs - co.nanosecs) ∷ []
    else co ∷ new ∷ []
insert_behind new co (next ∷ rest) =
    let walked = insert_behind (waiting new (new.nanosecs - co.nanosecs)) next rest in
    if ltb co.nanosecs new.nanosecs then co ∷ walked else co ∷ new ∷ next ∷ rest

abbrev pub set_pending : Callout → Bool → (ℕ → Bool) → ℕ → Bool
set_pending co b pending = update pending co.id b

unfoldable pub enqueue_before : ℕ → Callout → Callout → List Callout → Cpu → Option Cpu
enqueue_before remains callout co rest cpu = do
  let first : Callout = waiting co (min remains co.nanosecs)
  assert (ltb 0 first.nanosecs)
  some (
      if ltb callout.nanosecs first.nanosecs
      then record cpu {
        pendingcallouts = callout ∷ waiting first (first.nanosecs - callout.nanosecs) ∷ rest;
        timer = callout.nanosecs;
        pending = set_pending callout true cpu.pending;
      }
      else record cpu {
        pendingcallouts = insert_behind callout first rest;
        pending = set_pending callout true cpu.pending;
      })

unfoldable pub callout_enqueue : ℕ → Callout → Cpu → Option Cpu
callout_enqueue remains callout cpu = do
  assert (ltb 0 callout.nanosecs)
  elim cpu.pendingcallouts [
    | [] ↦ some (record cpu {
      pendingcallouts = callout ∷ [];
      timer = callout.nanosecs;
      pending = set_pending callout true cpu.pending;
    })
    | co ∷ rest ↦ enqueue_before remains callout co rest cpu
  ]

-- TAILQ_REMOVE
unfoldable pub unlink : ℕ → List Callout → List Callout
unlink i [] = []
unlink i (co ∷ l) = let rest = unlink i l in if i == co.id then l else co ∷ rest

-- The callout was the first: what the timer had left goes to the next, if there is one.
unfoldable pub pass_on : ℕ → List Callout → Cpu → Cpu
pass_on remains [] cpu = record cpu { pendingcallouts = []; timer = 0 }
pass_on remains (co ∷ rest) cpu =
    let nanosecs = add64 co.nanosecs (min remains co.nanosecs) in
    record cpu { pendingcallouts = waiting co nanosecs ∷ rest; timer = nanosecs }

-- A callout that is not the first keeps its state.
unfoldable pub dequeue_from : ℕ → ℕ → List Callout → Cpu → Cpu
dequeue_from remains i [] cpu = record cpu { pendingcallouts = [] }
dequeue_from remains i (co ∷ rest) cpu =
    if i == co.id
    then pass_on remains rest (record cpu { pending = update cpu.pending i false })
    else record cpu { pendingcallouts = unlink i (co ∷ rest) }

unfoldable pub callout_dequeue : ℕ → ℕ → Cpu → Option Cpu
callout_dequeue remains i cpu = do
  assert (cpu.pending i)
  some (dequeue_from remains i cpu.pendingcallouts cpu)

-- The timer is set for the callout that is then the first, if there is one.
unfoldable pub set_next : List Callout → Cpu → Cpu
set_next [] cpu = cpu
set_next (co ∷ rest) cpu = record cpu { timer = co.nanosecs }

-- The callback may use callouts itself, or panic.
unfoldable pub interrupt_first : (ℕ → Cpu → Option Cpu) → List Callout → Cpu → Option Cpu
interrupt_first callback [] cpu = some cpu
interrupt_first callback (co ∷ rest) cpu = do
  cpu' ←
      callback co.id
        (record cpu { pendingcallouts = rest; pending = update cpu.pending co.id false })
  some (set_next cpu'.pendingcallouts cpu')

unfoldable pub callout_interrupt : (ℕ → Cpu → Option Cpu) → Cpu → Option Cpu
callout_interrupt callback cpu = interrupt_first callback cpu.pendingcallouts cpu
