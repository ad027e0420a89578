-- ===== src/Maps.antt =====
-- vm/vm.c: maps, each with its entries and an arena of addresses, over the memory objects.
pub mod MapObject
pub mod Remove
pub mod PageFault
mod Tests
use scal_ux.Prelude.{
  Bool, List, Option, [], if◌then◌else◌, leb, ltb, none, some, update, ℕ, ◌&&◌, ◌∷◌,
}
use scal_ux.Vm.{Vm}
use scal_ux.Vmem.Arena.{Arena, SegPool, State}

-- vm_map_entry_t: the addresses from `start` on and before `end` show the object from `offset` on.
pub record Entry : Type 0 where
  pub start : ℕ
  pub end : ℕ
  pub offset : ℕ
  pub obj : ℕ

-- vm_map_t. Its arena has no source.
pub record Space : Type 0 where
  pub entries : List Entry
  pub arena : Arena (Unit {0})

-- The maps, the memory objects, the pool of segment structures that all arenas share, and the field
-- in_pagefault of the running thread.
pub record World : Type 0 where
  pub vm : Vm
  pub spaces : ℕ → Option Space
  pub next_map : ℕ
  pub pool : SegPool
  pub in_pagefault : Bool

-- The number of kmap.
abbrev pub kmap : ℕ
kmap = 0

abbrev pub arena_state : Space → World → State (Unit {0})
arena_state space w = record { arena = space.arena; pool = w.pool; backing = tt }

-- The map after an operation on its arena.
abbrev pub with_arena : ℕ → List Entry → State (Unit {0}) → World → World
with_arena m entries st w = record w {
  spaces = update w.spaces m (some (record { entries = entries; arena = st.arena }));
  pool = st.pool;
}

abbrev pub covers : ℕ → Entry → Bool
covers addr entry = leb entry.start addr && ltb addr entry.end

unfoldable pub map_entry_for_addr : ℕ → List Entry → Option Entry
map_entry_for_addr addr [] = none
map_entry_for_addr addr (entry ∷ rest) =
    let later = map_entry_for_addr addr rest in if covers addr entry then some entry else later
