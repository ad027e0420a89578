-- ===== src/Maps/MapObject/Correct.antt =====
-- vm/vm.c: an object that is mapped is found at its addresses, and no other entry is lost.
use scal_ux.Prelude.{
  Bool, List, Option, [], bit, if◌then◌else◌, leb, ltb, some, true, ℕ, ◌&&◌, ◌++◌, ◌+◌, ◌<◌, ◌∷◌,
  ◌≡◌,
}
use scal_ux.Vm.{Vm}
use scal_ux.Vmem.Arena.{Result, State, err, ok, resource_exhausted}
use scal_ux.Vmem.Segment.Chain.{allocated_at}
use scal_ux.Vmem.Xalloc.{Allocated}
use scal_ux.Vmem.Invariant
use scal_ux.Maps.{Entry, Space, World, arena_state, covers, map_entry_for_addr, with_arena}
use scal_ux.Maps.MapObject.{is_exact, map_flags}

-- How many entries cover an address.
abbrev pub covered : ℕ → List Entry → ℕ
covered x [] = 0
covered x (entry ∷ rest) = bit (covers x entry) + covered x rest

-- The entries of a map cover the allocated addresses of its arena, each once.
pub record MapInv (space : Space) (w : World) : Type 0 where
  pub arena : scal_ux.Vmem.Invariant.Inv (arena_state space w)
  pub covers_allocated : (x : ℕ) → covered x space.entries ≡ allocated_at x space.arena.segqueue

abbrev pub new_entry : ℕ → ℕ → ℕ → ℕ → Entry
new_entry o addr size offset = record { start = addr; end = addr + size; offset = offset; obj = o }

-- What vm_map_object returns: an address, at which the object is found from then on, while every other
-- address shows what it showed; or an error, and the map as it was.
pub data MapOutcome (m o vaddr size offset : ℕ) (space : Space) (vm : Vm)
    : Option (Result × World) → Type 0 where
  mapped :
      (addr : ℕ) (space' : Space) (w : World)
      → w.spaces m ≡ some space'
      → w.vm ≡ vm
      → MapInv space' w
      → ((x : ℕ)
          → map_entry_for_addr x space'.entries ≡ (
              if leb addr x && ltb x (addr + size)
              then some (new_entry o addr size offset)
              else map_entry_for_addr x space.entries))
      → (is_exact vaddr ≡ true → addr ≡ vaddr)
      → MapOutcome m o vaddr size offset space vm (some (ok addr, w))
  no_room :
      (w : World)
      → w.spaces m ≡ some space
      → w.vm ≡ vm
      → MapOutcome m o vaddr size offset space vm (some (err resource_exhausted, w))

module _ (m o vaddr size offset : ℕ) (space : Space) (w : World) (inv : MapInv space w)
    (pos : 0 < size) where
  abbrev exact : Bool
  exact = is_exact vaddr

  abbrev lowest : ℕ
  lowest = if exact then vaddr else 0

  module _ (addr : ℕ) (st : State (Unit {0}))
      (a : Allocated size lowest (map_flags exact) addr (arena_state space w) st) where
    abbrev space' : Space
    space' = record {
      entries = space.entries ++ (new_entry o addr size offset ∷ []);
      arena = st.arena;
    }

    abbrev after : World
    after = with_arena m (space.entries ++ (new_entry o addr size offset ∷ [])) st w
