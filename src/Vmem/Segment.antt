-- ===== src/Vmem/Segment.antt =====
-- The segment structures of vmem_impl.h and the tail queue `segqueue` of an arena. A structure is on
-- the queue from its insertion to its removal, so the queue holds the structures themselves; `id`
-- stands for the address of the structure, by which every other list refers to it.
pub mod Surgery
pub mod Chain
use scal_ux.Prelude.{Bool, List, Option, [], false, if◌then◌else◌, none, some, true, ℕ, ◌==◌, ◌∷◌}

pub data SegType : Type 0 where
  free allocated span span_imported : SegType

pub record Seg : Type 0 where
  pub id : ℕ
  pub type : SegType
  pub base : ℕ
  pub size : ℕ

abbrev pub is_free : SegType → Bool
is_free free = true
is_free allocated = false
is_free span = false
is_free span_imported = false

abbrev pub is_allocated : SegType → Bool
is_allocated free = false
is_allocated allocated = true
is_allocated span = false
is_allocated span_imported = false

abbrev pub is_imported : SegType → Bool
is_imported free = false
is_imported allocated = false
is_imported span = false
is_imported span_imported = true

-- A marker stands in front of the segments of its span.
abbrev pub is_marker : SegType → Bool
is_marker free = false
is_marker allocated = false
is_marker span = true
is_marker span_imported = true

-- The structure behind a pointer.
abbrev pub seg_at : ℕ → List Seg → Option Seg
seg_at i [] = none
seg_at i (s ∷ q) = if i == s.id then some s else seg_at i q

-- TAILQ_INSERT_BEFORE
abbrev pub insert_before : ℕ → Seg → List Seg → List Seg
insert_before i n [] = []
insert_before i n (s ∷ q) = if i == s.id then n ∷ s ∷ q else s ∷ insert_before i n q

-- TAILQ_INSERT_AFTER
abbrev pub insert_after : ℕ → Seg → List Seg → List Seg
insert_after i n [] = []
insert_after i n (s ∷ q) = if i == s.id then s ∷ n ∷ q else s ∷ insert_after i n q

-- TAILQ_INSERT_TAIL
abbrev pub insert_tail : Seg → List Seg → List Seg
insert_tail n [] = n ∷ []
insert_tail n (s ∷ q) = s ∷ insert_tail n q

-- TAILQ_REMOVE
abbrev pub remove : ℕ → List Seg → List Seg
remove i [] = []
remove i (s ∷ q) = if i == s.id then q else s ∷ remove i q

-- Assignments to the fields of the structure at `i`.
abbrev pub assign : ℕ → Seg → List Seg → List Seg
assign i n [] = []
assign i n (s ∷ q) = if i == s.id then n ∷ q else s ∷ assign i n q

abbrev pub first : List Seg → Option Seg
first [] = none
first (s ∷ q) = some s

abbrev pub prev_from : Option Seg → ℕ → List Seg → Option Seg
prev_from p i [] = none
prev_from p i (s ∷ q) = if i == s.id then p else prev_from (some s) i q

-- TAILQ_PREV
abbrev pub prev_seg : ℕ → List Seg → Option Seg
prev_seg i q = prev_from none i q

-- TAILQ_NEXT
abbrev pub next_seg : ℕ → List Seg → Option Seg
next_seg i [] = none
next_seg i (s ∷ q) = if i == s.id then first q else next_seg i q
