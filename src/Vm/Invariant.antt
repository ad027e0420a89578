-- ===== src/Vm/Invariant.antt =====
-- vm/vm.c: what holds between the operations on memory objects.
pub mod Places
pub mod NewAnon
pub mod Leaving
pub mod Entering
pub mod Share
use scal_ux.Vm.Enter.{is_place}
use scal_ux.Vm.View.{references}
use scal_ux.Prelude.{
  Bool, List, Option, [], bit, count, false, map, none, some, ℕ, ◌+◌, ◌<◌, ◌==◌, ◌^◌, ◌∷◌, ◌≡◌, ◌≤◌,
}
use scal_ux.Page.Correct
use scal_ux.Page.{Pages, free_queue}
use scal_ux.Vm.{Anon, Mapping, PvEntry, Vm, all}

-- kVMAll is not to be entered for a page that a second object may see.
abbrev pub sharing_limit : ℕ
sharing_limit = 2 ^ 23

abbrev pub count_of : Option Anon → ℕ
count_of none = 0
count_of (some anon) = anon.refcnt

-- The count in each anon is `held`, a number that the field has room for.
pub record Counts (anons : ℕ → Option Anon) (held : ℕ → ℕ) : Type 0 where
  pub counted : (a : ℕ) → count_of (anons a) ≡ held a
  pub in_range : (a : ℕ) → held a < sharing_limit

abbrev pub on_free : ℕ → Pages → ℕ
on_free page pages = count page (pages.queue free_queue)

-- Each anon has a page of its own, and it is not free.
pub record Frames (anons : ℕ → Option Anon) (pages : Pages) : Type 0 where
  pub queues : Correct.Inv pages
  pub taken : (a : ℕ) (r : Anon) → anons a ≡ some r → on_free r.physpage pages ≡ 0
  pub apart :
      (a b : ℕ) (r t : Anon) → anons a ≡ some r → anons b ≡ some t → r.physpage ≡ t.physpage → a ≡ b

abbrev pub maps_to : ℕ → Option Mapping → Bool
maps_to page none = false
maps_to page (some entry) = page == entry.frame

-- How often a place is on the list of a page.
unfoldable pub places : ℕ → ℕ → List PvEntry → ℕ
places map vaddr [] = 0
places map vaddr (pv ∷ l) = bit (is_place map vaddr pv) + places map vaddr l

-- The list of a page has its mappings, each once; none is of a free page; and a page that may be
-- written belongs to an anon with one reference, if to any.
pub record Mapped (tables : ℕ → ℕ → Option Mapping) (pv_table : ℕ → List PvEntry)
    (anons : ℕ → Option Anon) (pages : Pages) : Type 0 where
  pub listed :
      (map vaddr page : ℕ)
      → places map vaddr (pv_table page) ≡ bit (maps_to page (tables map vaddr))
  pub in_use :
      (map vaddr : ℕ) (entry : Mapping)
      → tables map vaddr ≡ some entry
      → on_free entry.frame pages ≡ 0
  pub exclusive :
      (map vaddr a : ℕ) (entry : Mapping) (r : Anon)
      → tables map vaddr ≡ some entry
      → entry.protection ≡ all
      → anons a ≡ some r
      → r.physpage ≡ entry.frame
      → r.refcnt ≡ 1

-- Numbers that are still to be given are those of nothing.
pub record Fresh (s : Vm) : Type 0 where
  pub anons : (a : ℕ) → s.next_anon ≤ a → s.anons a ≡ none
  pub objects : (o : ℕ) → s.next_object ≤ o → s.objects o ≡ none

abbrev pub held_by : Vm → ℕ → ℕ
held_by s a = references a s.objects s.next_object

pub record Inv (s : Vm) : Type 0 where
  pub fresh : Fresh s
  pub counts : Counts s.anons (held_by s)
  pub frames : Frames s.anons s.pages
  pub mapped : Mapped s.tables s.pv_table s.anons s.pages
