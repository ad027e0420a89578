-- ===== src/Vm/View/References.antt =====
-- vm/vm.c: stores through a slot, seen by the slots and by the number of references to each anon.
use scal_ux.Vm.Anons.{chunk_or_empty, chunk_pages, set_slot}
use scal_ux.Prelude.{
  Bool-cases, Option, ap, arith, bit, if◌then◌else◌, inl, inr, ltb, ltb→lt, none, owns, some, sym,
  total, total_member, total_one_changed, true, update, ℕ, ◌%◌, ◌+◌, ◌/◌, ◌<◌, ◌==◌, ◌∙◌, ◌≡◌, ◌≤◌,
}
use scal_ux.Vm.{Amap, Chunk}
use scal_ux.Vm.View.{chunk_weight, slot, weight}
use scal_ux.Vm.View.Slots.{HasSlot, chunk_weight_empty, with_chunk-weight}

pub slot_here :
    (amap : Amap) (page : ℕ)
    → HasSlot amap page
    → slot amap page ≡ chunk_or_empty (amap.chunks (page / chunk_pages)) (page % chunk_pages)
unfolding slot
slot_here amap page room = ground arith

pub slot_room : (amap : Amap) (page : ℕ) {a : ℕ} → slot amap page ≡ some a → HasSlot amap page
unfolding slot
slot_room amap page h = elim (Bool-cases (ltb (page / chunk_pages) amap.curnchunk)) [
  | inl low ↦ ltb→lt (page / chunk_pages) amap.curnchunk low
  | inr high ↦ ground (arith, h)
]

pub owns_it : (a : ℕ) (o : Option ℕ) → o ≡ some a → owns a o ≡ true
owns_it a none h = cc
owns_it a (some b) h = ground arith

pub slot-chunk_weight :
    (a : ℕ) (amap : Amap) (page : ℕ)
    → slot amap page ≡ some a
    → 1 ≤ chunk_weight a (amap.chunks (page / chunk_pages))
unfolding chunk_weight
slot-chunk_weight a amap page h =
    let chunk : Chunk = chunk_or_empty (amap.chunks (page / chunk_pages)) in
    let held : chunk (page % chunk_pages) ≡ some a =
      sym (slot_here amap page (slot_room amap page h)) ∙ h in
    omega (
      arith,
      total_member (λ i. bit (owns a (chunk i))) (page % chunk_pages) chunk_pages (omega arith),
      ap bit (owns_it a (chunk (page % chunk_pages)) held),
    )

pub set_slot-slot :
    (amap : Amap) (page q : ℕ) (x : Option ℕ)
    → HasSlot amap page
    → slot (set_slot amap page x) q ≡ (if page == q then x else slot amap q)
unfolding slot set_slot
set_slot-slot amap page q x room = ground arith

chunk_weight_set :
    (a i : ℕ) (chunk : Chunk) (x : Option ℕ)
    → i < chunk_pages
    → chunk_weight a (some (update chunk i x)) + bit (owns a (chunk i))
      ≡ chunk_weight a (some chunk) + bit (owns a x)
unfolding chunk_weight
chunk_weight_set a i chunk x low =
    let new : update chunk i x i ≡ x = ground arith in
    let r : total (λ k. bit (owns a (update chunk i x k))) chunk_pages + bit (owns a (chunk i))
        ≡ total (λ k. bit (owns a (chunk k))) chunk_pages + bit (owns a (update chunk i x i)) =
      total_one_changed (λ k. bit (owns a (update chunk i x k))) (λ k. bit (owns a (chunk k))) i
        chunk_pages low (λ k other. ap (λ y. bit (owns a y)) (ground arith)) in
    omega (arith, r, ap (λ y. bit (owns a y)) new)

pub set_slot-weight :
    (a : ℕ) (amap : Amap) (page : ℕ) (x : Option ℕ)
    → HasSlot amap page
    → weight a (set_slot amap page x) + bit (owns a (slot amap page))
      ≡ weight a amap + bit (owns a x)
unfolding set_slot
set_slot-weight a amap page x room =
    let chunk : Option Chunk = amap.chunks (page / chunk_pages) in
    let old : slot amap page ≡ chunk_or_empty chunk (page % chunk_pages) =
      slot_here amap page room in
    omega (
      arith,
      with_chunk-weight a amap (page / chunk_pages)
          (some (update (chunk_or_empty chunk) (page % chunk_pages) x)) room,
      chunk_weight_empty a chunk,
      chunk_weight_set a (page % chunk_pages) (chunk_or_empty chunk) x (omega arith),
      ap (λ y. bit (owns a y)) old,
    )

-- The slots that hold an anon are among its references.
pub slot-weight : (a : ℕ) (amap : Amap) (page : ℕ) → slot amap page ≡ some a → 1 ≤ weight a amap
unfolding weight
slot-weight a amap page h =
    let room : HasSlot amap page = slot_room amap page h in
    omega (
      arith,
      total_member (λ i. chunk_weight a (amap.chunks i)) (page / chunk_pages) amap.curnchunk room,
      slot-chunk_weight a amap page h,
    )
