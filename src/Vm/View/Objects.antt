-- ===== src/Vm/View/Objects.antt =====
-- vm/vm.c: the references of all objects, and what two slots with one anon mean.
use scal_ux.Vm.Anons.{chunk_pages, chunk_or_empty}
use scal_ux.Vm.View.References.{slot-weight, slot_here, slot-chunk_weight, owns_it, slot_room}
use scal_ux.Prelude.{
  ==_iff, Bool-cases, Option, ap, arith, bit, inl, inr, none, owns, some, subst, suc, sym, total,
  total_member, total_one_changed, total_same, total_two_members, update, ℕ, ◌%◌, ◌+◌, ◌/◌, ◌<◌,
  ◌==◌, ◌∙◌, ◌≡◌, ◌≢◌, ◌≤◌,
}
use scal_ux.Vm.{Amap, Chunk, Object}
use scal_ux.Vm.View.{chunk_weight, object_slot, object_weight, references, slot, weight}
use scal_ux.Vm.View.Slots.{HasSlot, chunk_weight_empty}

-- Two slots that hold the same anon are two of its references.
chunk_weight_two :
    (a i j : ℕ) (chunk : Chunk)
    → i < chunk_pages
    → j < chunk_pages
    → i ≢ j
    → chunk i ≡ some a
    → chunk j ≡ some a
    → 2 ≤ chunk_weight a (some chunk)
unfolding chunk_weight
chunk_weight_two a i j chunk low low' d h h' = omega (
  arith,
  total_two_members (λ k. bit (owns a (chunk k))) i j chunk_pages low low' d,
  ap bit (owns_it a (chunk i) h),
  ap bit (owns_it a (chunk j) h'),
)

pub slot-weight_two :
    (a : ℕ) (amap : Amap) (page q : ℕ)
    → page ≢ q
    → slot amap page ≡ some a
    → slot amap q ≡ some a
    → 2 ≤ weight a amap
unfolding weight
slot-weight_two a amap page q d h h' =
    let room : HasSlot amap page = slot_room amap page h in
    let room' : HasSlot amap q = slot_room amap q h' in
    let e : slot amap page
        ≡ chunk_or_empty (amap.chunks (page / chunk_pages)) (page % chunk_pages) =
      slot_here amap page room in
    let e' : slot amap q ≡ chunk_or_empty (amap.chunks (q / chunk_pages)) (q % chunk_pages) =
      slot_here amap q room' in
    elim (Bool-cases (page / chunk_pages == q / chunk_pages)) [
      | inl same ↦
          let k : page / chunk_pages ≡ q / chunk_pages = (==_iff _ _).0 same in
          let c : chunk_or_empty (amap.chunks (page / chunk_pages)) (q % chunk_pages) ≡ some a =
            subst (λ i. chunk_or_empty (amap.chunks i) (q % chunk_pages) ≡ some a) (sym k)
              (sym e' ∙ h') in
          omega (
            arith,
            total_member (λ i. chunk_weight a (amap.chunks i)) (page / chunk_pages) amap.curnchunk
                room,
            chunk_weight_empty a (amap.chunks (page / chunk_pages)),
            chunk_weight_two a (page % chunk_pages) (q % chunk_pages)
                (chunk_or_empty (amap.chunks (page / chunk_pages))) (omega arith) (omega arith)
                (λ z. d (omega arith)) (sym e ∙ h) c,
          )
      | inr other ↦ omega (
        arith,
        total_two_members (λ i. chunk_weight a (amap.chunks i)) (page / chunk_pages)
            (q / chunk_pages) amap.curnchunk room room' (ground (arith, other)),
        slot-chunk_weight a amap page h,
        slot-chunk_weight a amap q h',
      )
    ]

-- The references of all objects, when one of them changes or one is added.
pub references_set :
    (a o n : ℕ) (objects : ℕ → Option Object) (v : Option Object)
    → o < n
    → references a (update objects o v) n + object_weight a (objects o)
      ≡ references a objects n + object_weight a v
unfolding references
references_set a o n objects v low =
    let new : update objects o v o ≡ v = ground arith in
    let r : total (λ k. object_weight a (update objects o v k)) n + object_weight a (objects o)
        ≡ total (λ k. object_weight a (objects k)) n + object_weight a (update objects o v o) =
      total_one_changed (λ k. object_weight a (update objects o v k))
        (λ k. object_weight a (objects k)) o n low
        (λ k other. ap (object_weight a) (ground arith)) in
    omega (arith, r, ap (object_weight a) new)

pub references_add :
    (a n : ℕ) (objects : ℕ → Option Object) (v : Option Object)
    → references a (update objects n v) (suc n) ≡ references a objects n + object_weight a v
unfolding references total
references_add a n objects v =
    let new : update objects n v n ≡ v = ground arith in
    let r : total (λ k. object_weight a (update objects n v k)) n
        ≡ total (λ k. object_weight a (objects k)) n =
      total_same (λ k. object_weight a (update objects n v k)) (λ k. object_weight a (objects k)) n
        (λ k low. ap (object_weight a) (ground arith)) in
    omega (arith, r, ap (object_weight a) new)

pub references_one :
    (a o n : ℕ) (objects : ℕ → Option Object)
    → o < n
    → object_weight a (objects o) ≤ references a objects n
unfolding references
references_one a o n objects low = total_member (λ k. object_weight a (objects k)) o n low

object_slot-weight :
    (a page : ℕ) (object : Option Object)
    → object_slot object page ≡ some a
    → 1 ≤ object_weight a object
object_slot-weight a page none h = cc
object_slot-weight a page (some object) h = slot-weight a object.amap page h

object_slot-weight_two :
    (a page q : ℕ) (object : Option Object)
    → page ≢ q
    → object_slot object page ≡ some a
    → object_slot object q ≡ some a
    → 2 ≤ object_weight a object
object_slot-weight_two a page q none d h h' = cc
object_slot-weight_two a page q (some object) d h h' = slot-weight_two a object.amap page q d h h'

pub references_slot :
    (a o page n : ℕ) (objects : ℕ → Option Object)
    → o < n
    → object_slot (objects o) page ≡ some a
    → 1 ≤ references a objects n
references_slot a o page n objects low h =
    omega (arith, references_one a o n objects low, object_slot-weight a page (objects o) h)

-- An anon with one reference is in one slot of one object.
pub sole_slot :
    (a o page o' q n : ℕ) (objects : ℕ → Option Object)
    → o < n
    → o' < n
    → references a objects n ≤ 1
    → object_slot (objects o) page ≡ some a
    → object_slot (objects o') q ≡ some a
    → (o ≡ o') × (page ≡ q)
unfolding references
sole_slot a o page o' q n objects low low' sole h h' = elim (Bool-cases (o == o')) [
  | inl same ↦
      let e : o ≡ o' = (==_iff o o').0 same in
      elim (Bool-cases (page == q)) [
        | inl here_too ↦ (e, (==_iff page q).0 here_too)
        | inr apart ↦ absurd (
            omega (
              arith,
              references_one a o n objects low,
              object_slot-weight_two a page q (objects o) (ground (arith, apart)) h
                  (subst (λ k. object_slot (objects k) q ≡ some a) (sym e) h'),
            ))
      ]
  | inr other ↦ absurd (
      omega (
        arith,
        total_two_members (λ k. object_weight a (objects k)) o o' n low low'
            (ground (arith, other)),
        object_slot-weight a page (objects o) h,
        object_slot-weight a q (objects o') h',
      ))
]
