-- ===== src/Vm/View/Slots.antt =====
-- vm/vm.c: what growing an amap and storing through a slot do to the slots and to the references.
use scal_ux.Vm.Anons.{amap_anon_at, chunk_or_empty, chunk_pages, grow}
use scal_ux.Prelude.{
  Bool-cases, Option, ap, arith, bit, if◌then◌else◌, inl, inr, ltb, none, owns, refl, some, total,
  total_longer, total_none, total_one_changed, total_same, update, ℕ, ◌+◌, ◌/◌, ◌<◌, ◌∙◌, ◌≡◌, ◌≤◌,
}
use scal_ux.Vm.{Amap, Chunk}
use scal_ux.Vm.View.{chunk_weight, slot, weight}

-- An amap whose slot of `page` can be stored to.
abbrev pub HasSlot : Amap → ℕ → Type 0
HasSlot amap page = page / chunk_pages < amap.curnchunk

pub chunk_weight-none : (a : ℕ) → chunk_weight a none ≡ 0
unfolding chunk_weight
chunk_weight-none a = total_none (λ i. bit (owns a none)) chunk_pages (λ i low. refl)

pub chunk_weight_empty :
    (a : ℕ) (chunk : Option Chunk)
    → chunk_weight a (some (chunk_or_empty chunk)) ≡ chunk_weight a chunk
unfolding chunk_weight
chunk_weight_empty a chunk = refl

grow-weight :
    (a : ℕ) (amap : Amap) (n : ℕ) → amap.curnchunk ≤ n → weight a (grow amap n) ≡ weight a amap
unfolding weight grow
grow-weight a amap n room =
    total_longer (λ i. chunk_weight a ((grow amap n).chunks i)) amap.curnchunk n room
      (λ i high. ap (chunk_weight a) (ground arith) ∙ chunk_weight-none a)
    ∙ total_same (λ i. chunk_weight a ((grow amap n).chunks i))
        (λ i. chunk_weight a (amap.chunks i)) amap.curnchunk
        (λ i low. ap (chunk_weight a) (ground arith))

grow-slot : (amap : Amap) (n q : ℕ) → amap.curnchunk ≤ n → slot (grow amap n) q ≡ slot amap q
unfolding slot grow
grow-slot amap n q room = ground arith

-- The array, grown where it is too short for the page.
abbrev pub grown_for : Amap → ℕ → Amap
grown_for amap page =
    if ltb amap.curnchunk (page / chunk_pages + 1) then grow amap (page / chunk_pages + 1) else amap

grown_for-weight : (a : ℕ) (amap : Amap) (page : ℕ) → weight a (grown_for amap page) ≡ weight a amap
grown_for-weight a amap page = elim (Bool-cases (ltb amap.curnchunk (page / chunk_pages + 1))) [
  | inl short ↦ rw short (grow-weight a amap (page / chunk_pages + 1) (ground arith))
  | inr long ↦ rw long refl
]

grown_for-slot : (amap : Amap) (page q : ℕ) → slot (grown_for amap page) q ≡ slot amap q
grown_for-slot amap page q = elim (Bool-cases (ltb amap.curnchunk (page / chunk_pages + 1))) [
  | inl short ↦ rw short (grow-slot amap (page / chunk_pages + 1) q (ground arith))
  | inr long ↦ rw long refl
]

grown_for-HasSlot : (amap : Amap) (page : ℕ) → HasSlot (grown_for amap page) page
unfolding grow
grown_for-HasSlot amap page = elim (Bool-cases (ltb amap.curnchunk (page / chunk_pages + 1))) [
  | inl short ↦ rw short (omega arith)
  | inr long ↦ rw long (ground arith)
]

-- A chunk put in the array.
abbrev with_chunk : Amap → ℕ → Option Chunk → Amap
with_chunk amap i chunk = record amap { chunks = update amap.chunks i chunk }

pub with_chunk-weight :
    (a : ℕ) (amap : Amap) (i : ℕ) (chunk : Option Chunk)
    → i < amap.curnchunk
    → weight a (with_chunk amap i chunk) + chunk_weight a (amap.chunks i)
      ≡ weight a amap + chunk_weight a chunk
unfolding weight
with_chunk-weight a amap i chunk low =
    let new : update amap.chunks i chunk i ≡ chunk = ground arith in
    let r : total (λ k. chunk_weight a (update amap.chunks i chunk k)) amap.curnchunk
          + chunk_weight a (amap.chunks i)
        ≡ total (λ k. chunk_weight a (amap.chunks k)) amap.curnchunk
          + chunk_weight a (update amap.chunks i chunk i) =
      total_one_changed (λ k. chunk_weight a (update amap.chunks i chunk k))
        (λ k. chunk_weight a (amap.chunks k)) i amap.curnchunk low
        (λ k other. ap (chunk_weight a) (ground arith)) in
    omega (arith, r, ap (chunk_weight a) new)

-- What amap_anon_at returns: the same slots and references, in an amap with room for the page.
pub record Found (amap : Amap) (page : ℕ) (r : Amap × Option ℕ) : Type 0 where
  pub holds : r.1 ≡ slot amap page
  pub room : HasSlot r.0 page
  pub same_slots : (q : ℕ) → slot r.0 q ≡ slot amap q
  pub same_weight : (a : ℕ) → weight a r.0 ≡ weight a amap

pub amap_anon_at-Found : (amap : Amap) (page : ℕ) → Found amap page (amap_anon_at amap page)
unfolding amap_anon_at slot
amap_anon_at-Found amap page =
    let here_now : HasSlot (grown_for amap page) page = grown_for-HasSlot amap page in
    record {
      holds = ground (arith, grown_for-slot amap page page, here_now);
      room = here_now;
      same_slots = λ q. ground (arith, grown_for-slot amap page q);
      same_weight = λ a. omega (
        arith,
        with_chunk-weight a (grown_for amap page) (page / chunk_pages)
            (some (chunk_or_empty ((grown_for amap page).chunks (page / chunk_pages)))) here_now,
        chunk_weight_empty a ((grown_for amap page).chunks (page / chunk_pages)),
        grown_for-weight a amap page,
      );
    }
