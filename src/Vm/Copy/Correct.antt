-- ===== src/Vm/Copy/Correct.antt =====
-- vm/vm.c: a copied object has the bytes of the old one, and keeps them apart from it.
use scal_ux.Vm.Anons.{chunk_or_empty, chunk_pages}
use scal_ux.Vm.View.Objects.{references_one, references_add}
use scal_ux.Vm.Objects.{add_object, amap_copy, is_anonymous, vm_object_copy}
use scal_ux.Vm.Copy.{Allowed, Shared, page_of, shared_state}
use scal_ux.Vm.Invariant.{Frames, Inv, held_by, on_free, sharing_limit}
use scal_ux.Vm.View.{
  anon_byte, byte, chunk_weight, object_slot, object_weight, slot, slot_byte, weight,
}
use scal_ux.Prelude.{
  Bool-cases, Option, ap, arith, bit, false, inl, inr, ltb, none, owns, refl, some, subst, sym,
  total_same, true, update, ℕ, ◌%◌, ◌+◌, ◌/◌, ◌<◌, ◌==◌, ◌>>=◌, ◌∙◌, ◌≡◌,
}
use scal_ux.Page.{Pages}
use scal_ux.Vm.{Amap, Anon, Chunk, Mapping, Object, Vm, anonymous}
use scal_ux.Vm.Copy.Loops.{SameChunk, copy_chunks_lem}

-- Two amaps with the same slots.
record SameAmap (m k : Amap) : Type 0 where
  slots : (page : ℕ) → slot m page ≡ slot k page
  weights : (a : ℕ) → weight a m ≡ weight a k

amap_copy_same :
    (n : ℕ) (new old : ℕ → Option Chunk)
    → ((i : ℕ) → i < n → SameChunk (new i) (old i))
    → SameAmap (record { chunks = new; curnchunk = n }) (record { chunks = old; curnchunk = n })
unfolding slot weight chunk_weight
amap_copy_same n new old same = record {
  slots = λ page. elim (Bool-cases (ltb (page / chunk_pages) n)) [
    | inl low ↦
        rw low (same (page / chunk_pages) (ground (arith, low)) (page % chunk_pages) (omega arith))
    | inr high ↦ rw high refl
  ];
  weights = λ a.
      total_same (λ i. chunk_weight a (new i)) (λ i. chunk_weight a (old i)) n
        (λ i low.
          total_same (λ k. bit (owns a (chunk_or_empty (new i) k)))
            (λ k. bit (owns a (chunk_or_empty (old i) k))) chunk_pages
            (λ k low'. ap (λ x. bit (owns a x)) (same i low k low')));
}

-- Anons with the same pages hold the same bytes, and have a page of their own each.
pub same_page :
    (x y : Option Anon)
    → page_of x ≡ page_of y
    → (r : Anon) → x ≡ some r
    → (t : Anon) × (y ≡ some t) × (t.physpage ≡ r.physpage)
same_page x none h r is = absurd (ground (arith, is, h))
same_page x (some t) h r is = (t, refl, ground (arith, is, h))

same_page_byte :
    (pages : Pages) (x y : Option Anon) (offset : ℕ)
    → page_of x ≡ page_of y
    → anon_byte pages x offset ≡ anon_byte pages y offset
same_page_byte pages none none offset h = refl
same_page_byte pages none (some t) offset h = cc
same_page_byte pages (some r) none offset h = cc
same_page_byte pages (some r) (some t) offset h =
    ap (λ k. pages.contents k offset) (ground (arith, h))

pub same_page_none : (x : Option Anon) → page_of x ≡ page_of none → x ≡ none
same_page_none none h = refl
same_page_none (some r) h = cc

pub same_slot_byte :
    (pages : Pages) (A B : ℕ → Option Anon) (x : Option ℕ) (offset : ℕ)
    → ((a : ℕ) → page_of (A a) ≡ page_of (B a))
    → slot_byte pages A x offset ≡ slot_byte pages B x offset
same_slot_byte pages A B none offset h = refl
same_slot_byte pages A B (some a) offset h = same_page_byte pages (A a) (B a) offset (h a)

pub same_pages-Frames :
    (A B : ℕ → Option Anon) (pages : Pages)
    → ((a : ℕ) → page_of (A a) ≡ page_of (B a))
    → Frames B pages
    → Frames A pages
same_pages-Frames A B pages h f = record {
  queues = f.queues;
  taken = λ a r is.
      let (t, was, e) = same_page (A a) (B a) (h a) r is in
      subst (λ k. on_free k pages ≡ 0) e (f.taken a t was);
  apart = λ a b r r' is is' same.
      let (t, was, e) = same_page (A a) (B a) (h a) r is in
      let (t', was', e') = same_page (A b) (B b) (h b) r' is' in
      f.apart a b t t' was was' (e ∙ same ∙ sym e');
}

-- What a copy `new` of the object `o` is: its bytes are those of `o`, no other object's have changed,
-- and the invariant holds.
pub record Copied (o : ℕ) (s : Vm) (new : ℕ) (t : Vm) : Type 0 where
  pub inv : Inv t
  pub unused : s.objects new ≡ none
  pub same_bytes : (page offset : ℕ) → byte t new page offset ≡ byte s o page offset
  pub others_kept :
      (x page offset : ℕ) → (new == x) ≡ false → byte t x page offset ≡ byte s x page offset

module _ (s : Vm) (inv : Inv s) (o : ℕ) (object : Object) (live : s.objects o ≡ some object) where
  low_number : o < s.next_object
  low_number = elim (Bool-cases (ltb o s.next_object)) [
    | inl low ↦ ground (arith, low)
    | inr high ↦ ground (arith, inv.fresh.objects o (ground (arith, high)), live)
  ]

  module _ (amap : Amap) (A : ℕ → Option Anon) (T : ℕ → ℕ → Option Mapping)
      (same : SameAmap amap object.amap) (shared : Shared s (λ a. weight a object.amap) A T)
      (in_range : (a : ℕ) → held_by s a + weight a object.amap < sharing_limit) where
    abbrev copied : Object
    copied = record {
      refcnt = 1;
      type_of = object.type_of;
      bytes = object.bytes;
      amap = amap;
      parent = object.parent;
    }

    abbrev after : Vm
    after = (add_object copied (shared_state s A T)).1

    after-Inv : Inv after
    after-Inv = record {
      fresh = record {
        anons =
            λ a high. same_page_none (A a) (shared.pages a ∙ ap page_of (inv.fresh.anons a high));
        objects = λ k high. ground (arith, inv.fresh.objects k);
      };
      counts = record {
        counted = λ a. omega (
          arith,
          shared.counts a,
          inv.counts.counted a,
          same.weights a,
          references_add a s.next_object s.objects (some copied),
        );
        in_range = λ a. omega (
          arith,
          in_range a,
          same.weights a,
          references_add a s.next_object s.objects (some copied),
        );
      };
      frames = same_pages-Frames A s.anons s.pages shared.pages inv.frames;
      mapped = shared.mapped;
    }

    after-Copied : Copied o s s.next_object after
    unfolding byte
    after-Copied = record {
      inv = after-Inv;
      unused = inv.fresh.objects s.next_object (omega arith);
      same_bytes = λ page offset.
          let new : update s.objects s.next_object (some copied) s.next_object ≡ some copied =
            ground arith in
          rw new (
            rw live (
              same_slot_byte s.pages A s.anons (slot amap page) offset shared.pages
              ∙ ap (λ x. slot_byte s.pages s.anons x offset) (same.slots page)));
      others_kept = λ x page offset other.
          let old : update s.objects s.next_object (some copied) x ≡ s.objects x = rw other refl in
          rw old
            (same_slot_byte s.pages A s.anons (object_slot (s.objects x) page) offset shared.pages);
    }

-- vm_object_copy of an anonymous object with at least one chunk does not panic, where the field refcnt
-- has room for the references: the copy has the bytes of the old object, every other object keeps its
-- bytes, and the invariant is kept, by which no page with two references may be written.
pub vm_object_copy-Copied :
    (s : Vm) (o : ℕ) (object : Object)
    → Inv s
    → s.objects o ≡ some object
    → object.type_of ≡ anonymous
    → 0 < object.amap.curnchunk
    → ((a : ℕ) → held_by s a + weight a object.amap < sharing_limit)
    → (new : ℕ) × (t : Vm) × (vm_object_copy o s ≡ some (new, t)) × Copied o s new t
unfolding vm_object_copy amap_copy weight
vm_object_copy-Copied s o object inv live kind some_chunk in_range =
    let n : ℕ = object.amap.curnchunk in
    let allowed : Allowed s (λ a. weight a object.amap) = record {
      referenced = λ a. omega (
        arith,
        inv.counts.counted a,
        references_one a o s.next_object s.objects (low_number s inv o object live),
        ap (object_weight a) live,
      );
      in_range = λ a. omega (arith, inv.counts.counted a, in_range a);
    } in
    let (new, A, T, run, same, shared) =
      copy_chunks_lem object.amap.chunks n s inv.mapped allowed in
    let room : ltb 0 n ≡ true = ground (arith, some_chunk) in
    let kind' : is_anonymous object.type_of ≡ true = ap is_anonymous kind in
    (
      s.next_object,
      after s inv o object live (record { chunks = new; curnchunk = n }) A T
          (amap_copy_same n new object.amap.chunks same) shared in_range,
      rw (live, ◌>>=◌) (rw (kind', ◌>>=◌) (rw (room, ◌>>=◌) (rw (run, ◌>>=◌) refl))),
      after-Copied s inv o object live (record { chunks = new; curnchunk = n }) A T
          (amap_copy_same n new object.amap.chunks same) shared in_range,
    )
