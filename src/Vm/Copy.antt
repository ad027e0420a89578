-- ===== src/Vm/Copy.antt =====
-- vm/vm.c: one more reference to an anon, in a state that has room for it.
pub mod Loops
pub mod Correct
use scal_ux.Vm.Invariant.Share.{readonly-Mapped}
use scal_ux.Vm.Anons.{field_up, set_anon}
use scal_ux.Vm.Enter.{pmap_reenter_all_readonly}
use scal_ux.Vm.Invariant.{Mapped, count_of, sharing_limit}
use scal_ux.Vm.Objects.{share}
use scal_ux.Prelude.{
  ==_iff, Bool, Bool-cases, Option, ap, arith, bit, inl, inr, none, owns, refl, some, update, ℕ,
  ◌+◌, ◌<◌, ◌==◌, ◌∙◌, ◌≡◌, ◌≤◌,
}
use scal_ux.Vm.{Anon, Mapping, Vm}
use scal_ux.Vm.Invariant.Places.{readonly, reenter_places_lem}

-- The page of an anon, and whether it is resident.
abbrev pub page_of : Option Anon → Option (ℕ × Bool)
page_of none = none
page_of (some anon) = some (anon.physpage, anon.resident)

-- The anons and tables of a state in which each anon `a` has `extra a` more references.
pub record Shared (s : Vm) (extra : ℕ → ℕ) (A : ℕ → Option Anon) (T : ℕ → ℕ → Option Mapping)
    : Type 0 where
  pub counts : (a : ℕ) → count_of (A a) ≡ count_of (s.anons a) + extra a
  pub pages : (a : ℕ) → page_of (A a) ≡ page_of (s.anons a)
  pub mapped : Mapped T s.pv_table A s.pages

-- Each anon that is to have more references has as many already, and room for more.
pub record Allowed (s : Vm) (extra : ℕ → ℕ) : Type 0 where
  pub referenced : (a : ℕ) → extra a ≤ count_of (s.anons a)
  pub in_range : (a : ℕ) → count_of (s.anons a) + extra a < sharing_limit

abbrev pub shared_state : Vm → (ℕ → Option Anon) → (ℕ → ℕ → Option Mapping) → Vm
shared_state s A T = record s { anons = A; tables = T }

pub none_yet_more :
    (s : Vm) (extra : ℕ → ℕ)
    → ((a : ℕ) → extra a ≡ 0)
    → Mapped s.tables s.pv_table s.anons s.pages
    → Shared s extra s.anons s.tables
none_yet_more s extra h m = record {
  counts = λ a. omega (arith, h a);
  pages = λ a. refl;
  mapped = m;
}

pub then_more :
    (s : Vm) (e e' d : ℕ → ℕ) {A A' : ℕ → Option Anon} {T T' : ℕ → ℕ → Option Mapping}
    → ((a : ℕ) → d a ≡ e a + e' a)
    → Shared s e A T
    → Shared (shared_state s A T) e' A' T'
    → Shared s d A' T'
then_more s e e' d h first second = record {
  counts = λ a. omega (arith, h a, first.counts a, second.counts a);
  pages = λ a. second.pages a ∙ first.pages a;
  mapped = second.mapped;
}

is_some_anon : (o : Option Anon) → 1 ≤ count_of o → (r : Anon) × (o ≡ some r)
is_some_anon none h = absurd (omega arith)
is_some_anon (some r) h = (r, refl)

up_by_one : (n : ℕ) → n < sharing_limit → field_up n ≡ n + 1
up_by_one n h = omega arith

pub share_lem :
    (x : Option ℕ) (s : Vm)
    → Mapped s.tables s.pv_table s.anons s.pages
    → Allowed s (λ a. bit (owns a x))
    → (A : ℕ → Option Anon) × (T : ℕ → ℕ → Option Mapping) × (share x s ≡ some (shared_state s A T))
      × Shared s (λ a. bit (owns a x)) A T
unfolding share pmap_reenter_all_readonly
share_lem none s m allowed =
    (s.anons, s.tables, refl, none_yet_more s (λ a. bit (owns a none)) (λ a. refl) m)
share_lem (some b) s m allowed =
    let (r, is) = is_some_anon (s.anons b) (ground (arith, allowed.referenced b)) in
    let up : field_up r.refcnt ≡ r.refcnt + 1 =
      up_by_one r.refcnt (ground (arith, allowed.in_range b, is)) in
    let one_more : Anon = record r { refcnt = field_up r.refcnt } in
    let A : ℕ → Option Anon = update s.anons b (some one_more) in
    let T : ℕ → ℕ → Option Mapping = readonly r.physpage (s.pv_table r.physpage) s.tables in
    (
      A,
      T,
      rw is (
          ap some
            (reenter_places_lem r.physpage (s.pv_table r.physpage) (set_anon b (some one_more) s))),
      record {
        counts = λ a. elim (Bool-cases (b == a)) [
          | inl this ↦ ground (arith, ap s.anons ((==_iff b a).0 this), is, up)
          | inr other ↦ ground arith
        ];
        pages = λ a. elim (Bool-cases (b == a)) [
          | inl this ↦ ground (arith, ap s.anons ((==_iff b a).0 this), is)
          | inr other ↦ ground arith
        ];
        mapped =
            readonly-Mapped s.tables s.pv_table s.anons s.pages m b r.physpage r is refl
              (field_up r.refcnt);
      },
    )

pub count_in_range : (s : Vm) (e d : ℕ → ℕ) → ((a : ℕ) → e a ≤ d a) → Allowed s d → Allowed s e
count_in_range s e d h allowed = record {
  referenced = λ a. omega (arith, h a, allowed.referenced a);
  in_range = λ a. omega (arith, h a, allowed.in_range a);
}

-- What is still allowed when a part has been done.
pub still_to_do :
    (s : Vm) (e e' d : ℕ → ℕ) {A : ℕ → Option Anon} {T : ℕ → ℕ → Option Mapping}
    → ((a : ℕ) → d a ≡ e a + e' a)
    → Allowed s d
    → Shared s e A T
    → Allowed (shared_state s A T) e'
still_to_do s e e' d h allowed shared = record {
  referenced = λ a. omega (arith, h a, allowed.referenced a, shared.counts a);
  in_range = λ a. omega (arith, h a, allowed.in_range a, shared.counts a);
}
