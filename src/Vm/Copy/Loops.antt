-- ===== src/Vm/Copy/Loops.antt =====
-- vm/vm.c: copying an amap counts each anon once more for each slot that holds it.
use scal_ux.Vm.Anons.{chunk_or_empty, chunk_pages, empty_chunk}
use scal_ux.Vm.Copy.{
  Allowed, count_in_range, shared_state, Shared, then_more, share_lem, still_to_do, none_yet_more,
}
use scal_ux.Vm.Invariant.{Mapped}
use scal_ux.Vm.Objects.{no_chunks, copy_chunk, copy_slots, copy_chunks}
use scal_ux.Vm.View.{chunk_weight}
use scal_ux.Vm.View.Slots.{chunk_weight-none}
use scal_ux.Prelude.{
  ==_iff, Bool-cases, Option, ap, arith, bit, inl, inr, none, owns, refl, some, suc, total, update,
  zero, ℕ, ◌<◌, ◌==◌, ◌>>=◌, ◌∙◌, ◌≡◌,
}
use scal_ux.Vm.{Anon, Chunk, Mapping, Vm}

module _ (old : Chunk) where
  abbrev slots_below : ℕ → ℕ → ℕ
  slots_below n a = total (λ i. bit (owns a (old i))) n

  copy_slots_lem :
      (n : ℕ) (s : Vm)
      → Mapped s.tables s.pv_table s.anons s.pages
      → Allowed s (slots_below n)
      → (new : Chunk) × (A : ℕ → Option Anon) × (T : ℕ → ℕ → Option Mapping) × (copy_slots old n s
          ≡ some (new, shared_state s A T))
        × ((i : ℕ) → i < n → new i ≡ old i)
        × Shared s (slots_below n) A T
  unfolding copy_slots total
  copy_slots_lem zero s m allowed = (
    empty_chunk,
    s.anons,
    s.tables,
    refl,
    λ i low. absurd (omega arith),
    none_yet_more s (slots_below zero) (λ a. refl) m,
  )
  copy_slots_lem (suc n) s m allowed =
      let one : ℕ → ℕ = λ a. bit (owns a (old n)) in
      let (new, A, T, run, same, shared) =
        copy_slots_lem n s m
          (count_in_range s (slots_below n) (slots_below (suc n)) (λ a. omega arith) allowed) in
      let allowed' : Allowed (shared_state s A T) one =
        still_to_do s (slots_below n) one (slots_below (suc n)) (λ a. refl) allowed shared in
      let (A', T', run', shared') = share_lem (old n) (shared_state s A T) shared.mapped allowed' in
      (
        update new n (old n),
        A',
        T',
        rw (run, ◌>>=◌) (rw (run', ◌>>=◌) refl),
        λ i low. elim (Bool-cases (n == i)) [
          | inl this ↦ ground (arith, ap old ((==_iff n i).0 this))
          | inr other ↦ ground (arith, same i (ground (arith, other)))
        ],
        then_more s (slots_below n) one (slots_below (suc n)) (λ a. refl) shared shared',
      )

-- Two chunks hold the same, in each slot that there is.
abbrev pub SameChunk : Option Chunk → Option Chunk → Type 0
SameChunk c d = (i : ℕ) → i < chunk_pages → chunk_or_empty c i ≡ chunk_or_empty d i

copy_chunk_lem :
    (old : Option Chunk) (s : Vm)
    → Mapped s.tables s.pv_table s.anons s.pages
    → Allowed s (λ a. chunk_weight a old)
    → (new : Option Chunk) × (A : ℕ → Option Anon) × (T : ℕ → ℕ → Option Mapping) × (copy_chunk old
          s
        ≡ some (new, shared_state s A T))
      × SameChunk new old
      × Shared s (λ a. chunk_weight a old) A T
unfolding copy_chunk chunk_weight
copy_chunk_lem none s m allowed = (
  none,
  s.anons,
  s.tables,
  refl,
  λ i low. refl,
  none_yet_more s (λ a. chunk_weight a none) chunk_weight-none m,
)
copy_chunk_lem (some old) s m allowed =
    let (new, A, T, run, same, shared) = copy_slots_lem old chunk_pages s m allowed in
    (some new, A, T, rw (run, ◌>>=◌) refl, same, shared)

module _ (old : ℕ → Option Chunk) where
  abbrev pub chunks_below : ℕ → ℕ → ℕ
  chunks_below n a = total (λ i. chunk_weight a (old i)) n

  pub copy_chunks_lem :
      (n : ℕ) (s : Vm)
      → Mapped s.tables s.pv_table s.anons s.pages
      → Allowed s (chunks_below n)
      → (new : ℕ → Option Chunk) × (A : ℕ → Option Anon) × (T : ℕ → ℕ → Option Mapping)
        × (copy_chunks old n s ≡ some (new, shared_state s A T))
        × ((i : ℕ) → i < n → SameChunk (new i) (old i))
        × Shared s (chunks_below n) A T
  unfolding copy_chunks total
  copy_chunks_lem zero s m allowed = (
    no_chunks,
    s.anons,
    s.tables,
    refl,
    λ i low. absurd (omega arith),
    none_yet_more s (chunks_below zero) (λ a. refl) m,
  )
  copy_chunks_lem (suc n) s m allowed =
      let one : ℕ → ℕ = λ a. chunk_weight a (old n) in
      let (new, A, T, run, same, shared) =
        copy_chunks_lem n s m
          (count_in_range s (chunks_below n) (chunks_below (suc n)) (λ a. omega arith) allowed) in
      let allowed' : Allowed (shared_state s A T) one =
        still_to_do s (chunks_below n) one (chunks_below (suc n)) (λ a. refl) allowed shared in
      let (chunk, A', T', run', same', shared') =
        copy_chunk_lem (old n) (shared_state s A T) shared.mapped allowed' in
      (
        update new n chunk,
        A',
        T',
        rw (run, ◌>>=◌) (rw (run', ◌>>=◌) refl),
        λ i low k low'. elim (Bool-cases (n == i)) [
          | inl this ↦
              rw this (same' k low' ∙ ap (λ j. chunk_or_empty (old j) k) ((==_iff n i).0 this))
          | inr other ↦ rw other (same i (ground (arith, other)) k low')
        ],
        then_more s (chunks_below n) one (chunks_below (suc n)) (λ a. refl) shared shared',
      )
