-- ===== src/Kmem/Zone/Fill.antt =====
-- kmem_slab.c: the freelist that small_slab_new and large_slab_new set up for a new slab.
use scal_ux.Prelude.{
  ==_iff, Bool-cases, Option, ap, arith, inl, inr, none, refl, some, subst, suc, sym, update, zero,
  ℕ, ◌*◌, ◌+◌, ◌<◌, ◌==◌, ◌∙◌, ◌≡◌, ◌≢◌, ◌≤◌,
}
use scal_ux.Kmem.Zone.{Supply, Zone, link_large, link_prev, link_small}

-- Objects of a positive size lie at different addresses.
pub mul-lt : (size j k : ℕ) → 0 < size → j < k → j * size < k * size
mul-lt size j k pos h = grind arith

-- No other link is touched by the loop of small_slab_new.
pub link_small-other :
    (rounds i base size : ℕ) (next : ℕ → Option ℕ) (x : ℕ)
    → ((k : ℕ) → i ≤ k → k < i + rounds → base + k * size ≢ x)
    → link_small rounds i base size next x ≡ next x
unfolding link_small
link_small-other zero i base size next x h = refl
link_small-other (suc n) i base size next x h =
    let first : base + i * size ≢ x = h i (omega arith) (omega arith) in
    ground (
      arith,
      first,
      link_small-other n (i + 1) base size
          (update next (base + i * size) (some (base + (i + 1) * size))) x
          (λ k a b. h k (omega arith) (omega arith)),
    )

-- What the loop leaves: the object `k` is linked to the next for the rounds run.
pub link_small-linked :
    (rounds i base size : ℕ) (next : ℕ → Option ℕ) (k : ℕ)
    → 0 < size
    → i ≤ k
    → k < i + rounds
    → link_small rounds i base size next (base + k * size) ≡ some (base + (k + 1) * size)
unfolding link_small
link_small-linked zero i base size next k pos a b = absurd (omega arith)
link_small-linked (suc n) i base size next k pos a b =
    let next' : ℕ → Option ℕ = update next (base + i * size) (some (base + (i + 1) * size)) in
    elim (Bool-cases (i == k)) [
      | inl t ↦
          let e : i ≡ k = (==_iff _ _).0 t in
          let rest : link_small n (i + 1) base size next' (base + i * size)
              ≡ next' (base + i * size) =
            link_small-other n (i + 1) base size next' (base + i * size)
              (λ j c d e'. omega (arith, mul-lt size i j pos (omega arith))) in
          subst
            (λ j.
              link_small n (i + 1) base size next' (base + j * size) ≡ some (base + (j + 1) * size))
            e (rest ∙ ground arith)
      | inr f ↦ link_small-linked n (i + 1) base size next' k pos (ground arith) (omega arith)
    ]

pub link_prev-other :
    (prev : Option ℕ) (e : ℕ) (next : ℕ → Option ℕ) (x : ℕ)
    → prev ≢ some x
    → link_prev prev e next x ≡ next x
link_prev-other none e next x h = refl
link_prev-other (some p) e next x h = let d : p ≢ x = λ e. h (ap some e) in ground (arith, d)

abbrev link_step : ℕ → Option ℕ → Supply → Zone → Zone
link_step i prev supply z = record z {
  slab = update z.slab (supply.entry i) supply.header;
  base = update z.base (supply.entry i) (supply.pages + z.size * i);
  sle_next = link_prev prev (supply.entry i) z.sle_next;
}

-- An entry that is not one of the new ones, nor the one before them, keeps its fields.
pub link_large-other :
    (rounds i : ℕ) (prev : Option ℕ) (supply : Supply) (z : Zone) (x : ℕ)
    → ((k : ℕ) → i ≤ k → k < i + rounds → supply.entry k ≢ x)
    → ((link_large rounds i prev supply z).slab x ≡ z.slab x)
      × ((link_large rounds i prev supply z).base x ≡ z.base x)
      × (prev ≢ some x → (link_large rounds i prev supply z).sle_next x ≡ z.sle_next x)
unfolding link_large
link_large-other zero i prev supply z x h = (refl, refl, λ _. refl)
link_large-other (suc n) i prev supply z x h =
    let first : supply.entry i ≢ x = h i (omega arith) (omega arith) in
    let (a, b, c) =
      link_large-other n (i + 1) (some (supply.entry i)) supply (link_step i prev supply z) x
        (λ k a b. h k (omega arith) (omega arith)) in
    (
      ground (arith, first, a),
      ground (arith, first, b),
      λ d. c (λ e. first cc) ∙ link_prev-other prev (supply.entry i) z.sle_next x d,
    )

pub link_large-zone :
    (rounds i : ℕ) (prev : Option ℕ) (supply : Supply) (z : Zone)
    → ((link_large rounds i prev supply z).size ≡ z.size)
      × ((link_large rounds i prev supply z).slablist ≡ z.slablist)
      × ((link_large rounds i prev supply z).bufctllist ≡ z.bufctllist)
unfolding link_large
link_large-zone zero i prev supply z = (refl, refl, refl)
link_large-zone (suc n) i prev supply z =
    link_large-zone n (i + 1) (some (supply.entry i)) supply (link_step i prev supply z)

-- The fields of the entries that the loop of large_slab_new leaves.
pub record Linked (rounds i : ℕ) (prev : Option ℕ) (supply : Supply) (size : ℕ) (r : Zone)
    : Type 0 where
  pub joined :
      (p : ℕ)
      → 0 < rounds
      → prev ≡ some p
      → ((k : ℕ) → i ≤ k → k < i + rounds → supply.entry k ≢ p)
      → r.sle_next p ≡ some (supply.entry i)
  pub links :
      (k : ℕ)
      → i ≤ k
      → k + 1 < i + rounds
      → r.sle_next (supply.entry k) ≡ some (supply.entry (k + 1))
  pub slabs : (k : ℕ) → i ≤ k → k < i + rounds → r.slab (supply.entry k) ≡ supply.header
  pub bases : (k : ℕ) → i ≤ k → k < i + rounds → r.base (supply.entry k) ≡ supply.pages + size * k

pub link_large-Linked :
    (rounds i : ℕ) (prev : Option ℕ) (supply : Supply) (z : Zone)
    → ((j k : ℕ) → i ≤ j → j < k → k < i + rounds → supply.entry j ≢ supply.entry k)
    → Linked rounds i prev supply z.size (link_large rounds i prev supply z)
unfolding link_large
link_large-Linked zero i prev supply z h = record {
  joined = λ p pos e d. absurd (omega arith);
  links = λ k a b. absurd (omega arith);
  slabs = λ k a b. absurd (omega arith);
  bases = λ k a b. absurd (omega arith);
}
link_large-Linked (suc n) i prev supply z h =
    let rest =
      link_large-Linked n (i + 1) (some (supply.entry i)) supply (link_step i prev supply z)
        (λ j k a b c. h j k (omega arith) b (omega arith)) in
    let other =
      link_large-other n (i + 1) (some (supply.entry i)) supply (link_step i prev supply z) in
    let apart : (k : ℕ) → i + 1 ≤ k → k < i + 1 + n → supply.entry k ≢ supply.entry i =
      λ k a b e. h i k (omega arith) (omega arith) (omega arith) (sym e) in
    record {
      joined = λ p pos e d.
          (other p (λ k a b. d k (omega arith) (omega arith))).2
            (λ e'. d i (omega arith) (omega arith) cc)
          ∙ rw e (ground arith);
      links = λ k a b. elim (Bool-cases (i == k)) [
        | inl t ↦
            subst
              (λ j.
                (link_large n (i + 1) (some (supply.entry i)) supply
                    (link_step i prev supply z)).sle_next
                  (supply.entry j)
                ≡ some (supply.entry (j + 1)))
              ((==_iff _ _).0 t) (rest.joined (supply.entry i) (ground arith) refl apart)
        | inr f ↦ rest.links k (ground arith) (omega arith)
      ];
      slabs = λ k a b. elim (Bool-cases (i == k)) [
        | inl t ↦
            subst
              (λ j.
                (link_large n (i + 1) (some (supply.entry i)) supply
                    (link_step i prev supply z)).slab
                  (supply.entry j)
                ≡ supply.header)
              ((==_iff _ _).0 t) ((other (supply.entry i) apart).0 ∙ ground arith)
        | inr f ↦ rest.slabs k (ground arith) (omega arith)
      ];
      bases = λ k a b. elim (Bool-cases (i == k)) [
        | inl t ↦
            subst
              (λ j.
                (link_large n (i + 1) (some (supply.entry i)) supply
                    (link_step i prev supply z)).base
                  (supply.entry j)
                ≡ supply.pages + z.size * j)
              ((==_iff _ _).0 t) ((other (supply.entry i) apart).1 ∙ ground arith)
        | inr f ↦ rest.bases k (ground arith) (omega arith)
      ];
    }
