-- ===== src/Sync/Mutex/Steps.antt =====
-- task.c: every step of a thread keeps the invariant of a mutex.
use scal_ux.Prelude.{
  ==_iff, Bool-cases, List, Option-cases, [], ap, arith, bit, count, count-append, false, inl, inr,
  leb, ltb, none, owns, owns_only, refl, some, suc, sym, tally, tally_one, tally_two, true, update,
  ℕ, ◌+◌, ◌<◌, ◌==◌, ◌∙◌, ◌∷◌, ◌≡◌, ◌≢◌, ◌≤◌,
}
use scal_ux.Sync.Mutex.{
  Mutex, Place, entering, goes, holding, idle, joining, lock_arrive, lock_own, releasing,
  unlock_disown, unlock_leave, waiting, waitq_await, waitq_wake_one, wake_first, waking,
}
use scal_ux.Sync.Mutex.Invariant.{
  Inv, holding_place, is_counted, is_given, is_holding, is_waiting, is_waking, not_both, tally-le,
  tally_balance, update-Moved,
}

waiting_place : (p : Place) → is_waiting p ≡ true → p ≡ waiting
waiting_place idle h = cc
waiting_place joining h = cc
waiting_place waiting h = refl
waiting_place entering h = cc
waiting_place holding h = cc
waiting_place releasing h = cc
waiting_place waking h = cc

module _ (n : ℕ) (m : Mutex) (inv : Inv n m) (t : ℕ) (low : t < n) where
  pub lock_arrive-Inv : m.place t ≡ idle → Inv n (lock_arrive t m)
  unfolding lock_arrive
  lock_arrive-Inv e = elim (Bool-cases (leb 1 m.count)) [
    | inl busy ↦
        let v = update-Moved n m.place t idle joining low e in
        rw busy (record {
          few = inv.few;
          counted =
              omega
                (arith, v.counted, inv.counted, tally-le is_counted (update m.place t joining) n);
          given_once = omega (arith, v.given, inv.given_once);
          behind = omega (arith, v.wakers, v.blocked, inv.behind);
          owner_holds = λ u l. ground (arith, inv.owner_holds u l, e);
          owner_known = inv.owner_known;
          queued = λ u. ground (arith, inv.queued u, e);
        })
    | inr free ↦
        let v = update-Moved n m.place t idle entering low e in
        let b = tally_balance m.place n in
        rw free (record {
          few = inv.few;
          counted = ground (arith, v.counted, inv.counted);
          given_once = ground (arith, v.given, inv.given_once, b, inv.counted, inv.behind);
          behind = omega (arith, v.wakers, v.blocked, inv.behind);
          owner_holds = λ u l. ground (arith, inv.owner_holds u l, e);
          owner_known = inv.owner_known;
          queued = λ u. ground (arith, inv.queued u, e);
        })
  ]

  pub waitq_await-Inv : m.place t ≡ joining → Inv n (waitq_await t m)
  unfolding waitq_await
  waitq_await-Inv e =
      let v = update-Moved n m.place t joining waiting low e in
      record {
        few = inv.few;
        counted = omega (arith, v.counted, inv.counted);
        given_once = omega (arith, v.given, inv.given_once);
        behind = omega (arith, v.wakers, v.blocked, inv.behind);
        owner_holds = λ u l. ground (arith, inv.owner_holds u l, e);
        owner_known = inv.owner_known;
        queued = λ u. ground (arith, inv.queued u, e, count-append u m.waiters (t ∷ []));
      }

  -- A thread that is about to become the owner finds no owner.
  pub entering_alone : m.place t ≡ entering → m.owner ≡ none
  entering_alone e = elim (Option-cases m.owner) [
    | inl free ↦ free
    | inr (u, owned) ↦
        let mine : owns u m.owner ≡ true = rw owned (ground arith) in
        let low' : u < n = inv.owner_known u mine in
        let there : m.place u ≡ holding =
          holding_place (m.place u) (inv.owner_holds u low' ∙ mine) in
        let apart : t ≢ u = λ q. not_both (sym e ∙ ap m.place q ∙ there) in
        let two : bit (is_given (m.place t)) + bit (is_given (m.place u))
            ≤ tally is_given m.place n =
          tally_two is_given m.place t u n low low' apart in
        let both : 2 ≤ tally is_given m.place n = rw (e, there) at two in
        absurd (omega (arith, both, inv.given_once))
  ]

  pub lock_own-Inv : m.place t ≡ entering → (k : Mutex) × (lock_own t m ≡ goes k) × Inv n k
  unfolding lock_own
  lock_own-Inv e =
      let v = update-Moved n m.place t entering holding low e in
      let free = entering_alone e in
      (
        record m { owner = some t; place = update m.place t holding },
        rw free refl,
        record {
          few = inv.few;
          counted = omega (arith, v.counted, inv.counted);
          given_once = omega (arith, v.given, inv.given_once);
          behind = omega (arith, v.wakers, v.blocked, inv.behind);
          owner_holds = λ u l. ground (arith, inv.owner_holds u l, e, free);
          owner_known = λ u h. ground arith;
          queued = λ u. ground (arith, inv.queued u, e);
        },
      )

  pub unlock_disown-Inv : m.place t ≡ holding → (k : Mutex) × (unlock_disown t m ≡ goes k) × Inv n k
  unfolding unlock_disown
  unlock_disown-Inv e =
      let v = update-Moved n m.place t holding releasing low e in
      let mine : owns t m.owner ≡ true = sym (inv.owner_holds t low) ∙ ap is_holding e in
      (
        record m { owner = none; place = update m.place t releasing },
        rw mine refl,
        record {
          few = inv.few;
          counted = omega (arith, v.counted, inv.counted);
          given_once = omega (arith, v.given, inv.given_once);
          behind = omega (arith, v.wakers, v.blocked, inv.behind);
          owner_holds = λ u l. elim (Bool-cases (t == u)) [
            | inl same ↦ rw same refl
            | inr there ↦ rw there (inv.owner_holds u l ∙ owns_only m.owner t u mine there)
          ];
          owner_known = λ u h. cc;
          queued = λ u. ground (arith, inv.queued u, e);
        },
      )

  pub unlock_leave-Inv : m.place t ≡ releasing → Inv n (unlock_leave t m)
  unfolding unlock_leave
  unlock_leave-Inv e = elim (Bool-cases (ltb 1 m.count)) [
    | inl more ↦
        let v = update-Moved n m.place t releasing waking low e in
        let b = tally_balance m.place n in
        rw more (record {
          few = inv.few;
          counted = ground (arith, v.counted, inv.counted, tally-le is_counted m.place n);
          given_once = omega (arith, v.given, inv.given_once);
          behind =
              ground
                (arith, v.wakers, v.blocked, inv.behind, b, inv.counted, v.given, inv.given_once);
          owner_holds = λ u l. ground (arith, inv.owner_holds u l, e);
          owner_known = inv.owner_known;
          queued = λ u. ground (arith, inv.queued u, e);
        })
    | inr last ↦
        let v = update-Moved n m.place t releasing idle low e in
        let one = tally_one is_counted m.place t n low in
        rw last (record {
          few = inv.few;
          counted = ground (arith, v.counted, inv.counted, tally-le is_counted m.place n, one);
          given_once = omega (arith, v.given, inv.given_once);
          behind = omega (arith, v.wakers, v.blocked, inv.behind);
          owner_holds = λ u l. ground (arith, inv.owner_holds u l, e);
          owner_known = inv.owner_known;
          queued = λ u. ground (arith, inv.queued u, e);
        })
  ]

  -- A thread on the queue is one that waits.
  queued_waits :
      (w : ℕ) (rest : List ℕ)
      → m.waiters ≡ w ∷ rest
      → (w < n) × (m.place w ≡ waiting) × (count w rest ≡ 0)
  queued_waits w rest q =
      let c : count w m.waiters ≡ suc (count w rest) = rw q (ground arith) in
      let on : is_waiting (m.place w) ≡ true = ground (arith, inv.queued w, c) in
      (
        ground (arith, inv.queued w, c),
        waiting_place (m.place w) on,
        ground (arith, inv.queued w, c),
      )

  wake_none-Inv :
      m.place t ≡ waking → m.waiters ≡ [] → Inv n (record m { place = update m.place t idle })
  wake_none-Inv e q =
      let v = update-Moved n m.place t waking idle low e in
      record {
        few = inv.few;
        counted = omega (arith, v.counted, inv.counted);
        given_once = omega (arith, v.given, inv.given_once);
        behind = omega (arith, v.wakers, v.blocked, inv.behind);
        owner_holds = λ u l. ground (arith, inv.owner_holds u l, e);
        owner_known = inv.owner_known;
        queued = λ u. ground (arith, inv.queued u, e);
      }

  wake_one-Inv :
      (w : ℕ) (rest : List ℕ)
      → m.place t ≡ waking
      → m.waiters ≡ w ∷ rest
      → Inv n (record m { waiters = rest; place = update (update m.place t idle) w entering })
  wake_one-Inv w rest e q =
      let (low', at, once) = queued_waits w rest q in
      let c : (u : ℕ) → count u m.waiters ≡ bit (u == w) + count u rest = λ u. rw q refl in
      let apart : (t == w) ≡ false = elim (Bool-cases (t == w)) [
        | inl same ↦
            let f : true ≡ false = ap is_waking (sym e ∙ ap m.place ((==_iff t w).0 same) ∙ at) in
            absurd cc
        | inr other ↦ other
      ] in
      let v = update-Moved n m.place t waking idle low e in
      let v' =
        update-Moved n (update m.place t idle) w waiting entering low'
          (ground (arith, apart, at)) in
      record {
        few = inv.few;
        counted = omega (arith, v.counted, v'.counted, inv.counted);
        given_once = omega (arith, v.given, v'.given, inv.given_once);
        behind = omega (
          arith, v.wakers, v.blocked, v'.wakers, v'.blocked, inv.behind, v.given, v'.given,
          inv.given_once,
        );
        owner_holds = λ u l. ground (arith, inv.owner_holds u l, e, at);
        owner_known = inv.owner_known;
        queued = λ u. ground (arith, inv.queued u, e, c u, once);
      }

  wake_first-Inv : (l : List ℕ) → m.place t ≡ waking → m.waiters ≡ l → Inv n (wake_first t l m)
  unfolding wake_first
  wake_first-Inv [] e q = wake_none-Inv e q
  wake_first-Inv (w ∷ rest) e q = wake_one-Inv w rest e q

  pub waitq_wake_one-Inv : m.place t ≡ waking → Inv n (waitq_wake_one t m)
  unfolding waitq_wake_one
  waitq_wake_one-Inv e = wake_first-Inv m.waiters e refl
