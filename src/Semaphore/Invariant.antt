-- ===== src/Semaphore/Invariant.antt =====
-- task.c: what holds of a semaphore between any two steps of `n` threads.
use scal_ux.Prelude.{
  Bool, Bool-cases, [], ap, arith, bit, count, count-append, false, if◌then◌else◌, inl, inr, leb,
  ltb, none, owns, owns_only, refl, subst, suc, sym, tally, tally-update, tally_none, true, update,
  zero, ℕ, ◌%◌, ◌+◌, ◌-◌, ◌<◌, ◌==◌, ◌^◌, ◌||◌, ◌∙◌, ◌∷◌, ◌≡◌, ◌≢◌, ◌≤◌,
}
use scal_ux.Semaphore.{
  Semaphore, Stage, outside, queueing, semaphore_init, signal_up, signalling, sleeping, wait_down,
  wait_queue,
}

abbrev pub is_blocked : Stage → Bool
is_blocked queueing = true
is_blocked sleeping = true
is_blocked _ = false

abbrev pub is_queueing : Stage → Bool
is_queueing queueing = true
is_queueing _ = false

abbrev pub is_sleeping : Stage → Bool
is_sleeping sleeping = true
is_sleeping _ = false

abbrev pub is_signalling : Stage → Bool
is_signalling signalling = true
is_signalling _ = false

-- How far the count is below 0.
abbrev pub debt : ℕ → ℕ
debt count = if leb (2 ^ 31) count then 2 ^ 32 - count else 0

pub record Inv (n : ℕ) (s : Semaphore) : Type 0 where
  pub few : n < 2 ^ 31 - 1
  pub int : s.count < 2 ^ 32
  -- A thread is blocked for each step of the count below 0, and for each wake-up on its way.
  pub balanced : tally is_blocked s.stage n ≡ debt s.count + tally is_signalling s.stage n
  pub locked : (t : ℕ) → t < n → is_queueing (s.stage t) ≡ owns t s.lock
  pub queued : (t : ℕ) → count t s.waiters ≡ (if ltb t n then bit (is_sleeping (s.stage t)) else 0)

pub tally_both : (f : ℕ → Stage) (n : ℕ) → tally is_blocked f n + tally is_signalling f n ≤ n
unfolding tally
tally_both f zero = omega arith
tally_both f (suc n) = omega (arith, tally_both f n, one (f n))
  where
    one : (p : Stage) → bit (is_blocked p) + bit (is_signalling p) ≤ 1
    one outside = omega arith
    one queueing = omega arith
    one sleeping = omega arith
    one signalling = omega arith

pub semaphore_init-Inv :
    (n count : ℕ) → n < 2 ^ 31 - 1 → count < 2 ^ 31 → Inv n (semaphore_init count)
unfolding semaphore_init
semaphore_init-Inv n count few low =
    let none_of : (q : Stage → Bool) → q outside ≡ false → tally q (λ _. outside) n ≡ 0 =
      λ q e. tally_none q (λ _. outside) n (λ i. e) in
    record {
      few = few;
      int = omega arith;
      balanced = ground (arith, none_of is_blocked refl, none_of is_signalling refl);
      locked = λ t l. refl;
      queued = λ t. ground arith;
    }

-- What a change of one thread's stage does to the numbers.
pub record Moved (n : ℕ) (f g : ℕ → Stage) (old new : Stage) : Type 0 where
  pub blocked :
      tally is_blocked g n + bit (is_blocked old) ≡ tally is_blocked f n + bit (is_blocked new)
  pub wakers :
      tally is_signalling g n + bit (is_signalling old)
      ≡ tally is_signalling f n + bit (is_signalling new)

pub update-Moved :
    (n : ℕ) (f : ℕ → Stage) (t : ℕ) (old new : Stage)
    → t < n
    → f t ≡ old
    → Moved n f (update f t new) old new
update-Moved n f t old new low e = record {
  blocked = moved is_blocked;
  wakers = moved is_signalling;
}
  where
    moved :
        (q : Stage → Bool) → tally q (update f t new) n + bit (q old) ≡ tally q f n + bit (q new)
    moved q =
        subst (λ p. tally q (update f t new) n + bit (q p) ≡ tally q f n + bit (q new)) e
          (tally-update q f t new n low)

module _ (n : ℕ) (s : Semaphore) (inv : Inv n s) (t : ℕ) (low : t < n) where
  pub wait_down-Inv : s.stage t ≡ outside → s.lock ≡ none → Inv n (wait_down t s)
  unfolding wait_down
  wait_down-Inv e free = elim (Bool-cases (leb (2 ^ 31) ((s.count + (2 ^ 32 - 1)) % 2 ^ 32))) [
    | inl negative ↦
        let v = update-Moved n s.stage t outside queueing low e in
        let room = tally_both s.stage n in
        rw negative (record {
          few = inv.few;
          int = omega arith;
          balanced =
              ground (arith, negative, v.blocked, v.wakers, inv.balanced, inv.int, inv.few, room);
          locked = λ u l. ground (arith, inv.locked u l, free, e);
          queued = λ u. ground (arith, inv.queued u, e);
        })
    | inr enough ↦
        let room = tally_both s.stage n in
        rw enough (record {
          few = inv.few;
          int = omega arith;
          balanced = ground (arith, enough, inv.balanced, inv.int, inv.few, room);
          locked = inv.locked;
          queued = inv.queued;
        })
  ]

  pub wait_queue-Inv : s.stage t ≡ queueing → Inv n (wait_queue t s)
  unfolding wait_queue
  wait_queue-Inv e =
      let v = update-Moved n s.stage t queueing sleeping low e in
      record {
        few = inv.few;
        int = inv.int;
        balanced = omega (arith, v.blocked, v.wakers, inv.balanced);
        locked = λ u l. elim (Bool-cases (t == u)) [
          | inl same ↦ rw same refl
          | inr other ↦ rw other (
              inv.locked u l
              ∙ owns_only s.lock t u (sym (inv.locked t low) ∙ ap is_queueing e) other)
        ];
        queued = λ u. ground (arith, inv.queued u, e, count-append u s.waiters (t ∷ []));
      }

  pub signal_up-Inv : s.stage t ≡ outside → s.count ≢ 2 ^ 31 - 1 → Inv n (signal_up t s)
  unfolding signal_up
  signal_up-Inv e room =
      elim (Bool-cases ((s.count + 1) % 2 ^ 32 == 0 || leb (2 ^ 31) ((s.count + 1) % 2 ^ 32))) [
        | inl waiters ↦
            let v = update-Moved n s.stage t outside signalling low e in
            rw waiters (record {
              few = inv.few;
              int = omega arith;
              balanced = ground (arith, waiters, v.blocked, v.wakers, inv.balanced, inv.int, room);
              locked = λ u l. ground (arith, inv.locked u l, e);
              queued = λ u. ground (arith, inv.queued u, e);
            })
        | inr nobody ↦ rw nobody (record {
          few = inv.few;
          int = omega arith;
          balanced = ground (arith, nobody, inv.balanced, inv.int, room);
          locked = inv.locked;
          queued = inv.queued;
        })
      ]
