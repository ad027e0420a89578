-- ===== src/Sync/Mutex/Invariant.antt =====
-- task.c: what holds of a mutex between any two steps of `n` threads.
use scal_ux.Prelude.{
  Bool, ap, arith, bit, count, false, if◌then◌else◌, ltb, owns, refl, subst, suc, sym, tally,
  tally-update, tally_none, true, update, zero, ℕ, ◌+◌, ◌<◌, ◌^◌, ◌≡◌, ◌≢◌, ◌≤◌,
}
use scal_ux.Sync.Mutex.{
  Mutex, Place, entering, holding, idle, joining, mutex_init, releasing, waiting, waking,
}

-- The threads that the mutex has counted.
abbrev pub is_counted : Place → Bool
is_counted idle = false
is_counted waking = false
is_counted _ = true

-- Those on their way to the wait queue, or on it.
abbrev pub is_blocked : Place → Bool
is_blocked joining = true
is_blocked waiting = true
is_blocked _ = false

abbrev pub is_waiting : Place → Bool
is_waiting waiting = true
is_waiting _ = false

abbrev pub is_holding : Place → Bool
is_holding holding = true
is_holding _ = false

abbrev pub is_waking : Place → Bool
is_waking waking = true
is_waking _ = false

-- Those to whom the mutex is given, from the moment it is until they have given it on.
abbrev pub is_given : Place → Bool
is_given entering = true
is_given holding = true
is_given releasing = true
is_given waking = true
is_given _ = false

-- The first `n` threads are all there are, fewer than the counter has values.
pub record Inv (n : ℕ) (m : Mutex) : Type 0 where
  pub few : n < 2 ^ 32
  pub counted : m.count ≡ tally is_counted m.place n
  pub given_once : tally is_given m.place n ≤ 1
  -- A thread that has a waiter to wake has left one behind.
  pub behind : tally is_waking m.place n ≤ tally is_blocked m.place n
  pub owner_holds : (t : ℕ) → t < n → is_holding (m.place t) ≡ owns t m.owner
  pub owner_known : (t : ℕ) → owns t m.owner ≡ true → t < n
  pub queued : (t : ℕ) → count t m.waiters ≡ (if ltb t n then bit (is_waiting (m.place t)) else 0)

balance :
    (p : Place) → bit (is_counted p) + bit (is_waking p) ≡ bit (is_blocked p) + bit (is_given p)
balance idle = refl
balance joining = refl
balance waiting = refl
balance entering = refl
balance holding = refl
balance releasing = refl
balance waking = refl

pub tally_balance :
    (f : ℕ → Place) (n : ℕ)
    → tally is_counted f n + tally is_waking f n ≡ tally is_blocked f n + tally is_given f n
unfolding tally
tally_balance f zero = refl
tally_balance f (suc n) = omega (arith, balance (f n), tally_balance f n)

pub tally-le : {A : Type 0} (q : A → Bool) (f : ℕ → A) (n : ℕ) → tally q f n ≤ n
unfolding tally
tally-le q f zero = omega arith
tally-le q f (suc n) = ground (arith, tally-le q f n)

pub mutex_init-Inv : (n : ℕ) → n < 2 ^ 32 → Inv n mutex_init
unfolding mutex_init
mutex_init-Inv n few =
    let none_of : (q : Place → Bool) → q idle ≡ false → tally q (λ _. idle) n ≡ 0 =
      λ q e. tally_none q (λ _. idle) n (λ i. e) in
    record {
      few = few;
      counted = sym (none_of is_counted refl);
      given_once = omega (arith, none_of is_given refl);
      behind = omega (arith, none_of is_waking refl);
      owner_holds = λ t low. refl;
      owner_known = λ t e. cc;
      queued = λ t. ground arith;
    }

-- What a change of one thread's place does to each of the numbers.
pub record Moved (n : ℕ) (f g : ℕ → Place) (old new : Place) : Type 0 where
  pub counted :
      tally is_counted g n + bit (is_counted old) ≡ tally is_counted f n + bit (is_counted new)
  pub blocked :
      tally is_blocked g n + bit (is_blocked old) ≡ tally is_blocked f n + bit (is_blocked new)
  pub given : tally is_given g n + bit (is_given old) ≡ tally is_given f n + bit (is_given new)
  pub wakers : tally is_waking g n + bit (is_waking old) ≡ tally is_waking f n + bit (is_waking new)

pub update-Moved :
    (n : ℕ) (f : ℕ → Place) (t : ℕ) (old new : Place)
    → t < n
    → f t ≡ old
    → Moved n f (update f t new) old new
update-Moved n f t old new low e = record {
  counted = moved is_counted;
  blocked = moved is_blocked;
  given = moved is_given;
  wakers = moved is_waking;
}
  where
    moved :
        (q : Place → Bool) → tally q (update f t new) n + bit (q old) ≡ tally q f n + bit (q new)
    moved q =
        subst (λ p. tally q (update f t new) n + bit (q p) ≡ tally q f n + bit (q new)) e
          (tally-update q f t new n low)

pub holding_place : (p : Place) → is_holding p ≡ true → p ≡ holding
holding_place idle h = cc
holding_place joining h = cc
holding_place waiting h = cc
holding_place entering h = cc
holding_place holding h = refl
holding_place releasing h = cc
holding_place waking h = cc

pub not_both : entering ≢ holding
not_both e = let h : false ≡ true = ap is_holding e in cc
