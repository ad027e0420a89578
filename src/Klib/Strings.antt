-- ===== src/Klib/Strings.antt =====
-- klib.c: what the functions on strings and memcmp return.
use scal_ux.Klib.Copy.{moved}
use scal_ux.Prelude.{
  ==_iff, Bool-cases, ap, arith, false, inl, inr, ltb, ltb→lt, refl, some, subst, suc, sym, true,
  update, zero, ℕ, ◌%◌, ◌+◌, ◌-◌, ◌<◌, ◌==◌, ◌^◌, ◌∙◌, ◌≡◌, ◌≢◌, ◌≤◌, ◌⊎◌,
}
use scal_ux.Klib.{Memory, memcmp, minus_one, strcmp, strcpy, strlen, strlen_end}

-- At `s` there are `len` bytes that are not 0, and then a 0.
pub record IsString (s len : ℕ) (m : Memory) : Type 0 where
  pub not_zero : (k : ℕ) → k < len → m (s + k) ≢ 0
  pub ends : m (s + len) ≡ 0

shift_suc : (c k : ℕ) → c + 1 + k ≡ c + suc k
shift_suc c k = omega arith

plus_zero : (c : ℕ) → c + 0 ≡ c
plus_zero c = omega arith

strlen_end_lem :
    (len fuel s : ℕ) (m : Memory)
    → ((k : ℕ) → k < len → m (s + k) ≢ 0)
    → m (s + len) ≡ 0
    → len < fuel
    → strlen_end fuel s m ≡ some (s + len)
unfolding strlen_end
strlen_end_lem zero zero s m h e lt = absurd (omega arith)
strlen_end_lem zero (suc fuel) s m h e lt =
    let z : m s ≡ 0 = subst (λ a. m a ≡ 0) (plus_zero s) e in rw z (ap some (sym (plus_zero s)))
strlen_end_lem (suc len) zero s m h e lt = absurd (omega arith)
strlen_end_lem (suc len) (suc fuel) s m h e lt =
    let f : (m s == 0) ≡ false =
      ground (arith, subst (λ a. m a ≢ 0) (plus_zero s) (h 0 (omega arith))) in
    let rest : strlen_end fuel (s + 1) m ≡ some (s + 1 + len) =
      strlen_end_lem len fuel (s + 1) m
        (λ k low. subst (λ a. m a ≢ 0) (sym (shift_suc s k)) (h (suc k) (omega arith)))
        (subst (λ a. m a ≡ 0) (sym (shift_suc s len)) e) (omega arith) in
    rw f (rest ∙ ap some (shift_suc s len))

-- strlen ends, after one more round than the string is long, and returns its length.
pub strlen_lem :
    (fuel s len : ℕ) (m : Memory) → IsString s len m → len < fuel → strlen fuel s m ≡ some len
unfolding strlen
strlen_lem fuel s len m str lt =
    rw (strlen_end_lem len fuel s m str.not_zero str.ends lt) (ap some (omega arith))

-- What memcmp says of two ranges: they are equal, or the first bytes that differ are in that order.
pub data Compared (c1 c2 count : ℕ) (m : Memory) : ℕ → Type 0 where
  equal : ((k : ℕ) → k < count → m (c1 + k) ≡ m (c2 + k)) → Compared c1 c2 count m 0
  less :
      (k : ℕ)
      → k < count
      → ((j : ℕ) → j < k → m (c1 + j) ≡ m (c2 + j))
      → m (c1 + k) < m (c2 + k)
      → Compared c1 c2 count m minus_one
  greater :
      (k : ℕ)
      → k < count
      → ((j : ℕ) → j < k → m (c1 + j) ≡ m (c2 + j))
      → m (c2 + k) < m (c1 + k)
      → Compared c1 c2 count m 1

shift_equal :
    (c1 c2 n : ℕ) (m : Memory)
    → m c1 ≡ m c2
    → ((k : ℕ) → k < n → m (c1 + 1 + k) ≡ m (c2 + 1 + k))
    → (k : ℕ) → k < suc n
    → m (c1 + k) ≡ m (c2 + k)
shift_equal c1 c2 n m e h zero lt = ap m (omega arith) ∙ e ∙ ap m (omega arith)
shift_equal c1 c2 n m e h (suc k) lt = ap m (omega arith) ∙ h k (omega arith) ∙ ap m (omega arith)

Compared-suc :
    (c1 c2 n : ℕ) (m : Memory) (r : ℕ)
    → m c1 ≡ m c2
    → Compared (c1 + 1) (c2 + 1) n m r
    → Compared c1 c2 (suc n) m r
Compared-suc c1 c2 n m r e (equal h) = equal (shift_equal c1 c2 n m e h)
Compared-suc c1 c2 n m r e (less k lt before h) =
    less (suc k) (omega arith) (shift_equal c1 c2 k m e before)
      (omega (arith, h, ap m (shift_suc c1 k), ap m (shift_suc c2 k)))
Compared-suc c1 c2 n m r e (greater k lt before h) =
    greater (suc k) (omega arith) (shift_equal c1 c2 k m e before)
      (omega (arith, h, ap m (shift_suc c1 k), ap m (shift_suc c2 k)))

-- memcmp returns 0, -1 or 1 as the two ranges are equal or their first bytes that differ are in the
-- one order or the other.
pub memcmp-Compared : (count c1 c2 : ℕ) (m : Memory) → Compared c1 c2 count m (memcmp c1 c2 count m)
unfolding memcmp
memcmp-Compared zero c1 c2 m = equal (λ k lt. absurd (omega arith))
memcmp-Compared (suc n) c1 c2 m = elim (Bool-cases (m c1 == m c2)) [
  | inl same ↦
      rw same
        (Compared-suc c1 c2 n m _ ((==_iff _ _).0 same) (memcmp-Compared n (c1 + 1) (c2 + 1) m))
  | inr other ↦ elim (Bool-cases (ltb (m c1) (m c2))) [
    | inl below ↦ rw other (
        rw below (
          less 0 (omega arith) (λ j lt. absurd (omega arith))
            (rw (plus_zero c1, plus_zero c2) (ltb→lt _ _ below))))
    | inr above ↦ rw other (
        rw above (
          greater 0 (omega arith) (λ j lt. absurd (omega arith))
            (rw (plus_zero c1, plus_zero c2) (ground (arith, other, above)))))
  ]
]

IsString-rest :
    (src len dst : ℕ) (m : Memory) (b : ℕ)
    → IsString src (suc len) m
    → (dst + suc len < src) ⊎ (src + suc len < dst)
    → IsString (src + 1) len (update m dst b)
IsString-rest src len dst m b str apart = record {
  not_zero = λ k lt.
      subst (λ v. v ≢ 0) (sym (untouched k (omega arith))) (str.not_zero (suc k) (omega arith));
  ends = untouched len (omega arith) ∙ str.ends;
}
  where
    untouched : (k : ℕ) → k ≤ len → update m dst b (src + 1 + k) ≡ m (src + suc k)
    untouched k low =
        let away : dst ≢ src + 1 + k = ground (arith, apart) in
        ground (arith, away, ap m (shift_suc src k))

-- strcpy of a string to a range that it does not overlap ends, copies the string with its 0 and
-- changes no other byte; the pointer that it returns is one behind the copy.
pub strcpy_lem :
    (len fuel dst src : ℕ) (m : Memory)
    → IsString src len m
    → (dst + len < src) ⊎ (src + len < dst)
    → len < fuel
    → (t : Memory) × (strcpy fuel dst src m ≡ some (dst + len + 1, t))
      × ((x : ℕ) → t x ≡ moved dst src (len + 1) m x)
unfolding strcpy
strcpy_lem len zero dst src m str apart lt = absurd (omega arith)
strcpy_lem zero (suc fuel) dst src m str apart lt =
    let z : m src ≡ 0 = subst (λ a. m a ≡ 0) (plus_zero src) str.ends in
    (
      update m dst (m src),
      rw z (ap (λ a. some (a + 1, update m dst 0)) (sym (plus_zero dst))),
      λ x. ground arith,
    )
strcpy_lem (suc len) (suc fuel) dst src m str apart lt =
    let f : (m src == 0) ≡ false =
      ground (arith, subst (λ a. m a ≢ 0) (plus_zero src) (str.not_zero 0 (omega arith))) in
    let (t, run, bytes) =
      strcpy_lem len fuel (dst + 1) (src + 1) (update m dst (m src))
        (IsString-rest src len dst m (m src) str apart) (ground (arith, apart)) (omega arith) in
    (t, rw f (run ∙ ap (λ a. some (a, t)) (omega arith)), λ x. bytes x ∙ ground (arith, apart))

-- The bytes agree up to and with the 0 of the first string, or `k` is the first place where they
-- differ, and the result the difference there as an `int`.
pub data StringsCompared (s1 s2 len : ℕ) (m : Memory) : ℕ → Type 0 where
  same : ((k : ℕ) → k < suc len → m (s1 + k) ≡ m (s2 + k)) → StringsCompared s1 s2 len m 0
  differ :
      (k : ℕ)
      → k ≤ len
      → ((j : ℕ) → j < k → m (s1 + j) ≡ m (s2 + j))
      → m (s1 + k) ≢ m (s2 + k)
      → StringsCompared s1 s2 len m ((m (s1 + k) + 2 ^ 32 - m (s2 + k)) % 2 ^ 32)

StringsCompared-suc :
    (s1 s2 len : ℕ) (m : Memory) (r : ℕ)
    → m s1 ≡ m s2
    → StringsCompared (s1 + 1) (s2 + 1) len m r
    → StringsCompared s1 s2 (suc len) m r
StringsCompared-suc s1 s2 len m r e (same h) = same (shift_equal s1 s2 (suc len) m e h)
StringsCompared-suc s1 s2 len m r e (differ k low before apart) =
    rw (shift_suc s1 k, shift_suc s2 k)
      (differ (suc k) (omega arith) (shift_equal s1 s2 k m e before)
        (rw (shift_suc s1 k, shift_suc s2 k) at apart))

differ_here :
    (s1 s2 len : ℕ) (m : Memory)
    → m s1 ≢ m s2
    → StringsCompared s1 s2 len m ((m s1 + 2 ^ 32 - m s2) % 2 ^ 32)
differ_here s1 s2 len m apart =
    subst (λ a. StringsCompared s1 s2 len m ((m a + 2 ^ 32 - m s2) % 2 ^ 32)) (plus_zero s1)
      (subst (λ b. StringsCompared s1 s2 len m ((m (s1 + 0) + 2 ^ 32 - m b) % 2 ^ 32))
        (plus_zero s2)
        (differ 0 (omega arith) (λ j lt. absurd (omega arith))
          (rw (plus_zero s1, plus_zero s2) apart)))

-- strcmp of a string with any bytes ends, and returns 0 or the difference at the first place where
-- they differ.
pub strcmp-StringsCompared :
    (len fuel s1 s2 : ℕ) (m : Memory)
    → IsString s1 len m
    → len < fuel
    → (r : ℕ) × (strcmp fuel s1 s2 m ≡ some r) × StringsCompared s1 s2 len m r
unfolding strcmp
strcmp-StringsCompared len zero s1 s2 m str lt = absurd (omega arith)
strcmp-StringsCompared zero (suc fuel) s1 s2 m str lt = elim (Bool-cases (m s1 == m s2)) [
  | inl t ↦
      let z : (m s1 == 0) ≡ true = ground (arith, subst (λ a. m a ≡ 0) (plus_zero s1) str.ends) in
      (
        0,
        rw (t, z) refl,
        same (shift_equal s1 s2 0 m ((==_iff _ _).0 t) (λ k low. absurd (omega arith))),
      )
  | inr f ↦ (_, rw f refl, differ_here s1 s2 0 m (ground (arith, f)))
]
strcmp-StringsCompared (suc len) (suc fuel) s1 s2 m str lt = elim (Bool-cases (m s1 == m s2)) [
  | inl t ↦
      let z : (m s1 == 0) ≡ false =
        ground (arith, subst (λ a. m a ≢ 0) (plus_zero s1) (str.not_zero 0 (omega arith))) in
      let (r, run, done) =
        strcmp-StringsCompared len fuel (s1 + 1) (s2 + 1) m
          (record {
            not_zero = λ k low.
                subst (λ a. m a ≢ 0) (sym (shift_suc s1 k)) (str.not_zero (suc k) (omega arith));
            ends = subst (λ a. m a ≡ 0) (sym (shift_suc s1 len)) str.ends;
          })
          (omega arith) in
      (r, rw (t, z) run, StringsCompared-suc s1 s2 len m r ((==_iff _ _).0 t) done)
  | inr f ↦ (_, rw f refl, differ_here s1 s2 (suc len) m (ground (arith, f)))
]
