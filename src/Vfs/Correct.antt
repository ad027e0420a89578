-- ===== src/Vfs/Correct.antt =====
-- posix/vfs.c: vfs_lookup follows the names between the slashes.
use scal_ux.Prelude.{
  Bool, Bool-cases, List, Option, [], ap, arith, false, if◌then◌else◌, inl, inr, leb, length, none,
  refl, some, suc, sym, true, zero, ℕ, ◌&&◌, ◌<◌, ◌==◌, ◌>>=◌, ◌∙◌, ◌∷◌, ◌≡◌, ◌≤◌,
}
use scal_ux.Vfs.{
  Lookup, Vattr, Vnodes, at_vnode, behind_slash, component, cross_mounts, find_name, go_on,
  is_empty, is_last, is_root_only, is_skipped, minus_errno, slash, start_vnode, strip, vfs_lookup,
  visit, walk_path,
}

-- A name to look up, or to create.
pub record PathStep : Type 0 where
  pub name : List ℕ
  pub creates : Bool

abbrev pub with_first : ℕ → List (List ℕ) → List (List ℕ)
with_first c [] = (c ∷ []) ∷ []
with_first c (name ∷ names) = (c ∷ name) ∷ names

-- A path cut at its slashes.
abbrev pub split : List ℕ → List (List ℕ)
split [] = [] ∷ []
split (c ∷ path) = let rest = split path in if c == slash then [] ∷ rest else with_first c rest

-- The names of a path that are not empty and not "."; the last component is the one to create.
abbrev pub steps : Bool → List (List ℕ) → List PathStep
steps creates [] = []
steps creates (name ∷ []) =
    if is_skipped name then [] else record { name = name; creates = creates } ∷ []
steps creates (name ∷ next ∷ names) =
    let rest = steps creates (next ∷ names) in
    if is_skipped name then rest else record { name = name; creates = false } ∷ rest

abbrev pub names_behind : Option (List ℕ) → List (List ℕ)
names_behind none = []
names_behind (some path) = split path

module _ {S : Type 0} (fs : Vnodes S) (mounts : ℕ) (attr : Vattr) where
  abbrev pub and_then : Lookup × S → (ℕ → S → Option (Lookup × S)) → Option (Lookup × S)
  and_then (minus_errno e, s) k = some (minus_errno e, s)
  and_then (at_vnode vn, s) k = k vn s

  -- One operation of the file system for each name, in their order, until one fails.
  unfoldable pub follow : List PathStep → ℕ → S → Option (Lookup × S)
  follow [] vn s = some (at_vnode vn, s)
  follow (step ∷ rest) vn s = find_name fs step.creates vn step.name attr s >>= λ r.
      cross_mounts fs mounts r >>= λ r'. and_then r' (λ vn' s'. follow rest vn' s')

split-component : (path : List ℕ) → split path ≡ component path ∷ names_behind (behind_slash path)
split-component [] = refl
split-component (c ∷ path) = elim (Bool-cases (c == slash)) [
  | inl is ↦ rw is refl
  | inr other ↦ rw other (rw (split-component path) refl)
]

behind_slash-length :
    (path rest : List ℕ) → behind_slash path ≡ some rest → length rest < length path
behind_slash-length [] rest h = cc
behind_slash-length (c ∷ path) rest h = elim (Bool-cases (c == slash)) [
  | inl is ↦ ground (arith, is, h)
  | inr other ↦ ground (arith, other, h, behind_slash-length path rest)
]

length-strip : (path : List ℕ) → length (strip path) ≤ length path
length-strip [] = omega arith
length-strip (c ∷ path) = ground (arith, length-strip path)

and_true : (b : Bool) → (b && true) ≡ b
and_true true = refl
and_true false = refl

and_false : (b : Bool) → (b && false) ≡ false
and_false true = refl
and_false false = refl

steps-split :
    (creates : Bool) (name path : List ℕ)
    → steps creates (name ∷ split path) ≡ (
        if is_skipped name
        then steps creates (split path)
        else record { name = name; creates = false } ∷ steps creates (split path))
steps-split creates name path = rw (split-component path) refl

bind_all :
    {A : Type 0} {B : Type 0} (o : Option A) (k k' : A → Option B)
    → ((a : A) → k a ≡ k' a)
    → (o >>= k) ≡ (o >>= k')
bind_all none k k' h = refl
bind_all (some a) k k' h = h a

bind_assoc :
    {A : Type 0} (o : Option A) (g k k' : A → Option A)
    → ((a : A) → k a ≡ k' a)
    → ((o >>= g) >>= k) ≡ (o >>= λ a. g a >>= k')
bind_assoc none g k k' h = refl
bind_assoc (some a) g k k' h = bind_all (g a) k k' h

module _ {S : Type 0} (fs : Vnodes S) (mounts : ℕ) (attr : Vattr) (creates : Bool) where
  abbrev followed : List (List ℕ) → ℕ → S → Option (Lookup × S)
  followed names vn s = follow fs mounts attr (steps creates names) vn s

  end_round :
      (k : ℕ → List ℕ → S → Option (Lookup × S)) (r : Lookup × S)
      → go_on fs r none k ≡ and_then fs mounts attr r (λ vn s. follow fs mounts attr [] vn s)
  unfolding follow
  end_round k (minus_errno e, s) = refl
  end_round k (at_vnode vn, s) = refl

  next_round :
      (k : ℕ → List ℕ → S → Option (Lookup × S)) (rest : List ℕ)
      → ((vn : ℕ) (s : S) → k vn rest s ≡ followed (split rest) vn s)
      → (r : Lookup × S)
      → go_on fs r (some rest) k ≡ and_then fs mounts attr r (λ vn s. followed (split rest) vn s)
  next_round k rest h (minus_errno e, s) = refl
  next_round k rest h (at_vnode vn, s) = h vn s

  round :
      (k : ℕ → List ℕ → S → Option (Lookup × S)) (b : Option (List ℕ)) (name : List ℕ) (vn : ℕ)
      (s : S)
      → ((rest : List ℕ)
          → b ≡ some rest
          → (vn : ℕ) (s : S) → k vn rest s ≡ followed (split rest) vn s)
      → (visit fs mounts (creates && is_last b) vn name attr s >>= λ r. go_on fs r b k)
        ≡ followed (name ∷ names_behind b) vn s
  unfolding follow visit
  round k none name vn s h = elim (Bool-cases (is_skipped name)) [
    | inl skip ↦ rw skip refl
    | inr other ↦ rw other (
        rw (and_true creates) (
          bind_assoc (find_name fs creates vn name attr s) (λ r. cross_mounts fs mounts r)
            (λ r. go_on fs r none k) _ (end_round k)))
  ]
  round k (some rest) name vn s h =
      rw (steps-split creates name rest) (elim (Bool-cases (is_skipped name)) [
        | inl skip ↦ rw skip (h rest refl vn s)
        | inr other ↦ rw other (
            rw (and_false creates) (
              bind_assoc (find_name fs false vn name attr s) (λ r. cross_mounts fs mounts r)
                (λ r. go_on fs r (some rest) k) _ (next_round k rest (h rest refl))))
      ])

  walk_path-follow :
      (n : ℕ) (path : List ℕ) (vn : ℕ) (s : S)
      → length path < n
      → walk_path fs mounts n creates attr vn path s ≡ followed (split path) vn s
  unfolding walk_path
  walk_path-follow zero path vn s enough = absurd (omega (arith, enough))
  walk_path-follow (suc n) path vn s enough =
      let k : ℕ → List ℕ → S → Option (Lookup × S) =
        λ vn' rest s'. walk_path fs mounts n creates attr vn' rest s' in
      round k (behind_slash path) (component path) vn s (λ rest e vn' s'.
        walk_path-follow n rest vn' s' (omega (arith, behind_slash-length path rest e, enough)))
      ∙ ap (λ names. followed names vn s) (sym (split-component path))

-- vfs_lookup of a path that has fewer than 255 characters and is not slashes alone, other than the short
-- form of the root, ends. It asks the file system for the names between the slashes, in their order
-- and leaving out the empty ones and ".", until one is not found, and creates the last component if it
-- is asked to. It begins at the root for a path with a slash at its front, and else at the directory.
pub vfs_lookup-follow :
    {S : Type 0} (fs : Vnodes S) (mounts root_vnode : ℕ) (cwd : Option ℕ) (path : List ℕ)
    (creates : Bool) (attr : Vattr) (s : S)
    → length path ≤ 254
    → is_empty (strip path) ≡ false
    → is_root_only cwd path ≡ false
    → vfs_lookup fs mounts root_vnode cwd path creates attr s
      ≡ follow fs mounts attr
          (steps creates (split (strip path)))
          (start_vnode root_vnode cwd path)
          s
unfolding vfs_lookup
vfs_lookup-follow fs mounts root_vnode cwd [] creates attr s fits full long = cc
vfs_lookup-follow fs mounts root_vnode cwd (c ∷ path) creates attr s fits full long =
    let small : leb (length (c ∷ path)) 254 ≡ true = ground (arith, fits) in
    rw long (
      rw small (
        rw full (
          walk_path-follow fs mounts attr creates (suc (length (c ∷ path))) (strip (c ∷ path))
            (start_vnode root_vnode cwd (c ∷ path)) s (omega (arith, length-strip (c ∷ path))))))
