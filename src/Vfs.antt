-- ===== src/Vfs.antt =====
-- posix/vfs.c, posix/vfs.h: the lookup of paths over the operations that file systems supply.
pub mod Correct
use scal_ux.Prelude.{
  Bool, List, Option, [], assert, false, if◌then◌else◌, leb, length, none, not, some, suc, true,
  zero, ℕ, ◌&&◌, ◌==◌, ◌>>=◌, ◌>>◌, ◌∷◌,
}

-- vtype_t
pub data Vtype : Type 0 where
  vnon : Vtype
  vreg : Vtype
  vdir : Vtype
  vchr : Vtype

-- vattr_t
pub record Vattr : Type 0 where
  pub type_of : Vtype
  pub mode : ℕ
  pub size : ℕ
  pub rdev : ℕ

-- The result of an operation that finds a vnode: the vnode, or an error number below 0.
pub data Lookup : Type 0 where
  at_vnode : ℕ → Lookup
  minus_errno : ℕ → Lookup

-- What the vnodes of any file system supply: the operations lookup and create of a vnode (struct vnops),
-- its field vfsmountedhere, and the operation root of a file system (struct vfsops). An operation that a
-- vnode does not have is a panic.
pub record Vnodes (S : Type 0) : Type 0 where
  pub lookup : ℕ → List ℕ → S → Option (Lookup × S)
  pub create : ℕ → List ℕ → Vattr → S → Option (Lookup × S)
  pub mounted_here : S → ℕ → Option ℕ
  pub root : ℕ → S → Option (Lookup × S)

-- The characters '/' and '.'.
abbrev pub slash : ℕ
slash = 47

abbrev pub dot : ℕ
dot = 46

-- The characters in front of the next slash.
abbrev pub component : List ℕ → List ℕ
component [] = []
component (c ∷ path) = let rest = component path in if c == slash then [] else c ∷ rest

-- What stands behind the next slash, unless the path ends first.
abbrev pub behind_slash : List ℕ → Option (List ℕ)
behind_slash [] = none
behind_slash (c ∷ path) = let rest = behind_slash path in if c == slash then some path else rest

abbrev pub is_last : Option (List ℕ) → Bool
is_last none = true
is_last (some path) = false

-- "." or nothing.
abbrev pub is_skipped : List ℕ → Bool
is_skipped [] = true
is_skipped (c ∷ []) = c == dot
is_skipped (c ∷ d ∷ name) = false

abbrev pub is_empty : List ℕ → Bool
is_empty [] = true
is_empty (c ∷ path) = false

-- The path without the slashes at its end.
abbrev pub strip : List ℕ → List ℕ
strip [] = []
strip (c ∷ path) = let rest = strip path in if is_empty rest && c == slash then [] else c ∷ rest

abbrev pub is_absolute : List ℕ → Bool
is_absolute [] = false
is_absolute (c ∷ path) = c == slash

-- The vnode that the walk begins at.
abbrev pub start_vnode : ℕ → Option ℕ → List ℕ → ℕ
start_vnode root_vnode none path = root_vnode
start_vnode root_vnode (some cwd) path = if is_absolute path then root_vnode else cwd

-- The test of the second character, made for an absolute path, and for any path without a directory.
abbrev pub is_root_only : Option ℕ → List ℕ → Bool
is_root_only none path = length path == 1
is_root_only (some cwd) path = is_absolute path && length path == 1

module _ {S : Type 0} (fs : Vnodes S) where
  abbrev pub go_on :
      Lookup × S → Option (List ℕ) → (ℕ → List ℕ → S → Option (Lookup × S)) → Option (Lookup × S)
  go_on (minus_errno e, s) rest k = some (minus_errno e, s)
  go_on (at_vnode vn, s) none k = some (at_vnode vn, s)
  go_on (at_vnode vn, s) (some path) k = k vn path s

  abbrev pub if_mounted :
      Option ℕ → Option (Lookup × S) → (ℕ → Option (Lookup × S)) → Option (Lookup × S)
  if_mounted none stay cross = stay
  if_mounted (some vfs) stay cross = cross vfs

  -- The loop over the file systems mounted at a vnode, for at most as many rounds as are given less one.
  unfoldable pub cross_mounts : ℕ → Lookup × S → Option (Lookup × S)
  cross_mounts n (minus_errno e, s) = some (minus_errno e, s)
  cross_mounts zero (at_vnode vn, s) = none
  cross_mounts (suc n) (at_vnode vn, s) =
      if_mounted (fs.mounted_here s vn) (some (at_vnode vn, s))
        (λ vfs. fs.root vfs s >>= λ r. cross_mounts n r)

  -- kLookupCreat asks to create the last component.
  unfoldable pub find_name : Bool → ℕ → List ℕ → Vattr → S → Option (Lookup × S)
  find_name creates vn name attr s =
      if creates then fs.create vn name attr s else fs.lookup vn name s

  unfoldable pub visit : ℕ → Bool → ℕ → List ℕ → Vattr → S → Option (Lookup × S)
  visit mounts creates vn name attr s =
      if is_skipped name
      then some (at_vnode vn, s)
      else (find_name creates vn name attr s >>= λ r. cross_mounts mounts r)

  -- The rounds of the loop over the components.
  unfoldable pub walk_path : ℕ → ℕ → Bool → Vattr → ℕ → List ℕ → S → Option (Lookup × S)
  walk_path mounts zero creates attr vn path s = none
  walk_path mounts (suc n) creates attr vn path s =
      visit mounts (creates && is_last (behind_slash path)) vn (component path) attr s >>= λ r.
      go_on r (behind_slash path) (λ vn' rest s'. walk_path mounts n creates attr vn' rest s')

  -- An empty path, and a path of slashes alone, make the function read in front of its buffer, and a path
  -- of 255 characters or more does not fit into it. kLookupMustDir changes nothing: reduce returns the
  -- vnode that it is given.
  unfoldable pub vfs_lookup : ℕ → ℕ → Option ℕ → List ℕ → Bool → Vattr → S → Option (Lookup × S)
  vfs_lookup mounts root_vnode cwd path creates attr s = do
    assert (not (is_empty path))
    let walked = (do
      assert (leb (length path) 254)
      assert (not (is_empty (strip path)))
      walk_path mounts (suc (length path)) creates attr (start_vnode root_vnode cwd path)
          (strip path) s)
    if is_root_only cwd path then some (at_vnode root_vnode, s) else walked
