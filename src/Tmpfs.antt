-- ===== src/Tmpfs.antt =====
-- tmpfs/tmpfs.c, tmpfs/tmp_vfsops.c, tmpfs/tmpfs.h: the file system in memory, as far as its nodes and
-- directories go.
pub mod Correct
mod Tests
use scal_ux.Prelude.{
  Bool, List, Option, [], add64, assert, false, if◌then◌else◌, none, some, suc, true, update, ℕ,
  ◌&&◌, ◌++◌, ◌-◌, ◌==◌, ◌>>=◌, ◌>>◌, ◌^◌, ◌∷◌,
}
use scal_ux.Vm.{Vm}
use scal_ux.Vm.Objects.{vm_aobj_new, vm_object_retain}
use scal_ux.Vfs.{Lookup, Vattr, Vnodes, Vtype, at_vnode, dot, minus_errno, vchr, vdir, vnon, vreg}

-- tmpdirent_t
pub record Dirent : Type 0 where
  pub name : List ℕ
  pub node : ℕ

-- What the union of tmpnode_t holds: a directory, a file with its object, or nothing.
pub data Body : Type 0 where
  directory : List Dirent → Option ℕ → Body
  regular : ℕ → Body
  nothing : Body

-- tmpnode_t
pub record Tmpnode : Type 0 where
  pub vn : Option ℕ
  pub attr : Vattr
  pub body : Body

-- vnode_t, with the node that its field data points to.
pub record Vnode : Type 0 where
  pub refcnt : ℕ
  pub isroot : Bool
  pub type_of : Vtype
  pub vmobj : Option ℕ
  pub data_of : ℕ
  pub vfsmountedhere : Option ℕ

-- The nodes and vnodes of one mounted file system, whose field data points to the vnode of its root.
pub record Tmpfs : Type 0 where
  pub nodes : ℕ → Option Tmpnode
  pub next_node : ℕ
  pub vnodes : ℕ → Option Vnode
  pub next_vnode : ℕ
  pub root_vnode : Option ℕ
  pub vm : Vm

abbrev pub enoent : ℕ
enoent = 2

-- strcmp(a, b) == 0
abbrev pub same_name : List ℕ → List ℕ → Bool
same_name [] [] = true
same_name [] (d ∷ b) = false
same_name (c ∷ a) [] = false
same_name (c ∷ a) (d ∷ b) = c == d && same_name a b

abbrev pub is_directory : Vtype → Bool
is_directory vdir = true
is_directory vnon = false
is_directory vreg = false
is_directory vchr = false

-- The operations of a vnode of a device do not have lookup and create.
abbrev pub has_directory_ops : Vtype → Bool
has_directory_ops vchr = false
has_directory_ops vdir = true
has_directory_ops vnon = true
has_directory_ops vreg = true

abbrev pub entries_of : Body → List Dirent
entries_of (directory entries parent) = entries
entries_of (regular o) = []
entries_of nothing = []

abbrev pub parent_of : Body → Option ℕ
parent_of (directory entries parent) = parent
parent_of (regular o) = none
parent_of nothing = none

abbrev pub object_of : Body → Option ℕ
object_of (regular o) = some o
object_of (directory entries parent) = none
object_of nothing = none

abbrev pub with_entry : Dirent → Body → Body
with_entry d (directory entries parent) = directory (entries ++ (d ∷ [])) parent
with_entry d (regular o) = regular o
with_entry d nothing = nothing

abbrev pub set_node : ℕ → Tmpnode → Tmpfs → Tmpfs
set_node n node s = record s { nodes = update s.nodes n (some node) }

abbrev pub set_vnode : ℕ → Vnode → Tmpfs → Tmpfs
set_vnode vn vnode s = record s { vnodes = update s.vnodes vn (some vnode) }

unfoldable pub tlookup : List ℕ → List Dirent → Option ℕ
tlookup name [] = none
tlookup name (d ∷ entries) =
    let later = tlookup name entries in if same_name d.name name then some d.node else later

-- The body of a new node; no type but these three is refused, since assert("unreached") holds.
unfoldable pub new_body : Vtype → ℕ → Vm → Option (Body × Vm)
new_body vreg dn vm = do
  (o, vm') ← some (vm_aobj_new (2 ^ 32 - 1) vm)
  vm'' ← vm_object_retain o vm'
  some (regular o, vm'')
new_body vdir dn vm = some (directory [] (some dn), vm)
new_body vchr dn vm = some (nothing, vm)
new_body vnon dn vm = some (nothing, vm)

unfoldable pub tmakenode : ℕ → List ℕ → Vattr → Tmpfs → Option (ℕ × Tmpfs)
tmakenode dn name attr s = do
  (body, vm) ← new_body attr.type_of dn s.vm
  dnode ← s.nodes dn
  some (
    s.next_node,
    set_node s.next_node (record { vn = none; attr = record attr { size = 0 }; body = body })
        (set_node dn
          (record dnode {
            body = with_entry (record { name = name; node = s.next_node }) dnode.body;
          })
          (record s { next_node = suc s.next_node; vm = vm })),
  )

-- The vnode of a node: the one that it has, with one more reference, or a new one.
unfoldable pub vnode_for : ℕ → Tmpnode → Option ℕ → Tmpfs → Option (Lookup × Tmpfs)
vnode_for n node (some vn) s = do
  vnode ← s.vnodes vn
  some (at_vnode vn, set_vnode vn (record vnode { refcnt = add64 vnode.refcnt 1 }) s)
vnode_for n node none s = some (
  at_vnode s.next_vnode,
  set_vnode s.next_vnode
      (record {
        refcnt = 1;
        isroot = false;
        type_of = node.attr.type_of;
        vmobj = object_of node.body;
        data_of = n;
        vfsmountedhere = none;
      })
      (set_node n (record node { vn = some s.next_vnode })
        (record s { next_vnode = suc s.next_vnode })),
)

unfoldable pub tmpfs_vget : ℕ → Tmpfs → Option (Lookup × Tmpfs)
tmpfs_vget n s = do node ← s.nodes n; vnode_for n node node.vn s

-- The field parent of the root is what the memory held before.
unfoldable pub tmpfs_mount : Option ℕ → Vattr → Tmpfs → Option Tmpfs
tmpfs_mount held attr s = do
  (r, s1) ← tmpfs_vget s.next_node (
      set_node s.next_node
        (record { vn = none; attr = record attr { type_of = vdir }; body = directory [] held })
        (record s { next_node = suc s.next_node }))
  vn ← some (s.next_vnode)
  vnode ← s1.vnodes vn
  some (record (set_vnode vn (record vnode { isroot = true }) s1) { root_vnode = some vn })

unfoldable pub tmpfs_root : ℕ → Tmpfs → Option (Lookup × Tmpfs)
tmpfs_root vfs s = do vn ← s.root_vnode; some (at_vnode vn, s)

unfoldable pub tmp_create : ℕ → List ℕ → Vattr → Tmpfs → Option (Lookup × Tmpfs)
tmp_create dvn name attr s = do
  vnode ← s.vnodes dvn
  assert (has_directory_ops vnode.type_of)
  assert (is_directory vnode.type_of)
  (n, s') ← tmakenode vnode.data_of name attr s
  tmpfs_vget n s'

-- The vnode of a parent, without a new reference.
unfoldable pub parent_vnode : ℕ → Option ℕ → Tmpfs → Option (Lookup × Tmpfs)
parent_vnode vn none s = some (at_vnode vn, s)
parent_vnode vn (some parent) s = do node ← s.nodes parent; up ← node.vn; some (at_vnode up, s)

unfoldable pub lookup_entry : Option ℕ → Tmpfs → Option (Lookup × Tmpfs)
lookup_entry none s = some (minus_errno enoent, s)
lookup_entry (some n) s = tmpfs_vget n s

unfoldable pub tmp_lookup : ℕ → List ℕ → Tmpfs → Option (Lookup × Tmpfs)
tmp_lookup vn name s = do
  vnode ← s.vnodes vn
  assert (has_directory_ops vnode.type_of)
  node ← s.nodes vnode.data_of
  assert (is_directory node.attr.type_of)
  let up = parent_vnode vn (parent_of node.body) s
  let below = lookup_entry (tlookup name (entries_of node.body)) s
  if same_name name (dot ∷ dot ∷ []) then up else below

unfoldable pub tmp_getattr : ℕ → Tmpfs → Option Vattr
tmp_getattr vn s = do vnode ← s.vnodes vn; node ← s.nodes vnode.data_of; some node.attr

abbrev pub mounted_here : Tmpfs → ℕ → Option ℕ
mounted_here s vn = s.vnodes vn >>= λ vnode. vnode.vfsmountedhere

-- tmpfs_vnops and tmpfs_vfsops, as the lookup of paths uses them.
abbrev pub tmpfs_vnodes : Vnodes Tmpfs
tmpfs_vnodes = record {
  lookup = tmp_lookup;
  create = tmp_create;
  mounted_here = mounted_here;
  root = tmpfs_root;
}
