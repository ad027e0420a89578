-- ===== src/Tmpfs/Correct.antt =====
-- tmpfs/tmpfs.c: a name that is created is found.
use scal_ux.Vfs.{Vattr, Vtype, at_vnode, dot, vchr, vdir, vnon, vreg}
use scal_ux.Vm.{Object, Vm, anonymous}
use scal_ux.Vm.Objects.{no_chunks, set_object, vm_aobj_new, vm_object_retain}
use scal_ux.Prelude.{
  Bool-cases, List, Option, [], add64, arith, false, if◌then◌else◌, inl, inr, int32, none, refl,
  some, suc, true, ℕ, ◌++◌, ◌+◌, ◌-◌, ◌<◌, ◌==◌, ◌>>=◌, ◌^◌, ◌∙◌, ◌∷◌, ◌≡◌,
}
use scal_ux.Tmpfs.{
  Body, Dirent, Tmpfs, Tmpnode, Vnode, directory, entries_of, has_directory_ops, is_directory,
  lookup_entry, new_body, object_of, regular, same_name, set_node, set_vnode, tlookup, tmakenode,
  tmp_create, tmp_lookup, tmpfs_vget, vnode_for,
}

same_name_refl : (a : List ℕ) → same_name a a ≡ true
same_name_refl [] = refl
same_name_refl (c ∷ a) = ground (arith, same_name_refl a)

tlookup-append :
    (name : List ℕ) (entries : List Dirent) (d : Dirent)
    → tlookup name entries ≡ none
    → tlookup name (entries ++ (d ∷ [])) ≡ (if same_name d.name name then some d.node else none)
unfolding tlookup
tlookup-append name [] d h = refl
tlookup-append name (e ∷ entries) d h = elim (Bool-cases (same_name e.name name)) [
  | inl this ↦ absurd (ground (arith, this, h))
  | inr other ↦ rw other (tlookup-append name entries d (ground (arith, other, h)))
]

tlookup-append_other :
    (name : List ℕ) (entries : List Dirent) (d : Dirent)
    → same_name d.name name ≡ false
    → tlookup name (entries ++ (d ∷ [])) ≡ tlookup name entries
unfolding tlookup
tlookup-append_other name [] d h = rw h refl
tlookup-append_other name (e ∷ entries) d h = rw (tlookup-append_other name entries d h) refl

retain_live :
    (o : ℕ) (object : Object) (vm : Vm)
    → vm.objects o ≡ some object
    → (vm' : Vm) × (vm_object_retain o vm ≡ some vm')
unfolding vm_object_retain
retain_live o object vm live = (
  set_object o (some (record object { refcnt = int32 (object.refcnt + 1) })) vm,
  rw (live, ◌>>=◌) refl,
)

abbrev new_object : ℕ → Object
new_object size = record {
  refcnt = 1;
  type_of = anonymous;
  bytes = size;
  amap = record { chunks = no_chunks; curnchunk = 0 };
  parent = none;
}

aobj_live :
    (size : ℕ) (vm : Vm)
    → (object : Object) × ((vm_aobj_new size vm).1.objects (vm_aobj_new size vm).0 ≡ some object)
unfolding vm_aobj_new
aobj_live size vm =
    let same : (vm.next_object == vm.next_object) ≡ true = ground arith in
    (new_object size, rw same refl)

new_body-total :
    (kind : Vtype) (dn : ℕ) (vm : Vm)
    → (body : Body) × (vm' : Vm) × (new_body kind dn vm ≡ some (body, vm'))
unfolding new_body
new_body-total vnon dn vm = (_, _, refl)
new_body-total vreg dn vm =
    let (object, live) = aobj_live (2 ^ 32 - 1) vm in
    let (vm', run) =
      retain_live (vm_aobj_new (2 ^ 32 - 1) vm).0 object (vm_aobj_new (2 ^ 32 - 1) vm).1 live in
    (regular (vm_aobj_new (2 ^ 32 - 1) vm).0, vm', rw (run, ◌>>=◌) refl)
new_body-total vdir dn vm = (_, _, refl)
new_body-total vchr dn vm = (_, _, refl)

-- What tmp_create of a name in a directory does: the vnode is new, the name leads to it, and no other name
-- of the directory leads elsewhere than before.
pub record IsCreated (dvn dn : ℕ) (name : List ℕ) (attr : Vattr) (entries : List Dirent)
    (s t : Tmpfs) : Type 0 where
  pub run : tmp_create dvn name attr s ≡ some (at_vnode s.next_vnode, t)
  pub found_again : (t' : Tmpfs) × (tmp_lookup dvn name t ≡ some (at_vnode s.next_vnode, t'))
  pub other_nodes : (n : ℕ) → n < s.next_node → (n == dn) ≡ false → t.nodes n ≡ s.nodes n
  pub other_vnodes : (vn : ℕ) → vn < s.next_vnode → t.vnodes vn ≡ s.vnodes vn
  pub dir_after : Tmpnode
  pub is_there : t.nodes dn ≡ some dir_after
  pub other_names :
      (other : List ℕ)
      → same_name name other ≡ false
      → tlookup other (entries_of dir_after.body) ≡ tlookup other entries

module _ (dvn : ℕ) (name : List ℕ) (attr : Vattr) (s : Tmpfs) (dir : Vnode) (own : Option ℕ)
    (dattr : Vattr) (entries : List Dirent) (parent : Option ℕ) (body : Body) (vm : Vm) where
  abbrev dn : ℕ
  dn = dir.data_of

  abbrev entry : Dirent
  entry = record { name = name; node = s.next_node }

  abbrev dir_node : Tmpnode
  dir_node = record { vn = own; attr = dattr; body = directory entries parent }

  abbrev grown : Tmpnode
  grown = record dir_node { body = directory (entries ++ (entry ∷ [])) parent }

  abbrev new_node : Tmpnode
  new_node = record { vn = none; attr = record attr { size = 0 }; body = body }

  abbrev made : Tmpfs
  made =
      set_node s.next_node new_node
        (set_node dn grown (record s { next_node = suc s.next_node; vm = vm }))

  abbrev new_vnode : Vnode
  new_vnode = record {
    refcnt = 1;
    isroot = false;
    type_of = attr.type_of;
    vmobj = object_of body;
    data_of = s.next_node;
    vfsmountedhere = none;
  }

  abbrev named : Tmpnode
  named = record new_node { vn = some s.next_vnode }

  abbrev after : Tmpfs
  after =
      set_vnode s.next_vnode new_vnode
        (set_node s.next_node named (record made { next_vnode = suc s.next_vnode }))

  module _ (body_run : new_body attr.type_of dn s.vm ≡ some (body, vm))
      (open_dir : s.vnodes dvn ≡ some dir) (is_dir : dir.type_of ≡ vdir)
      (there : s.nodes dn ≡ some dir_node) (dir_kind : dattr.type_of ≡ vdir)
      (old_node : dn < s.next_node) (old_vnode : dvn < s.next_vnode)
      (is_new : tlookup name entries ≡ none) where
    make_run : tmakenode dn name attr s ≡ some (s.next_node, made)
    unfolding tmakenode
    make_run = rw (body_run, ◌>>=◌) (rw (there, ◌>>=◌) refl)

    vget_run : tmpfs_vget s.next_node made ≡ some (at_vnode s.next_vnode, after)
    unfolding tmpfs_vget vnode_for
    vget_run =
        let same : (s.next_node == s.next_node) ≡ true = ground arith in rw (same, ◌>>=◌) refl

    create_run : tmp_create dvn name attr s ≡ some (at_vnode s.next_vnode, after)
    unfolding tmp_create
    create_run =
        let ops : has_directory_ops dir.type_of ≡ true = rw is_dir refl in
        let kind : is_directory dir.type_of ≡ true = rw is_dir refl in
        rw (open_dir, ◌>>=◌) (rw (ops, ◌>>=◌) (rw (kind, ◌>>=◌) (rw (make_run, ◌>>=◌) vget_run)))

    dir_still_open : after.vnodes dvn ≡ some dir
    dir_still_open =
        let apart : (s.next_vnode == dvn) ≡ false = ground (arith, old_vnode) in rw apart open_dir

    dir_grown : after.nodes dn ≡ some grown
    dir_grown =
        let apart : (s.next_node == dn) ≡ false = ground (arith, old_node) in
        let same : (dn == dn) ≡ true = ground arith in rw apart (rw same refl)

    node_named : after.nodes s.next_node ≡ some named
    node_named = let same : (s.next_node == s.next_node) ≡ true = ground arith in rw same refl

    vnode_made : after.vnodes s.next_vnode ≡ some new_vnode
    vnode_made = let same : (s.next_vnode == s.next_vnode) ≡ true = ground arith in rw same refl

    entry_found : tlookup name (entries ++ (entry ∷ [])) ≡ some s.next_node
    entry_found = tlookup-append name entries entry is_new ∙ rw (same_name_refl name) refl

    vget_again :
        tmpfs_vget s.next_node after
        ≡ some (
          at_vnode s.next_vnode,
          set_vnode s.next_vnode (record new_vnode { refcnt = add64 1 1 }) after,
        )
    unfolding tmpfs_vget vnode_for
    vget_again = rw (node_named, ◌>>=◌) (rw (vnode_made, ◌>>=◌) refl)

    lookup_run :
        same_name name (dot ∷ dot ∷ []) ≡ false
        → tmp_lookup dvn name after
          ≡ some (
            at_vnode s.next_vnode,
            set_vnode s.next_vnode (record new_vnode { refcnt = add64 1 1 }) after,
          )
    unfolding tmp_lookup lookup_entry
    lookup_run not_up =
        let ops : has_directory_ops dir.type_of ≡ true = rw is_dir refl in
        let kind : is_directory dattr.type_of ≡ true = rw dir_kind refl in
        rw (dir_still_open, ◌>>=◌)
          (rw (ops, ◌>>=◌)
            (rw (dir_grown, ◌>>=◌) (rw (kind, ◌>>=◌) (rw not_up (rw entry_found vget_again)))))

    after-IsCreated :
        same_name name (dot ∷ dot ∷ []) ≡ false → IsCreated dvn dn name attr entries s after
    after-IsCreated not_up = record {
      run = create_run;
      found_again = (_, lookup_run not_up);
      other_nodes = λ n below other.
          let apart : (s.next_node == n) ≡ false = ground (arith, below) in
          let apart' : (dn == n) ≡ false = ground (arith, other) in rw apart (rw apart' refl);
      other_vnodes = λ vn below.
          let apart : (s.next_vnode == vn) ≡ false = ground (arith, below) in rw apart refl;
      dir_after = grown;
      is_there = dir_grown;
      other_names = λ other apart. tlookup-append_other other entries entry apart;
    }

-- tmp_create of a name that an open directory does not have, and that is not "..", never fails. It makes a
-- new vnode, which tmp_lookup of the name finds from then on. Every other name of the directory leads to the
-- node that it led to, and no other node and no vnode that there was has changed.
pub tmp_create-IsCreated :
    (dvn : ℕ) (name : List ℕ) (attr : Vattr) (s : Tmpfs) (dir : Vnode) (own : Option ℕ)
    (dattr : Vattr) (entries : List Dirent) (parent : Option ℕ)
    → s.vnodes dvn ≡ some dir
    → dir.type_of ≡ vdir
    → s.nodes dir.data_of
      ≡ some (record { vn = own; attr = dattr; body = directory entries parent })
    → dattr.type_of ≡ vdir
    → dir.data_of < s.next_node
    → dvn < s.next_vnode
    → tlookup name entries ≡ none
    → same_name name (dot ∷ dot ∷ []) ≡ false
    → (t : Tmpfs) × IsCreated dvn dir.data_of name attr entries s t
tmp_create-IsCreated dvn name attr s dir own dattr entries parent open_dir is_dir there dir_kind
      old_node old_vnode is_new not_up =
    let (body, vm, run) = new_body-total attr.type_of dir.data_of s.vm in
    (
      after dvn name attr s dir own dattr entries parent body vm,
      after-IsCreated dvn name attr s dir own dattr entries parent body vm run open_dir is_dir there
          dir_kind old_node old_vnode is_new not_up,
    )
