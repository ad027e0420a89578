-- ===== src/Tmpfs/Tests.antt =====
-- A directory made in an empty file system, and paths through it.
use scal_ux.Prelude.{
  List, Option, [], arith, if◌then◌else◌, none, refl, some, true, ℕ, ◌==◌, ◌∷◌, ◌≡◌,
}
use scal_ux.Page.{Pages}
use scal_ux.Vm.{Vm}
use scal_ux.Vfs.{
  Lookup, Vattr, at_vnode, cross_mounts, find_name, strip, vdir, vfs_lookup, visit, walk_path,
}
use scal_ux.Vfs.Correct.{follow, split, steps, vfs_lookup-follow}
use scal_ux.Tmpfs.{
  Tmpfs, Tmpnode, Vnode, directory, new_body, tlookup, tmakenode, tmp_create, tmpfs_vget,
  tmpfs_vnodes, vnode_for,
}
use scal_ux.Tmpfs.Correct.{IsCreated, tmp_create-IsCreated}

abbrev no_pages : Pages
no_pages = record {
  queue = λ q. [];
  npages = λ q. 0;
  queue_of = λ page. 0;
  contents = λ page offset. 0;
}

abbrev empty_vm : Vm
empty_vm = record {
  objects = λ o. none;
  next_object = 0;
  anons = λ a. none;
  next_anon = 0;
  pages = no_pages;
  tables = λ map vaddr. none;
  pv_table = λ page. [];
}

abbrev dir_attr : Vattr
dir_attr = record { type_of = vdir; mode = 0; size = 0; rdev = 0 }

abbrev root_node : Tmpnode
root_node = record { vn = some 0; attr = dir_attr; body = directory [] none }

abbrev root_dir : Vnode
root_dir = record {
  refcnt = 1;
  isroot = true;
  type_of = vdir;
  vmobj = none;
  data_of = 0;
  vfsmountedhere = none;
}

-- A root with nothing in it.
abbrev mounted : Tmpfs
mounted = record {
  nodes = λ n. if n == 0 then some root_node else none;
  next_node = 1;
  vnodes = λ vn. if vn == 0 then some root_dir else none;
  next_vnode = 1;
  root_vnode = some 0;
  vm = empty_vm;
}

-- "dev", and the path "/./dev//".
abbrev dev_name : List ℕ
dev_name = 100 ∷ 101 ∷ 118 ∷ []

abbrev dev_path : List ℕ
dev_path = 47 ∷ 46 ∷ 47 ∷ 100 ∷ 101 ∷ 118 ∷ 47 ∷ 47 ∷ []

vfs_lookup-follow_example :
    vfs_lookup tmpfs_vnodes 1 0 none dev_path true dir_attr mounted
    ≡ follow tmpfs_vnodes 1 dir_attr (steps true (split (strip dev_path))) 0 mounted
vfs_lookup-follow_example =
    vfs_lookup-follow tmpfs_vnodes 1 0 none dev_path true dir_attr mounted (omega arith) refl refl

tmp_create-IsCreated_example : (t : Tmpfs) × IsCreated 0 0 dev_name dir_attr [] mounted t
unfolding tlookup
tmp_create-IsCreated_example =
    tmp_create-IsCreated 0 dev_name dir_attr mounted root_dir (some 0) dir_attr [] none refl refl
      refl refl (omega arith) (omega arith) refl refl

abbrev vnode_of : Option (Lookup × Tmpfs) → Option ℕ
vnode_of (some (at_vnode vn, s)) = some vn
vnode_of _ = none

-- The directory that is created by its path is vnode 1.
dev_created : vnode_of (vfs_lookup tmpfs_vnodes 1 0 none dev_path true dir_attr mounted) ≡ some 1
unfolding vfs_lookup walk_path visit find_name cross_mounts tmp_create tmakenode new_body tmpfs_vget
    vnode_for
dev_created = refl
