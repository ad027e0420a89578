-- ===== src/Kmem.antt =====
-- kernel-3/kern/kmem_slab.c and kmem.h: the slab allocator and kmem_alloc on top of it.
pub mod Sizes
pub mod Zone
pub mod Alloc
mod Tests
