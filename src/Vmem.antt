-- ===== src/Vmem.antt =====
-- kernel-3/kern/vmem.c, vmem.h and vmem_impl.h: the VMem resource allocator.
pub mod Segment
pub mod Arena
pub mod Alloc
pub mod Free
pub mod Init
pub mod Invariant
pub mod Xalloc
pub mod Xfree
mod Tests
