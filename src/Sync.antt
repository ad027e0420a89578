-- ===== src/Sync.antt =====
-- kernel-3/kern/task.c, sync.h: what threads wait for.
pub mod Mutex
mod Tests
