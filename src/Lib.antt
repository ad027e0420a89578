-- ===== src/Lib.antt =====
-- SCAL/UX: the resource allocator, the slab allocator, mutexes, semaphores, callouts, the scheduler,
-- the page queues, memory objects and maps, page tables, the lookup of paths, the file system in memory
-- and the string library of the kernel, with the theorems
-- that make them correct.
--
-- The program is a kernel for x86_64 with parts in C and Objective-C. VMem (kernel-3/kern/vmem.c,
-- vmem.h, vmem_impl.h) allocates ranges of integers, the kernel's address space among them, out of
-- arenas that may import spans from other arenas. KMem (kernel-3/kern/kmem_slab.c, kmem.h)
-- allocates small objects out of slabs, whose pages vm_kalloc takes from an arena of VMem.
--
-- Numbers are natural numbers; a sum or a counter of 64, 32 or 31 bits has its remainder written
-- out (Prelude/Word). A structure is known by the number that stands for its address. Option is
-- the outcome of code that may panic, `none` being a failed assertion, a call of fatal or a pointer
-- that leads nowhere (Prelude/Panic). Each call is one step: the locks that the code takes, and the
-- interrupt levels, are left out.
--
-- Vmem models kernel-3/kern/vmem.c. Vmem/Segment has the segments (vmem_seg_t) and their queue,
-- Vmem/Arena the arena (vmem_t) with its freelists, its hash table and its span list, and the pool of
-- segment structures (seg_alloc, seg_free, seg_refill). Vmem/Alloc has vmem_add, vmem_add_internal,
-- try_import, split_seg and vmem_xalloc, Vmem/Free has freeseg_expand and vmem_xfree, and Vmem/Init
-- has vmem_earlyinit, vmem_init and vmem_destroy. The state of an arena is a record with the queue
-- as a list, the freelists and the buckets as functions to lists of structures, the pool, and
-- whatever the callbacks of a backing arena change. The callbacks are a record of two functions
-- (Source), and the page allocator of seg_refill is an argument. The search of vmem_xalloc goes over
-- the freelists that are left, so it needs no fuel.
-- Vmem/Invariant says what holds between operations: the lists hold the segments of the queue that
-- they should, no structure is in use twice, and the segments lie in the order of their addresses
-- inside their spans. Vmem/Xalloc and Vmem/Xfree have the theorems on vmem_xalloc and vmem_xfree.
-- They are on arenas without a backing source or without imported spans; the step that gives a span
-- back and the import are modelled and have no theorem. vmem_dump only prints.
--
-- Kmem models kernel-3/kern/kmem_slab.c. Kmem/Sizes has the table of sizes, zonenum and the geometry
-- of slabs; Kmem/Zone has slabs, zones, kmem_zonealloc and kmem_zonefree; Kmem/Alloc has kmem_init,
-- kmem_alloc, kmem_free, kmem_vasprintf and kmem_strfree. A zone is a record with its slabs, the list
-- of allocated entries, and the fields of the entries as functions of the entry. The pages of a new
-- slab, and for a large slab its header and its entries, which come from two more zones, are a record
-- Supply. Kmem/Zone/Freelist follows the freelists through the links, Kmem/Zone/Fill has the loops
-- that set up a new slab, and Kmem/Zone/Stock the well-formed zone. kmem_realloc and kmem_zalloc copy
-- and clear contents, and are left out with kmem_dump.
--
-- Sync models mutexes and their wait queues (kernel-3/kern/task.c, sync.h). Sync/Mutex has the mutex
-- (mutex_t) with a place for each thread, how far it is in mutex_lock or mutex_unlock; a step is one
-- atomic operation of a thread, or its use of the wait queue under the queue's lock, and Reaches says
-- which states a number of threads can bring about. Sync/Mutex/Invariant and Sync/Mutex/Steps have the
-- invariant. A woken thread may run at once; the run queue does not stand between.
--
-- Semaphore models semaphore_wait and semaphore_signal in the same way, with the lock of the wait
-- queue as a part of the state: it is held from the count to the queue. The count is an int as 32
-- bits, and no step takes it past the largest one. The timeout of semaphore_wait is not used by the
-- source.
--
-- Callout models the timeouts of a processor (callout_enqueue, callout_dequeue and callout_interrupt
-- in kernel-3/kern/task.c, task.h): the queue as a list, the timer as the time it was last set to, and
-- the states of the callouts. What the timer has left, and the callbacks, are arguments.
-- Callout/Deadline says when each callout of a queue is due; Callout/Enqueue, Callout/Dequeue and
-- Callout/Interrupt say what each function does to that.
--
-- Sched models the run queues (nextcpu, thread_new, sched_next, sched_reschedule, thread_resume and
-- sched_timeslice in kernel-3/kern/task.c). A switch of stacks is the change of the current thread, and
-- the time slice a callout of the processor, enqueued by Callout. The locks of threads, and the stack, the
-- frame and the list of a task that thread_new sets up, are left out.
--
-- Page models kernel-3/vm/vm_page.c: the page queues with their counters, vm_pagealloc,
-- vm_page_changequeue, vm_page_free, vm_page_from_paddr, and memory descriptor lists (vm_mdl_t) as they
-- are made and expanded. Every page is on one queue, and a removal takes it off that one, whatever queue is
-- named; the tail pointers, which these functions do not read, are left out. The allocation of the list itself
-- is taken to succeed; vm_mdl_copy, vm_mdl_zero and vm_pagedump are left out.
--
-- Vm models the memory objects of kernel-3/vm/vm.c and kernel-3/vm/vm.h. Vm has the records: objects,
-- their sparse arrays of anons (vm_amap_t), anons with their reference counts, and the mappings of pages.
-- Vm/Anons has anon_new, anon_copy, anon_release and amap_anon_at, Vm/Objects has vm_aobj_new,
-- vm_object_copy, vm_object_retain and vm_object_release with the loops over an amap, Vm/Fault has
-- fault_aobj, and Vm/Enter has pmap_enter, pmap_reenter, pmap_reenter_all_readonly and pmap_unenter
-- (kernel-3/x86_64/vm.c) over the entries that the processor reads and the list of places of each page
-- (pv_entry_t). Pages come from Page. Vm/View says what an object means, its bytes; Vm/Invariant says
-- what holds between operations: a count is the number of slots that hold the anon, each anon has a page
-- of its own, the list of a page has its mappings, and only a page with one reference may be written.
-- Vm/Copy and Vm/Fault have the theorems on copies and faults, and Vm/Refine relates sequences of steps that
-- meet the conditions of those theorems to separate arrays of bytes. An object stands in one place for a fault: where it is mapped twice,
-- the hypothesis that a mapping shows the page of the object fails after the first write. The counts
-- are fields of 24 bits, and copying asks that they have room.
--
-- Maps models the maps (vm_map_t) of kernel-3/vm/vm.c, each with its list of entries and an arena of
-- Vmem, over the objects of Vm. Maps/MapObject has vm_map_object, vm_allocate, vm_map_new and
-- vm_map_fork, Maps/Remove has vm_deallocate and vm_map_release, and Maps/PageFault has vm_fault with the
-- lookup of the entry, map_entry_for_addr. The structures for entries and maps are taken to be there, and
-- the page table of a map is left to Pmap. Maps/MapObject/Correct has the invariant of a map, that its
-- entries cover what its arena has allocated. vm_deallocate, vm_map_fork and vm_map_release have no
-- theorem yet.
--
-- Pmap models the page tables of kernel-3/x86_64/vm.c: pmap_descend, pmap_fully_descend, pmap_trans,
-- pmap_enter_kern, pmap_unenter_kern, pmap_new, pmap_free_sub and pmap_free. The tables are pages of 512
-- words. Pmap/Walk follows a walk down the levels and says when the tables are a tree, Pmap/Descend and
-- Pmap/Grow add a table, Pmap/Translate relates the walk to pmap_trans, Pmap/Correct and Pmap/Roundtrip
-- have entering and taking out, and Pmap/Share has pmap_new. x64_vm_init, vm_activate and the flushing
-- of translations are left out.
--
-- Klib models the functions on memory and strings (kernel-3/libkern/klib.c) over a memory that has a
-- byte for each address: Klib/Copy has memcpy, memmove and memset, Klib/Strings memcmp, strlen, strcpy
-- and strcmp. The loops that end at a byte 0 run on fuel, one round more than the string is long.
--
-- Vfs models the lookup of paths (vfs_lookup in kernel-3/posix/vfs.c, kernel-3/posix/vfs.h) over a record
-- of the operations that a file system has, Vnodes. A path is the list of its characters. The loop over
-- the components has as many rounds as the path has characters and one more; the rounds for file systems
-- that are mounted over one another are an argument. Vfs/Correct compares it with the list of the names.
--
-- Tmpfs models the file system in memory (kernel-3/tmpfs/tmpfs.c, kernel-3/tmpfs/tmp_vfsops.c): its nodes,
-- directories and vnodes, tmp_create, tmp_lookup, tmp_getattr, tmpfs_vget, tmpfs_mount and tmpfs_root, which
-- fill the record of Vfs. The attributes given to tmp_create are taken to be there. tmp_read, tmp_write,
-- tmp_readdir and the devices of vnodes (kernel-3/dev/dev.c) are left out.
--
-- Kernel models kernel-3/vm/vm_kernel.c over Vmem, Page and Pmap: vm_kernel_init, vm_kalloc, vm_kfree, and
-- internal_allocwired and internal_freewired, which fill the record Source of Vmem. Their loops count in
-- an int, so the sizes are meant to be below 2^31. They have no theorem yet.
--
-- Not modelled are the loading of programs and the
-- system calls (kernel-3/posix/exec.c, kernel-3/posix/posix_main.c), strdup and printing
-- (kernel-3/libkern), the rest of the machine's code (kernel-3/x86_64), the drivers (kernel-3/dev,
-- kernel-3/devicekit), the loader and the tools (kernel-3/amiga, kernel-3/tools), and the sources of other
-- projects (liballoc, nanoprintf, uuid, the terminal, the ext2 and NVMe headers).
pub mod Prelude
pub mod Vmem
pub mod Kmem
pub mod Sync
pub mod Callout
pub mod Klib
pub mod Semaphore
pub mod Page
pub mod Sched
pub mod Vm
pub mod Pmap
pub mod Maps
pub mod Kernel
pub mod Vfs
pub mod Tmpfs
