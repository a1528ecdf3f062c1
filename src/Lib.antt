-- ===== src/Lib.antt =====
-- The Cute kernel: a library that models its core parts and proves them correct.
--
-- The program is an x86-64 kernel in C. Its parts, from the bottom up: the string and formatting
-- functions and the containers of lib/, the physical page allocator of mm/, the scheduler of kern/,
-- which the timer interrupt of arch/ia64/ enters, and above them the heap, the page tables, the ext2
-- file system on the ramdisk and the system calls on files.
--
-- Which file models which part, each with its proofs in the folder of its name:
--   Base      shared helpers: Boolean tests, lists and tables over native numbers, and `Outcome`,
--             the result of kernel code, a value or the kernel's panic().
--   Bitmap    lib/bitmap.c: bitmap_first_set_bit and bitmap_first_zero_bit, which the macro
--             add_search_function makes, and the functions on one bit.
--   Unrolled  lib/unrolled_list.c: the map of file descriptors. UnrolledHead is struct
--             unrolled_head; each public function has its name.
--   Sched     kern/sched.c with include/sched.h: PercpuSched is struct percpu_sched with the running
--             thread and the thread descriptors. dispatch_runnable_proc is cut along its branches
--             into dispatch_turn, swap_runqueues and dispatch_active, and sched_tick into
--             account_tick, end_slice and stay. ticks_handler is the interrupt's entry in
--             arch/ia64/_idt.S. Queues and Dispatch say what the dispatcher does, Invariant that a
--             tick keeps every thread, Starvation how long a thread waits, Boot joins them.
--   Pages     mm/page_alloc.c with include/mm.h: PageAlloc holds the globals of the file, the table
--             of page descriptors and the free lists linked through it. Lists, Alloc, Allocation and
--             Reclaim are about the free lists, Extend and Reverse about the ranges of memory.
--   Strings   lib/string.c: strlen, strnlen, strncpy, strncmp, memcmp.
--   Printf    lib/printf.c: ultoa, ltoa, the format parser and vsnprintf, which uses Strings.
--   Ring      include/list.h: the embedded doubly-linked lists, as writes to a store of nodes.
--   Hash      lib/hash.c: hash_new, hash_find and hash_insert, a list of identifiers per bucket.
--   Heap      mm/kmalloc.c with include/kmalloc.h: the buckets, over Pages; __kmalloc is bucket_alloc.
--             Sizes is about the bucket of a size, Reuse about a buffer that is given back.
--   Ext2      ext2/ext2.c with include/ext2.h: Volume is isb with the tables of inodes, group
--             descriptors and blocks behind it. Volume has inode_get and the access to blocks, Groups
--             the allocation of inodes and blocks with the bitmaps of Bitmap, Content the reads, writes
--             and truncation of files, Dirs the search of a directory, Entries the changes of
--             directories, Names name_i, Mount ext2_init, with what its checks mean in Sound, Checked and Passed. Sample is a small volume for the tests.
--   Files     ext2/file.c: the system calls of one process, over Ext2 and Unrolled. Paths has
--             path_get_leaf and path_parent_child, Open sys_open and sys_creat, Io the other calls,
--             and Files itself sys_chdir and sys_lseek; Descriptors and WriteRead join them.
-- Each such folder has a Tests module with concrete runs.
--
-- Machine integers keep their wrap-around where the code may reach it (`% 2 ^ 32`, `% 2 ^ 64`). A
-- failed assert() and panic() end a call in `panic`, and no state follows it.
--
-- Loops on fuel, and why it is enough: the skip of reserved pages has one step more than the table
-- has entries, and a free list holds each entry once; the digit count has 64 steps for a word of 64
-- bits; vsnprintf has one step more than the format has bytes, and each step takes one at least, which
-- Printf.Fuel turns into the independence of its result from further fuel. A
-- read or a write has as many steps as bytes, and each takes one at least; a search of a directory has
-- one step more than the directory has bytes, and each sound entry has twelve at least; a new page is
-- cut into 256 buffers at most, on 4096 steps; name_i has as many steps as the path has bytes, and each
-- passes one at least.
--
-- A kmalloc of a computed size, for the cells of an unrolled list and the buckets of a hash table, is
-- the check of that size; that a page is left for it is taken for granted outside Heap.
--
-- The file system keeps its structures apart: the superblock, the group descriptors and the inodes are
-- tables of their own and not bytes of the ramdisk's blocks, as on a volume where no data block lies over
-- them. What the kernel's heap holds in and behind a buffer that the code did not fill is an argument of
-- the operations that write it to the disk, and the address that kmalloc returns is one of sys_open.
--
-- Not modelled: interleavings of several cores (a spinlock holds for a whole call), the inline
-- assembly of lib/string.c, device and boot code, the page tables, the processes and the user
-- programs, and of the file system the dumps and the messages of failed checks. The sources' own tests
-- are not modelled either.
pub mod Base
pub mod Bitmap
pub mod Unrolled
pub mod Sched
pub mod Pages
pub mod Strings
pub mod Printf
pub mod Ext2
pub mod Files
pub mod Hash
pub mod Heap
pub mod Ring
