-- ===== src/Lib.antt =====
-- A model of the core of the ThunderOS kernel, a small RISC-V operating system in C, with the
-- theorems that make its parts correct.
--
-- The parts build on one another as the files of the kernel do. Pmm models kernel/mm/pmm.c, the
-- page allocator over a bitmap: the file's static variables are the record Pmm, each function
-- takes the record and returns it. Kmalloc models kernel/mm/kmalloc.c, the heap that asks the
-- page allocator for blocks and puts a header in front of each. Scheduler models the circular
-- ready queue of kernel/core/scheduler.c, and Scheduler/Fifo the list that it stands for.
-- Kernel holds what the processes share (heap, ready queue, process states, the current
-- process) and models schedule, context_switch and scheduler_yield of kernel/core/scheduler.c
-- and process_wakeup of kernel/core/process.c. WaitQueue models kernel/core/wait_queue.c, whose
-- entries come from the heap and whose processes go to the ready queue. Pipe models
-- kernel/core/pipe.c over wait queues and the byte copies of Kstring, which models
-- kernel/utils/kstring.c. Errno models kernel/core/errno.c. Prelude has the shared names, list
-- lemmas, windows of circular buffers, the laws of the bits of a byte, the loop that sleeps
-- while its test holds (Prelude/Wait), the loop that looks for the first hit (Prelude/First)
-- and counts over processes (Prelude/Counts).
--
-- On the wait queues stand the locks. Mutex models the mutexes and semaphores of
-- kernel/core/mutex.c, Rwlock the reader-writer locks of kernel/core/rwlock.c, Condvar the
-- condition variables of kernel/core/condvar.c. Mutex/System and Rwlock/System let processes
-- use one lock in any interleaving: a step is what one process does while interrupts are
-- disabled, and between two steps the rest of the kernel may change as it likes, which is more
-- than the code allows: invariants carry over to the code, reachability does not. Signal models
-- kernel/core/signal.c and process_exit of kernel/core/process.c over the kernel's processes.
-- Syscall models the system calls of kernel/core/syscall.c that give user programs handles to
-- mutexes, condition variables and locks.
--
-- Ext2 models kernel/fs/ext2_alloc.c, the allocation of blocks and inodes of the ext2 file
-- system. The block device under it is a parameter, a record of the reading and the writing of
-- one sector.
--
-- Paging models the three-level page tables of kernel/mm/paging.c over the pages of Pmm: the
-- walk, map, unmap and translation. Memory is seen as tables, the entries at the address of a
-- page; Paging/Tree has what makes these tables a tree below their root, so that a write to one
-- table is not seen through another. The walk is recursion on the level.
--
-- Vfs models kernel/fs/vfs.c. Vfs/Path has the functions on paths: a string is the list of its
-- bytes, the cursor into it is the rest of the list, the components in their static array are a
-- list. The loops that go over a path run on rounds, as many as the path has characters, which
-- is shown to be enough. Vfs/Table has the table of descriptors with pipes from Pipe, and
-- Vfs/Io reading, writing and seeking. The operations of the mounted file system are
-- parameters: NodeOps for files, and for paths the lookup of a node.
--
-- Process models parts of kernel/core/process.c: the memory areas of a process and the check of
-- the pointers that user programs pass, and in Process/Groups the look-ups in the process
-- table, process groups and sessions.
--
-- A module has the operations of its part under the names of the C functions; the modules below
-- it have the theorems, and a module Tests has runs and instances at concrete data. Numbers are
-- natural numbers; where a C type wraps, the modulus is written out. A pointer is its address
-- with 0 for NULL, or an optional value. Code that runs with interrupts disabled is one step;
-- wait_queue_sleep enables them right before it calls schedule and is one step all the same.
-- After a panic in kfree a loop over a wait queue goes no further. A blocking loop takes a list
-- with one entry for each sleep that it wakes up from: the entry is a function that does to the
-- shared state whatever the rest of the system does meanwhile.
--
-- The copy loops of pipe_read and pipe_write run on fuel, one more round than there are bytes
-- to move, and the theorems show that this is enough, since each round moves at least one byte.
-- All other loops are recursion on the rounds left or on the list walked.
--
-- Not modelled: the switch of registers, stacks and page tables and the rest of the assembly;
-- the messages that go to the UART; drivers, the files and directories of ext2, opening,
-- permissions and removal in the virtual file system, address spaces of user processes, the
-- other system calls and user programs.
pub mod Prelude
pub mod Errno
pub mod Kstring
pub mod Pmm
pub mod Kmalloc
pub mod Scheduler
pub mod Kernel
pub mod WaitQueue
pub mod Mutex
pub mod Rwlock
pub mod Condvar
pub mod Pipe
pub mod Signal
pub mod Syscall
pub mod Ext2
pub mod Paging
pub mod Vfs
pub mod Process
