-- ===== src/Lib.antt =====
-- SkezOS: a verification library of the kernel's core services.
--
-- The parts and how they interact. A process names its open files by small numbers in a descriptor
-- table (kernel/proc_fd.c); the table's slots hold open files (kernel/kfile.c), which dispatch to a
-- backend through a table of operations. Pipes (kernel/kpipe.c) are the backend modelled here: two
-- open files share one ring, whose reference counts the descriptor table must keep right. The
-- states of pipes come from the kernel heap (kernel/kmalloc.c); frames of physical memory come from
-- a bitmap (kernel/pmm.c). Disk sectors go through a write-through cache (kernel/block_cache.c) to
-- a driver behind kernel/block_device.c. The keyboard (kernel/keyboard.c) turns scancodes into
-- characters in a ring of its own. Programs are loaded by kernel/elf32_loader.c. The scheduler
-- (kernel/sched.c) keeps the table of tasks, each with its descriptor table and the windows of its
-- user memory, which kernel/uaccess.c checks before it copies.
--
-- Files and code. A module's top file holds the definitions, under the names of the source, and its
-- children hold the proofs.
-- + Prelude: shared names, Boolean tests, lists over native numbers, and the status of a call
--   (kernel/kerrno.h).
-- + Pipe: the ring of kernel/kpipe.c and the critical sections of its calls; Pipe/Fifo relates the
--   ring to the queue of its bytes, Pipe/Rounds states what one round does, Pipe/Trace interleaves
--   rounds.
-- + File: kernel/kfile.c. Endpoint: the operations of kernel/kpipe.c on open files, over a heap of
--   pipes; Endpoint/Refs and Endpoint/Life are about the references that they count, Endpoint/Uses
--   about pipes under a process, Endpoint/Calls about whole calls.
-- + Fd: kernel/proc_fd.c. Fd/Owners is the interface that a backend fills: a clone takes a
--   reference and a close gives it back, and one that fails changes no count. Fd/Place,
--   Fd/Ownership, Fd/Branches, Fd/Ops, Fd/Whole, Fd/CloseAll and Fd/TableClone are about the
--   operations over any such backend, and Endpoint/Life fills the interface.
-- + Pmm: kernel/pmm.c; Pmm/Bits, Pmm/Count, Pmm/Alloc, Pmm/Regions and Pmm/Init.
-- + Kmalloc: kernel/kmalloc.c; Kmalloc/Records, Kmalloc/Table, Kmalloc/Alloc, Kmalloc/Calls,
--   Kmalloc/Free, Kmalloc/Huge and Kmalloc/Init.
-- + BlockDevice: kernel/block_device.c, with the laws of a driver. BlockCache:
--   kernel/block_cache.c; BlockCache/Entries and BlockCache/Coherence.
-- + Keyboard: kernel/keyboard.c; Keyboard/Layout has the tables, Keyboard/Buffer and Keyboard/Feed
--   the proofs.
-- + Elf: the checks of kernel/elf32_loader.c, with Elf/Segments and Elf/Layout; Elf/Load is the
--   loading into memory, with Elf/Bytes and Elf/Image on what it writes, and Elf/Accept and
--   Elf/Auto on what it accepts; Elf/Read is the reading of the file, with Elf/Bounded.
-- + Sched: the data of kernel/sched.c. Its definitions stand in Sched/Children (the search for
--   tasks, reaping, orphans), Sched/Run (choice, switch, tick, yield, sleep), Sched/Spawn and
--   Sched/Fork (new tasks), Sched/Wait (exit and waitpid), Sched/User (user windows, command line,
--   working directory), Sched/Notes (notes on a task, the snapshot) and Sched/CurrentFds (the
--   descriptor calls). Sched/Family is the process tree, as an invariant with the changes that keep
--   it; Sched/Calm, Sched/States and Sched/Switch are about the switch, Sched/Calls and Sched/Tick
--   about the calls that schedule, Sched/Reap, Sched/Orphans, Sched/Parent, Sched/Zombie,
--   Sched/Vanish and Sched/Exit about the end of a task, Sched/Zombies, Sched/Block, Sched/Round
--   and Sched/Waitpid about waiting, Sched/Join, Sched/Born, Sched/Forked and Sched/Start about new
--   tasks; Sched/Machine puts all steps together. Sched/Fair is about the choice, Sched/Ranges
--   about the windows, and Sched/FdCalls about the descriptor calls.
-- + Uaccess: kernel/uaccess.c, with Uaccess/Copies.
-- + Tests: runs on concrete inputs, and each theorem at one.
--
-- How code is modelled. Static variables and structs are records that a function takes and returns;
-- a pointer to an object of the caller is not NULL, and pointers that the code tests are addresses
-- with 0 for NULL or an Option. A result `rc` is a Status; out-parameters are further results.
-- Words of 32 bits are native numbers with their wrap written out; the words of the frame bitmap
-- are lists of 32 bits. Logging is left out.
--
-- Bounds and fuel. The reclaiming loop of kernel/kmalloc.c runs one round more than the table has
-- records, which is enough since each round drops a record. The loops of kpipe_read and kpipe_write
-- take a list with one function for each time that they wait, what the other tasks do then; a call
-- that the list is too short for has not returned, and Endpoint/Calls states how long a list is
-- enough. The read loop of elf32_read_file runs at most one round for each byte of its buffer and
-- two more, since every round but the last reads a byte or ends the call. All other loops are over
-- tables.
--
-- Processes. A pid is the 32-bit pattern of an int, so -1 is 4294967295. A switch is one step, to
-- the point where the task that it resumes has left the scheduler: what the suspended task does
-- after its switch is what the code does when it is resumed. What the scheduler hands to other
-- parts (kfree, paging_destroy_address_space, the notices of an exit) is listed in the state; what
-- kmalloc and paging return is an argument. A result none is a panic: the scheduler finds no task,
-- or it returns into a task that has ended.
--
-- Not modelled. Interrupts inside a call of kernel/block_cache.c, which runs as one step; the
-- display behind the keyboard and the paging behind the loader, which are arguments; the results of
-- vfs_open and kmalloc in elf32_read_file, which are arguments too, as is what it read where the
-- file is loaded; the release of the loader's scratch buffer, which is taken to lie outside the
-- windows that are written; keyboard_init and the verbose flag. Of kernel/sched.c, the getters of
-- the name and the counters and the assembly of the context switch. System calls, paging, file
-- systems, display, drivers and user programs are not modelled.
pub mod Prelude
pub mod Pipe
pub mod File
pub mod Endpoint
pub mod Fd
pub mod Pmm
pub mod Kmalloc
pub mod BlockDevice
pub mod BlockCache
pub mod Keyboard
pub mod Elf
pub mod Sched
pub mod Uaccess
pub mod Tests
