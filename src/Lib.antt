-- ===== src/Lib.antt =====
-- Verification of the core of the repository's C programs, first of all the teaching kernel in
-- c/os-master, an xv6 with reference counts on pages, paging to a swap file and replacement policies.
--
-- How the parts of the kernel interact: the allocator (kalloc.c) hands out physical pages, also the
-- pages of pipes (pipe.c) and of kernel stacks. The process table (proc.c) holds the processes, whose
-- pages in memory are queued for replacement; the scheduler ages the pages after each turn. Locks
-- (spinlock.c) guard all of them, and `sched` checks how many are held. File system calls run
-- between `begin_op` and `end_op` of the log (log.c), which makes their disk writes atomic.
--
-- The files:
-- Prelude: names of the libraries, Boolean tests, lists over native numbers, `int`s, 32-bit words,
-- and the outcome of a routine: a value, a panic, or an access that C leaves undefined.
-- Kalloc: c/os-master/kalloc.c. `Kmem` is `kmem` with the links in the free pages; `kfree`, `kalloc`,
-- `freerange`, `kinit1`, `kinit2`, `dec_ref_count`, `inc_ref_count`, `get_ref_count`; `boot` is
-- `kinit1`, the pages that `kvmalloc` and `startothers` take, and `kinit2` in main.c. Chain says
-- what a valid free list is, Free and Alloc treat the two operations, Range `freerange`, Start the
-- calls of main.c, Refs the counts. The loop of `freerange` runs on fuel, one round for each page
-- below the end and one more, and the start is proved not to run out of it.
-- Pipe: c/os-master/pipe.c. Window relates counters and contents, Transfer treats one call, Fifo any
-- sequence of calls, Exchange a writer and a reader that take turns.
-- Paging: `struct page` and the paging part of `struct proc` (proc.h) and the functions from
-- `updateQueue` to `deallocatePage` of c/os-master/proc.c. Shift and Queue treat the queue, Scfifo,
-- Nfua and Lapa a policy each, Aging the work of the scheduler on the ages, Offsets the slots of
-- the swap file, Release `deallocatePage`. What `global_walkpgdir` finds is the field `pte`.
-- Spinlock: c/os-master/spinlock.c on one processor; Nesting is about `pushcli` and `popcli`.
-- Ptable: the process table in c/os-master/proc.c. Born treats `allocproc` and `kill`, Exit the part
-- of `exit` under the table's lock (its files, directory and swap file are closed before that),
-- Wait `wait`, Turns `yield`, `sched` and the loop of `scheduler`. A call that sleeps is modelled up
-- to its sleep; what the other processes do meanwhile is any change of the table.
-- Log: c/os-master/log.c. The operations give their disk writes in order, so a crash is a prefix of
-- them. Replay treats the loops, Recovery and Crash what a start makes of any prefix, Room the
-- space that `begin_op` reserves.
--
-- Strings: c/os-master/string.c. Move and Copy treat the writing routines, Compare `memcmp`. Where C
--   reads a string to its end, `strlen` runs on fuel of 2 ^ 32 rounds, the size of the memory.
-- Files: c/os-master/file.c. Counts is about the references, Chunks about `filewrite`, whose loop runs
--   on fuel of a round for each byte and one more, proved to be enough for chunks that are written
--   whole or refused.
-- Bcache: c/os-master/bio.c. Single says that a block is in one buffer at most.
-- Syscalls: the fetching of arguments in c/os-master/syscall.c; Bounds says what is then in range.
-- Sleeplock: c/os-master/sleeplock.c, over the process table; Handover is about passing a lock on.
-- Jobs: the list of jobs in c/Computer Architecture labs/lab5/task2.c; Chain treats the list in memory
--   and what is unlinked, Listing a listing; its loops run on fuel of a round for each job and one more.
-- Grep: the matcher of c/os-master/grep.c; Search relates its loops to places in the text.
-- Lines: c/Computer Architecture labs/lab6/task4/LineParser.c. Words treats one command, Total says
--   that the fuel of the parser, a round for each character and one more, is enough.
--
-- Vm: c/os-master/vm.c with the macros of mmu.h, for a process whose pages are not swapped. The state
--   is the allocator, the words of the page tables and the bytes of the user's pages. Shape says what
--   valid page tables are and which entry a walk finds; Frame, Added, Table and Grow are about a walk
--   that makes a new table, Walk about stores, Map and Mappages about `mappages`. Uvm has the user's
--   memory, Uvm/Copyout `copyout`, Kernel `setupkvm`, Cow `copyuvm` with the pages that parent and
--   child share, Fault the copy at the first write. The loops run on fuel of a round for each page
--   and at most two more; `mappages` also counts rounds past the end of the address space.
--
-- Fs: c/os-master/fs.c. Free is about the map of free blocks, File about the blocks and the bytes of an
--   inode, with `itrunc` in File/Trunc, Inodes about the table of inodes in memory and `ialloc`, Path
--   about paths, the references that `namex` takes, and the entries of directories; it sees the table
--   of inodes as references by number, without its limit of 50. The panics of `log_write` are in Log,
--   and File/Bytes/Logged counts the calls. The loops run on fuel or over what is left: a round for
--   each block of the map and two more, for each byte and one more, for each byte of a path and one
--   more.
--
-- Not modelled here: paging in vm.c (`swapToFile`, `get_page`), the functions on swap files in fs.c,
-- the system calls on files, most other system calls, the other user programs, and the other
-- exercises in c/Computer Architecture labs.
-- Not modelled at all: drivers, assembly and the machine state behind `swtch`, and the programs in
-- C++.
pub mod Prelude
pub mod Kalloc
pub mod Pipe
pub mod Paging
pub mod Spinlock
pub mod Ptable
pub mod Log
pub mod Files
pub mod Strings
pub mod Bcache
pub mod Lines
pub mod Sleeplock
pub mod Jobs
pub mod Syscalls
pub mod Grep
pub mod Vm
pub mod Fs
