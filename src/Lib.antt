-- ===== src/Lib.antt =====
-- Verification of the xv6 kernel of this repository (with its process status, jobs and signal
-- extensions) and of its user programs.
--
-- The repository is a small Unix: the kernel (proc.c, vm.c, kalloc.c, spinlock.c, pipe.c, file.c,
-- log.c, bio.c, fs.c, console.c, syscall.c, sysproc.c, sysfile.c and the drivers), a user library
-- (ulib.c, printf.c, umalloc.c) and user programs (sh.c, grep.c and others). System calls enter through
-- syscall.c; processes share the process table under one lock; the file system writes through the log
-- of log.c, which stands on the buffer cache of bio.c.
--
-- Files, and what they are about:
--   Base              shared names: numbers, 32-bit words, lists, results of code that may panic,
--                     circular buffers with free-running counters (Base/Ring)
--   Kernel/Spinlock   spinlock.c: `pushcli` and `popcli` (Interrupts), and `acquire` and `release` as
--                     steps of several CPUs (System, Exclusion)
--   Kernel/Kalloc     kalloc.c: the free list in memory (Chain), `kfree` and `kalloc` (Refine),
--                     `freerange` and start-up (Range)
--   Kernel/Pipe       pipe.c: `pipewrite` (Write), `piperead` (Read), any sequence of calls (Stream), and
--                     the processes that sleep on a pipe and are woken (Sleepers, Wakeups)
--   Kernel/Log        log.c: what a disk with a log means (Replay), the loops under a crash (Loops,
--                     Install), `commit`, recovery, `log_write` and `end_op` (Transaction), and the
--                     reservation of log space (Reserve)
--   Kernel/Proc       proc.c: the process table (Proc), `fork`, `exit`, `waitpid`, sleeping and waking
--                     (Life), `kill`, jobs and signals (Calls), what the scans compute (Scan), `waitpid`
--                     (Wait), `kill` (Kill), the jobs (Jobs), and the family of processes under every
--                     sequence of calls (Family and the files below it)
--   Kernel/Console    console.c: the line editor of the keyboard interrupt against a plain one (Lines, Erase,
--                     Append, Edit), `consoleread` (Reads), printing (Print, Digits)
--   Kernel/Fs         fs.c: the bitmap of free blocks (Bitmap, Alloc), inodes (Inode), `bmap`, `readi`
--                     and `writei` (Content and the files below it), the inode cache (Cache), directories
--                     (Dir), path names (Path)
--   Kernel/File       file.c, of sysfile.c `dup`, `close` and `fstat`, and `pipealloc` of pipe.c: reading and
--                     writing (Transfer), the calls (Calls), the count of references (Counts, Balance)
--   Kernel/Syscall    syscall.c: the checks of system call arguments (Bounds)
--   Kernel/Strings    string.c: `memmove` (Move), `memcmp` (Compare), and the copies of strings (Copy)
--   User/Grep         grep.c: the pattern matcher
--   User/Library      ulib.c and printf.c: `printf`, `atoi` (Decimal), strings and `memmove`
--
-- How the model corresponds to the code. A function of the code is a function of the same name on an
-- explicit state, a record for each struct. A critical section under a spin lock is one function, as
-- Kernel/Spinlock justifies; a call that sleeps ends with a value that says so, and runs its loop again
-- when it wakes. `panic` is a result (Base/Outcome). A `uint` is a natural number with its wrap-around
-- at 2^32 written out; memory, disks and arrays are functions of the index.
--
-- Fuel. `freerange` runs on fuel, `vend / PGSIZE + 1` rounds, and the theorem on it shows that the loop
-- ends within them. `balloc` has a round for each block of the bitmap, `readi` and `writei` one for each
-- byte, `printint` 32, `namex` one for each byte of the path, and the loops over a directory one for each
-- entry; the theorems on them show that these are enough. `filewrite` has one for each byte and `ialloc`
-- one for each inode. Other loops recur on the rounds left or on a list.
--
-- A crash in Kernel/Log is a number of disk writes, `power`, after which no write reaches the disk; the
-- theorems hold for every such number. A sector's write is atomic, which the disk promises.
--
-- Not modelled: assembly and start-up code, the device drivers, page tables, the calls of sysfile.c on
-- paths, `read` and `write`, the buffer cache but for `bwrite`, the shell, the allocator of umalloc.c
-- and the remaining user programs; of console.c the output to the devices, `panic` and `consolewrite`;
-- of proc.c `userinit`, `growproc`, `fg`, `procdump` and the switch of contexts; of syscall.c the
-- dispatch. The functions that only name a lock are left out. The `int` counters `ncli`,
-- `outstanding` and `ref` and the pids are not bounded. `fork` is one step, though the lock of the
-- table is free while it copies memory: until it ends its slot is neither free nor runnable. A run
-- of fs.c or file.c is one process's; where it would wait for an inode that is locked it ends as
-- blocked. Nothing is proved about `ialloc`, `fileread` and `filewrite` by themselves, and of `itrunc`
-- and `iput` only that they end and what `iput` does to the reference. `printint` of console.c gives no
-- result where the characters overrun its buffer of 16, which they do in bases 2, 3 and 4.
pub mod Base
pub mod Kernel
pub mod User
