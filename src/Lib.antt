-- ===== src/Lib.antt =====
-- VoidFrame, a 64-bit kernel: models of its core subsystems, and the theorems that make them
-- correct.
--
-- Conventions. Numbers are the native ℕ; a 32- or 64-bit sum or difference is reduced modulo 2^32 or
-- 2^64 where the code computes it (Prelude.Words). C arrays are lists, read by `get_or` and written
-- by `set`; the invariants show that every access is in range. A null pointer is `none`, or 0 among
-- addresses. A store of eight bytes changes every word that it overlaps (`stored`). Messages
-- to the console have no part in any state and are left out.
--
-- IPC (Ipc and its children). kernel/ipc/Ipc.c. `Ipc.Message` and `Ipc.Queue` are the structures and
-- scans of Ipc.h and Ipc.c, `Ipc.Process` the process table as far as IPC uses it, `Ipc.Send` is
-- IpcSendMessage, IpcSendRequest and IpcSendResponse, `Ipc.Receive` the two receivers and the
-- queries. The ring is a list of 32 slots. What a section under a spinlock does is one function; the
-- endless loops of the receivers are lists of rounds, with what other processes do in between as
-- an argument. The loop that moves slots has 32 units of fuel, one for each slot it can visit.
-- `Ipc.View` gives the list of messages that a ring stands for and the invariant; `Ipc.Bitmap`,
-- `Ipc.Lowest`, `Ipc.Best`, `Ipc.Enqueue`, `Ipc.Dequeue`, `Ipc.Table`, `Ipc.Reach` and
-- `Ipc.Delivery` prove.
--
-- Physical memory (Pmm and its children). mm/PMem.c. `Pmm.Word` is a 64-bit word as a list of bits,
-- `Pmm.State` the static variables and the operations on one bit, `Pmm.Init` MemoryInit over the
-- entries of the memory map, `Pmm.Page` AllocPage, FreePage and GetFreeMemory, `Pmm.Range` the runs,
-- `Pmm.Huge` the 2 MB pages. The loop of AllocHugePages has as much fuel as there are pages, and
-- each round moves 512 pages on; the loop over a reserved entry has a round for each page size in
-- the entry's length and one more, and each moves on by a page size. `Pmm.Bitmap` has the
-- invariant: a bit for each page, none past the last, and a count that agrees. `Pmm.Bits`,
-- `Pmm.Mark`, `Pmm.Search`, `Pmm.Alloc`, `Pmm.Free`, `Pmm.Sets`, `Pmm.Regions`, `Pmm.Runs`,
-- `Pmm.FreeRuns`, `Pmm.HugeLaws`, `Pmm.Marks` and `Pmm.InitLaws` prove.
--
-- Memory security (Cerberus and its children). mm/security/Cerberus.c and Cerberus.h. `Cerberus.State`
-- has the tables, the log of violations, CerberusInit and CerberusUnregisterProcess,
-- `Cerberus.Track` the tracked allocations, `Cerberus.Canary` registration and the canaries,
-- `Cerberus.Watch` the tick and the faults. The memory is an argument: the page tables, the words, and
-- whether a word can be written. Reports keep the process only, since the rest is printed.
-- `Cerberus.Counts` has the invariant; `Cerberus.Regions`, `Cerberus.Registry`, `Cerberus.Guard`,
-- `Cerberus.Alarm`, `Cerberus.Kept` and `Cerberus.Runs` prove.
--
-- Block devices (Block and its children). fs/BlockDevice.c and fs/MBR.c with their headers.
-- `Block.Table` is the table of 16 devices, a pointer to a device being its place in it; a function
-- pointer names a driver, or the functions that pass a call on to the parent, and an access is the
-- call that reaches the driver. The fuel of that is 16 rounds, since a parent stands before its
-- partitions. `Block.Mbr` decodes the boot record from its bytes and registers its partitions.
-- `Block.Append`, `Block.Partitions` and `Block.Access` prove.
--
-- Registries (Registry and its children). `Registry.CharDevice` is fs/CharDevice.c,
-- `Registry.FileSystem` fs/FileSystem.c over the table of `Block`, `Registry.First` the loop that both
-- have. `Registry.Mounting` and `Registry.Names` prove.
--
-- Checksum (Crypto and its children), crypto/CRC32.c. `Crypto.Bits` has words as lists of bits,
-- `Crypto.Crc` the table and the checksum; `Crypto.Table` and `Crypto.Detect` prove.
--
-- Scheduler (Eevdf and its children), kernel/sched/EEVDF.c and EEVDF.h, for one processor. The tree of the
-- run queue is `Eevdf.Tree` (the pool and the rotations), `Eevdf.Insert` and `Eevdf.Delete`; `Eevdf.Nice` and
-- `Eevdf.Time` have weights and virtual time, `Eevdf.State` the process control blocks and the global state,
-- `Eevdf.Runqueue` enqueue, dequeue and pick, `Eevdf.Seal` the integrated seals over `Crypto.Crc`,
-- `Eevdf.Slots` slots, PIDs and the termination queue, `Eevdf.Terminate`, `Eevdf.Create` and `Eevdf.Schedule`
-- the handlers, which call Cerberus's own; `Eevdf.Levels`, `Slices`, `Ring`, `Reaping`, `Integrity`, `Dying`,
-- `Guarding` and `Runs` prove; `Pool`, `PoolDelete`, `InRange`, `Sizes`, `Ending`, `Starting` and `Switching` have the
-- lemmas that `Runs` joins. A loop over the tree has as much fuel as the pool has nodes.
-- A read through a null pointer that a well-formed tree never makes changes nothing; PANIC sets `panicked`, after
-- which the other fields mean nothing; the timer's counters are fields that a call only reads, and the stack and the
-- addresses of a new process are arguments.
--
-- Memory pools (Pool and its children), mm/MemPool.c and MemPool.h. `Pool.Store` has the pools and their
-- operations over the links that free blocks keep in memory, where a null pointer is 0; `Pool.FreeList` proves, and shows that the pool
-- that CreateMemPool makes has its pages cut into blocks, of 8 bytes at least.
--
-- Not modelled: the drivers and the architecture layer, whose state is the hardware's; the Rust locks
-- and heap, the C++ virtual memory and the allocators, which the code above only calls; the
-- MLFQ scheduler, which the build takes in place of EEVDF; the virtual and the disk file systems and
-- the loaders; text formatting; the console, shell, editor and compositor; the font table; vendored
-- libraries.
pub mod Prelude
pub mod Ipc
pub mod Pmm
pub mod Cerberus
pub mod Block
pub mod Registry
pub mod Crypto
pub mod Eevdf
pub mod Pool
