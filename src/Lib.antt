-- ===== src/Lib.antt =====
-- Four systems programs: the filesystem wfs, served over FUSE, the Unix shell wsh, the process code, the
-- buffer cache and the redo log of an xv6 kernel with an STCF scheduler, and a library of thread
-- synchronisation.
--
-- wfs (01-fuse-filesystem-wfs). A handler of the FUSE table resolves its path (`get_inode_from_path`)
-- through the entries of directories, and reads or writes the file's bytes in the blocks that
-- `data_offset` finds or takes from the bitmap.
--   Wfs/Word and Wfs/Bitmap: the bitmaps of wfs.c. Wfs/Memory: the bytes of the image.
--   Wfs/Disk: the superblock, inodes and data blocks. Wfs/Data: `data_offset`.
--   Wfs/File: `wfs_read` and `wfs_write` on an inode. Wfs/Directory: entries and path resolution.
--   Wfs/Path and Wfs/Color: the strings. Wfs/Ops: the handlers. Wfs/Mkfs: mkfs.c.
-- The mounted image is the record `Disk`. A pointer to an inode is the number of its slot and a data
-- block the offset of its first byte, 0 for none; `mem` is the image from `d_blocks_ptr` on, which
-- stands apart from the bitmaps and inodes as long as pointers name data blocks (`Sound`). Offsets
-- are not negative, numbers in directory entries are below 2^31, `malloc` succeeds, and the clock,
-- the user and whether the caller is `ls` are arguments. The loops of reading and writing take one
-- round more than there are bytes to move, and each round moves at least one. The `int` arithmetic of
-- mkfs.c wraps as in C.
--
-- wsh (02-unix-shell-wsh). A line is split at its bars (`split_pipeline`), each segment parsed into
-- words (`parseline_no_subst`), its first word replaced by its alias (`expand_alias_first_token`
-- over the hash map), and the result run as a builtin, a program or a pipeline (`run_line`); the line
-- then joins the history, a dynamic array.
--   Wsh/HashMap, Wsh/DynamicArray, Wsh/Text: hash_map.c, dynamic_array.c, utils.c.
--   Wsh/Parse: `parseline_no_subst` and `split_pipeline` of wsh.c.
--   Wsh/Builtins: the builtin commands and the search of the path.
--   Wsh/Line: running a line, a pipeline, and the lines of a batch file.
-- The shell's globals and its environment are the record `Shell`, which each function takes and
-- returns. A string is its list of bytes without the terminator. The operating system is the record
-- `Os`. The fuel of `tokens` is one more than the length of the line, and each token takes at least
-- one byte. Allocation succeeds but where a flag says otherwise (`da_put`, `append`); the reason that
-- `perror` prints is left out; the arrays of words are taken to be long enough for the line.
-- `interactive_main` is the loop of `batch_main` with a prompt.
--
-- xv6 (03-xv6-stcf-scheduler). The process table is a list of 64 slots, and a `struct proc *` is the
-- index of a slot. One step is what the kernel does in one critical section of `ptable.lock`.
--   Xv6/Proc: proc.h. Xv6/Scheduler: the STCF branch of `scheduler`, `yield`, `sleep`, `wakeup`,
--   `sleep_proc_notify`, `kill` of proc.c and the timer case of trap.c.
--   Xv6/Lifecycle and Xv6/ForkExit: `allocproc`, `userinit`, `growproc`, `fork`, `clone`, `exit`,
--   `wait` of proc.c, and the counts of shared page tables in vm.c.
--   Xv6/Buffers: bio.c over the memory disk of memide.c. Xv6/Log: log.c, with its power failures.
--   Xv6/Pipe: pipe.c, each call up to where it returns or sleeps. Xv6/Syscalls: sysproc.c.
--   Xv6/System: the steps as a relation, from the kernel that `userinit` leaves.
-- A disk block is its 32-bit words. The buffer cache is 30 buffers and the order of its list; a step is
-- a section under `bcache.lock`, or the work of a process that holds a buffer. The log sees the cache as
-- the blocks that `bread` answers with (its field `cache`), and a power failure as a number of block
-- writes after which the disk stays as it is; a block write is atomic.
-- PIDs are the 32 bits of an `int`, and the steps are followed until `nextpid` would overflow.
-- There is one CPU. The file layer is the record `Files`; addresses that `kalloc`, `setupkvm` and
-- `copyuvm` return are arguments. `int` fields are integers and `ticks` a natural number, with
-- the conversions of `ticks_now` written out. Left out: the round-robin build, page tables, `exec`, and
-- the devices.
--
-- Threads (04-threading-concurrency-primitives). Sync/BoundedBuffer and Sync/RwLock cut `bb_put`,
-- `bb_take` and the lock's functions at their synchronisation (src/sync_utils.c,
-- src/readers_writers.c), and a relation interleaves the pieces of any number of threads. The POSIX
-- semaphore is the record `Semaphores`, with its documented laws.
--
-- Not modelled: the mounting of the image (`main` of wfs.c), the rest of the xv6 kernel (the
-- inodes and files above the log, memory and devices) and its user programs, and the thread
-- demonstrations.
pub mod Prelude
pub mod Xv6
pub mod Wsh
pub mod Sync
pub mod Wfs
