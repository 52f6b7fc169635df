-- ===== src/Lib.antt =====
-- The program is an operating system kernel in components. This library models, as functions and step
-- relations, the parts whose logic is the kernel's own: its tasks and their scheduling, timers, tables
-- of file descriptors, pipes, file systems, mutexes and pages of memory.
--
-- Parts and files. Prelude holds what all share: tests on numbers, lists and bits over the native
-- numbers, integers, text, and functions changed at one argument.
--   Sched            crates/scheduler/src: the trait BaseScheduler with the laws that its users rely
--                    on; Sched/Fifo is fifo.rs, Sched/RoundRobin is round_robin.rs, and Sched/Cfs is
--                    cfs.rs
--   TimerList        crates/timer_list/src/lib.rs
--   Task             modules/axtask/src. Task/State has the fields of TaskInner (task.rs) and the
--                    statics, Task/RunQueue the methods of AxRunQueue (run_queue.rs) with
--                    disable_preempt and enable_preempt (task.rs), Task/WaitQueue is wait_queue.rs with
--                    join (task.rs), Task/Alarms and Task/Timers are timers.rs. Task/Balance has the
--                    invariant, what each operation does to it, and the events of a system (api.rs);
--                    Task/Waking, Task/Timeouts and Task/Exit are about wake-ups and exits
--   FlattenObjects   crates/flatten_objects/src/lib.rs; FlattenObjects/Bitmap is what it uses of the
--                    third-party crate bitmaps
--   Posix/FdOps      api/arceos_posix_api/src/imp/fd_ops.rs and syscall_body! of src/utils.rs
--   Posix/Pipe       api/arceos_posix_api/src/imp/pipe.rs
--   Fs               Fs/Types is crates/capability/src/lib.rs and crates/axfs_vfs/src/structs.rs,
--                    Fs/DirEntry is VfsDirEntry of the latter, Fs/RamFile is
--                    crates/axfs_ramfs/src/file.rs, and Fs/Options and Fs/Fops are
--                    modules/axfs/src/fops.rs
--   Fs/Path          canonicalize of crates/axfs_vfs/src/path.rs; Fs/Path/Stack is a path as a stack
--                    of names, which it is compared with
--   Fs/Tree          crates/axfs_ramfs/src/{dir,lib}.rs and crates/axfs_devfs/src in one heap of
--                    nodes: Fs/Tree/Ram and Fs/Tree/Device are the two kinds of DirNode, Fs/Tree the
--                    dispatch on a node's kind, Fs/Tree/Io the reads and writes, Fs/Tree/Mounts the
--                    file systems themselves and modules/axfs/src/mounts.rs
--   Fs/Root          modules/axfs/src/root.rs over the operations of the mounted file systems, which
--                    Fs/Root/Trees gives for the heap of nodes; Fs/Root/Calls has the calls on paths
--                    and the current directory
--   Mutex            modules/axsync/src/mutex.rs with wait_until of modules/axtask/src/wait_queue.rs:
--                    an event is an atomic operation on the owner, or a part under the lock of the
--                    run queue, of any task
--   Pages            crates/allocator/src/bitmap.rs; Pages/Bits is what it uses of the third-party
--                    crate bitmap_allocator
--   Io               crates/axio/src/lib.rs (read_exact), buffered/bufreader.rs, and the read of a
--                    slice in impls.rs, over a reader with the contract of `read`
--   Addr             crates/memory_addr/src/lib.rs
--   Ratio            crates/ratio/src/lib.rs
-- The task system calls a scheduling policy and the timer list; the descriptors stand in a table of
-- numbered objects, and a pipe is a file that such a descriptor may name. An open file holds a node of
-- a file system with the rights it was opened with; Fs/Fops/Ram puts open files over files in memory.
-- The root directory passes a path on to the file system mounted there, whose directories pass it on to
-- their nodes.
--
-- State. A record holds the fields of a struct, and an operation takes the old record and gives the
-- new one. A failed assertion, a panic or an access out of bounds is none. A task is its address,
-- and the fields of all tasks are a function of it. An operation of the task system is one step
-- under the lock of the run queue; one that switches to another task ends with the switch, and what
-- follows when the task runs again is an operation of its own. A pass of the loops in read and
-- write of a pipe is a step under the lock of its buffer.
--
-- Numbers. Sizes, indices and deadlines are natural numbers; the counter of preemption, time
-- slices, addresses and what is computed from them, the products of a ratio, and a descriptor read
-- as usize wrap round as in the source. The run times and IDs of the completely fair policy are
-- counters from zero, taken below 2 ^ 63. A byte is any number. A ring has 256 bytes, a table at
-- most 1024 objects. A path is a list of code points.
--
-- Bounds. The loop of notify_all_locked runs one round for each task in the queue, which empties
-- it. The loop of check_events takes the times that the clock shows in its rounds. The loop of a
-- fixed time, expire_all, has fuel, and one more than there are events is enough. The dispatch of a
-- path on a tree has as much fuel as the path has characters and one more, which is enough since
-- what a directory passes on is shorter. The loop of read_exact has fuel, and one more than the
-- bytes asked for is enough. The loops of a ratio count its shift down.
--
-- Parameters. The bitmap of crates/flatten_objects and that of the pages, the linked list under the
-- first-in first-out policy and set_nonblocking of a file are arguments, with their documented
-- behaviour as laws, and so are the reader under a buffered one, the lookup and creation of files
-- under the open files, the file systems under the root directory, and the nodes of file systems
-- that are not modelled in a tree; the tests give each a concrete value.
--
-- Not modelled: stacks, contexts and reference counts of tasks, other CPUs, drivers and hardware,
-- the network, the allocators of bytes, page tables, the FAT file system, and the libraries for
-- programs.
pub mod Prelude
pub mod Addr
pub mod Ratio
pub mod Mutex
pub mod Pages
pub mod Posix
pub mod FlattenObjects
pub mod Sched
pub mod TimerList
pub mod Task
pub mod Fs
pub mod Io
