-- ===== src/Lib.antt =====
-- A model of the kernel core of ContinuumOS, a 32-bit x86 operating system, and what holds of it.
--
-- The parts, by file of the repository:
--   Common     the names that the others share: Boolean tests, arrays as lists, bit arithmetic, integers.
--   Heap       src/kernel/heap.cpp: the kernel heap as its list of blocks. Layout says when blocks fill
--              the heap; Alloc, Release, Resize and Stats are kmalloc, kfree, krealloc, get_heap_stats.
--   Pmm        src/kernel/memory.cpp: PhysicalMemoryManager, its bitmap of frames and its counter, with
--              the search in Search, allocation in Accounting and initialize in Boot.
--   Process    src/kernel/process.cpp: the process control block, its ring of I/O events (EventQueue)
--              and its wait hooks; the hook types are those of include/kernel/hooks.h.
--   Scheduler  src/kernel/scheduler.cpp and the handler of src/kernel/timer.cpp: process table (Slots,
--              Table), ticket lottery, events, foreground stack. It uses Process through its functions.
--   Strings    libc/string/string.cpp: comparison, search and tokens of C strings, copies in memory.
--   Vfs        src/kernel/vfs.cpp: paths (Paths, Walk, Normal), what they mean
--              (Resolution), mount table (Mounts), open files (Files)
--              and the calls (Calls), which reach a file system only through its table of operations.
--   Ramfs      src/kernel/ramfs.cpp and src/kernel/ramfs_vfs.cpp: the file system in memory, a store of
--              nodes at addresses. Paths and Lookup are its paths, Data its bytes, Links the shape of
--              the tree, Create and Removal what changes it; Adapter is the table of operations that
--              it gives to Vfs, and Files the two together.
--   Blockdev   src/kernel/blockdev.cpp: the table of block devices; Bounds says which writes reach a disk.
--   Fat32      src/kernel/fat32.cpp on top of Blockdev: mounting and the table; Chains and Alloc are its
--              chains of clusters; Files, Reading, Seeking, Writing, Sizes and WriteEnds the open files;
--              Names, ShortNames and LongNames the names.
--   Keyboard   src/kernel/keyboard.cpp: scan codes and where their events go, to processes of Scheduler.
--   Descriptors  src/kernel/gdt.cpp and src/kernel/idt.cpp: Segments and Gates of the processor's tables.
--   Decimal    src/utils.cpp: numbers as decimal digits, read back in Value.
--
-- State is a record and an operation a function to the new state; a null pointer is `none`, and a
-- pointer is an index or an address. Words of 32 bits wrap as written out. Loops follow the list that
-- they run over, but for these: `remove_hooks` has one unit of fuel more than there are hooks, which is
-- enough since each turn removes one; `vfs_resolve_dots` takes its fuel as an argument, and two units
-- more than the path has characters are enough for every turn to take a token; `digits` has the size
-- of the source's buffer, or ten, as an int has at most ten digits; `fs_remove` needs one unit, and
-- `fs_rmdir` as many as the tree is deep; the loops over a chain of clusters need one unit more than
-- it has clusters, and `fat32_read` and `fat32_write` one more than the bytes asked for, as each turn
-- moves one. The answer of `kmalloc` is an argument of the operations of the file systems that
-- call it, in `fat32_write` one for each call.
--
-- Not modelled: log lines and drawing; the interrupt flag; port input and output, assembly and the jump
-- into a process; the drivers, the shell and the user programs; the directories of FAT32 and its
-- adapter, so that Vfs reaches a file system through a parameter, but for the one in memory. Strings
-- are taken to fit the buffers that the source copies them to (names of paths have at most 63
-- characters, and where a theorem says so it is a hypothesis), and sums of tickets to fit an int.
pub mod Common
pub mod Pmm
pub mod Heap
pub mod Process
pub mod Scheduler
pub mod Strings
pub mod Vfs
pub mod Decimal
pub mod Ramfs
pub mod Blockdev
pub mod Fat32
pub mod Keyboard
pub mod Descriptors
