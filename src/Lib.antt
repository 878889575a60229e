-- ===== src/Lib.antt =====
-- A formal model of the JAT_OS kernel, a small 32-bit x86 operating system in C.
--
-- The kernel's parts are layered. Memory routines (kernel/memop/string.c), bitmaps
-- (kernel/memop/bitmap.c) and doubly linked lists (kernel/list/list.c) serve every other part.
-- Each top-level module below is one such part and names its source file in its first line.
--
-- Prelude      shared helpers: Boolean tests, lists over the native numbers, and `Outcome`, how a
--              call ends. A failed ASSERT is `panic`, since `panic_spin` (kernel/debug/debug.c)
--              never returns.
-- Bitmap       kernel/memop/bitmap.c. A bitmap is the memory from its pointer on, as a function of
--              the offset, with its length: the code reads behind the end. `uint32_t` sums are
--              taken modulo 2^32. `skip_full` runs on one round more than there are bytes,
--              `first_clear` on nine; that this is enough is part of `bitmap_scan-Scanned`.
-- Str          kernel/memop/string.c, over a memory that maps an address to a byte. A `char` is
--              signed. Loops that look for a terminator run on fuel, and each theorem says how
--              much is enough: more rounds than the text has characters.
-- DList        kernel/list/list.c: the links of all nodes as two functions of an address. `IsList`
--              relates them to the sequence of nodes that a list holds.
-- Kernel       the state that the thread code shares: the fields of `task_struct`
--              (kernel/include/thread.h), the ready queues, the semaphores, the current thread and
--              the interrupt flag. Queues are sequences of threads; DList has the lists themselves.
-- Sched        kernel/thread/thread.c and the interrupt of kernel/device/timer.c: `schedule`,
--              `thread_block`, `thread_unblock`, `thread_yield`, `intr_timer_handler`. A switch is
--              the change of the current thread; the code of a thread behind a switch is a later
--              step, which starts with the interrupt flag that the thread saved.
-- Sync         kernel/thread/sync.c, and `thread_wait` and `thread_exit` of kernel/thread/thread.c.
--              A wait is cut into rounds at each switch. Sync.Protocol has the steps of threads
--              that share a lock, in any order.
-- IoQueue      kernel/device/ioqueue.c: the ring of 64 characters with its two locks and the threads
--              that wait. IoQueue.Ring relates the ring to the sequence of its characters.
-- Pipe         pipe_read and pipe_write of kernel/device/pipe.c, on the queue of the pipe.
-- Words        Laws of exclusive or, and of `|` on disjoint fields.
-- Sm4          kernel/crypto/sm4.c: the tables, the key schedule, a block encrypted and decrypted,
--              and in Sm4.Ecb the padding and the mode ECB on a buffer. Arrays of words are the
--              entries that the loop still reads.
-- XorCipher    kernel/crypto/xor.c, on the bytes of the data and of the key.
--
-- Pages        kernel/memop/memory.c: the pools of page frames, the bitmaps of virtual pages, the page
--              tables, and mem_pool_init, malloc_page and mfree_page on them. The page tables are
--              words of the physical memory, read and written at linear addresses through the
--              directory, which maps itself; that the entries on the way are present is not tested
--              there, and the TLB is left out. A page and a frame are numbers, and `frame_of` gives
--              the frame behind a page from 4 MiB up to the window on the tables: the pages below
--              share a table with the kernel's first ones, and those above are the tables. The
--              bitmaps are bytes of their own. The callers hold the pools' locks.
-- Printf       itoa and vsprintf of kernel/standard/stdio.c. 32 calls are enough for the digits of a
--              32-bit number, and a round of the loop for each character of the format.
-- Keyboard     kernel/device/keyboard.c, on the bytes that wait in the controller and on IoQueue.
-- Sha256       kernel/crypto/sha256.c, on the bytes that each read of the file returns.
-- History      kernel/shell/history.c, on the links of DList. What malloc returns is an argument.
-- Paths        path_parse and path_depth_cnt of kernel/fs/fs.c, on the characters of the path. The
--              loop has two rounds more than the path has characters.
--
-- Not modelled: the rest of the file system, the small blocks of sys_malloc, the disk driver, the
-- shell and the editor, the system calls and the loading of programs; and what the processor does
-- at a switch of page directory and stack.
pub mod Prelude
pub mod Bitmap
pub mod Str
pub mod DList
pub mod Kernel
pub mod Sched
pub mod Sync
pub mod IoQueue
pub mod Pipe
pub mod Words
pub mod Sm4
pub mod XorCipher
pub mod Pages
pub mod Printf
pub mod Keyboard
pub mod Sha256
pub mod History
pub mod Paths
