-- ===== src/Lib.antt =====
-- eaX: the C parts of a small operating system, and the file system of its shell, modelled by
-- hand from their sources and proved about.
--
-- The repository's C files are components that keep their state apart: each has its static
-- variables, its operations read and change these, and a caller (a user of the kernel, an
-- interrupt) calls them one at a time. Only kernel_main calls other components, the drivers that
-- it brings up. Here each component is a module: a record for the static variable, a function for
-- each C function, which takes the state and returns the new one beside the value that the C
-- function returns, and a data type of its calls with a function that runs a list of them, for
-- what holds of any history.
--
-- Prelude: the shared helpers. Prelude/Tests has the comparisons and the conditional,
-- Prelude/Words the words of C and the order of its ints, Prelude/Arrays arrays as functions of
-- the index and the copy of a C string, Prelude/Copied that the copy is the string,
-- Prelude/Search the loop `for (i = 0; i < n; i++) if (...)` with what it finds, Prelude/Bits the
-- bits of a word, Prelude/Table a table without gaps as a list, Prelude/Members what is in a list
-- of numbers, Prelude/Texts literals as lists of characters.
--
-- Process (prcs.c): the process table. Process/Lifecycle has process_create, process_terminate,
-- thread_create, process_get_info and process_wait; Process/Attributes the operations on one
-- field; Process/Schedule schedule_next_process, and Process/Schedule/Turns is about calls of it
-- in a row. Process/Run is a sequence of calls. The other modules are proofs: Invariant and
-- Preserve, Lookup, Lifetime, Wait, Capacity, Files and Schedule/Highest; Views says what is seen
-- of a process, with lists for its arrays, and what each call is to make of that, and History
-- shows that any calls but the scheduler's do so.
--
-- Interrupt (ipts.c): the routines isr_0 to isr_20 are one function of an Exception, and irq_0 to
-- irq_15 one function of a Line. Interrupt/Mask is about the bit of a mask and registration,
-- Interrupt/Masked about the masks after any history, Interrupt/Count about the counters,
-- Interrupt/Calls about the handlers that are called.
--
-- Memory (mem.c): the page accounts in Memory, mappings and page tables in Memory/Paging, swap in
-- Memory/Swap; proofs in Memory/Accounts, Translation, Tables, Unbacked and Pages.
--
-- Filesystem (filesystem.c): Filesystem/Inodes, Files and Blocks hold the operations; Positions,
-- Transfer, Reuse, Alive and Cache the proofs.
--
-- Devices (devices.c): the table of devices. Devices/Calls has the operations that go through a
-- handler, Devices/Queries those that only read, Devices/Run a sequence of calls. Devices/Refine
-- shows that the table is a list, Devices/Ascending and Ids are about the ids, Devices/Found
-- about what is found under them, Devices/Reuse about slots that are used again.
--
-- Storage (storage.c), Network (ntwrk.c), Input (input.c) and Graphics (graphics.c): the drivers,
-- each in the module of its name. Storage/Run and Network/Run run a list of calls; Input/Queue is
-- about the events that wait, Input/Held about keys and buttons, and Input/Types about the C
-- types; Graphics/Vram is about the mode and the video memory after any calls, Graphics/Mode
-- about rectangles and the text screen.
--
-- Stdlib (stdlib.c): the C library. Stdlib/Blocks has memcpy, memset, memmove and memcmp,
-- Stdlib/Strings the functions on strings, Stdlib/Numerals atoi and strtol, Stdlib/Alloc malloc,
-- free, calloc and realloc, Stdlib/Chars the character tests, abs and rand, Stdlib/Stubs what
-- only returns. Their child modules are proofs: a string is described by the list of its
-- characters (Text), a block by the list of its bytes, a number by the value of its digits.
--
-- Kernel (kernel.c): Kernel/Bytes has its own memcpy and memset, beside those of stdlib.c.
-- Kernel/Syscalls has the table of system calls and Kernel/Syscalls/Run a list of calls;
-- Kernel/Screen the text screen, with Bounds and Rows; Kernel/Heap has memory_init, kmalloc and
-- kfree on headers in a store. Kernel/Heap/Chain describes the linked headers by a list of blocks
-- (IsChain, IsHeap); Take and Allocate are about kmalloc as first fit on that list, Join, Release
-- and Free about kfree as the joining of free neighbours, and RoundTrip about the one after the
-- other; Merged, InUse, Held, Run and Clients are about a client that makes a list of calls, and
-- Restored about one that gives everything back. Kernel/Boot has kernel_main up to any number of
-- prompts, on the statics of the kernel and the four drivers, and Kernel/Boot/Ready what holds
-- then.
--
-- Shell (shell.py): the simulated file system of the shell, with a function for each method of
-- VirtualFileSystem. Shell/Texts has the operations on strings, Shell/Start the file system at
-- the start, and Shell/Commands the commands that use it. Shell/Words and Paths show that the
-- current path is a list of names, Shell/Files what a new file changes and where it is listed,
-- Shell/Made that one can go to a new directory.
--
-- Each component has a Tests module that applies its theorems at concrete states.
--
-- Integers are the native numbers with the wrap-around of their type written out (u8, u32, u64,
-- sub32 of Prelude/Words). An int that can become negative, as the cursor of the screen would
-- without a test, is the word of its two's complement, compared by ltb_int and leb_int; the int
-- next_fd has no result (`none`) where it would overflow. An array is a function of the index
-- without a bound; where the code tests an index, so does the model, and where a missing test
-- lets the code leave an array or follow NULL, the operation of the model has no result (`none`),
-- as mm_set_page_table_entry and fs_create_file show. A pointer into a table is an index, a
-- function pointer is its address. Most loops run a number of rounds that is known at their
-- start, and are a recursion on that number. The loops that run until they meet a byte (in
-- stdlib.c and screen_print) or NULL (in kmalloc) take fuel, one for each test of their
-- condition, and have no result if it ends first; the theorems give fuel above the length of the
-- string, or of the list of blocks, which is always enough.
--
-- kernel.h is not in the repository: SCREEN_WIDTH, SCREEN_HEIGHT, sizeof(struct mem_block) and
-- ALIGN_UP are parameters, the first two with the hypothesis that the screen has a cell and that
-- an int counts its cells (Fits), the last one with the hypothesis that it does not lower a
-- request; so are the sizes of the structures that the drivers return. In memory_init, whose
-- subtraction of a pointer from a number C does not allow, the size is an argument. The build is
-- taken to be for a 32-bit machine where a char is signed.
--
-- Not modelled: the contents of the buffers beyond what the code copies; directory_entry_t, which
-- nothing uses; sti and hlt, which are not in the repository; drivers.h, which only declares;
-- boot.asm; and of the Python programs, which are apart from the C system, fotress.py and the
-- other commands of shell.py, which print or run other programs.
pub mod Prelude
pub mod Process
pub mod Interrupt
pub mod Memory
pub mod Filesystem
pub mod Devices
pub mod Storage
pub mod Network
pub mod Input
pub mod Graphics
pub mod Stdlib
pub mod Kernel
pub mod Shell
