-- ===== src/Kernel.antt =====
-- kernel.c: the system calls, the screen and the heap of the kernel.
--
-- The constants of kernel.h, which is not in the repository, are parameters.
pub mod Syscalls
pub mod Screen
pub mod Heap
pub mod Boot
pub mod Bytes
mod Tests
