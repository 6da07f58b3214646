-- ===== src/Kernel/Syscalls.antt =====
-- kernel.c: the system calls.
pub mod Run
use ea_x.Prelude.{
  ℕ, zero, suc, ◌+◌, ◌-◌, ◌^◌, ◌≤◌, ◌<◌, ◌≡◌, refl, Option, none, some, List, [], ◌∷◌, u32, leb,
  ltb, ◌==◌, if◌then◌else◌, arith,
}

-- The two statics that the calls change. `next_pid` is a uint32_t, and `next_fd` a signed int, which starts
-- at 3 and only grows.
pub record Counters : Type 0 where
  pub next_pid : ℕ
  pub next_fd : ℕ

-- The 28 functions of `syscall_table`, `syscall_exit` to `syscall_munmap`.
pub data Syscall : Type 0 where
  exit read write open_file close fork exec wait kill getpid mkdir rmdir chdir getcwd : Syscall
  stat fstat lseek dup dup2 pipe mount unmount sysinfo getsystime setsystime ioctl : Syscall
  mmap munmap : Syscall

-- `-1` on an int32_t.
abbrev pub minus_one : ℕ
minus_one = 2 ^ 32 - 1

-- `return next_fd++;`: beyond 2^31 - 1 the sum of an int overflows, which C leaves undefined; `none`
-- stands for that.
abbrev pub give_fd : Counters → Option (ℕ × Counters)
give_fd k =
    if ltb (k.next_fd + 1) (2 ^ 31)
    then some (k.next_fd, record k { next_fd = k.next_fd + 1 })
    else none

-- What each function returns, and the new state. The arguments that a function does not use are left out.
unfoldable pub call : Syscall → Counters → (a1 a2 a3 : ℕ) → Option (ℕ × Counters)
call exit k a1 a2 a3 = some (0, k)
call read k fd buffer count = some (count, k)
call write k fd buffer count = some (count, k)
call open_file k path flags mode = give_fd k
call close k fd a2 a3 = some (0, k)
call fork k a1 a2 a3 =
    if leb 256 k.next_pid
    then some (minus_one, k)
    else some (k.next_pid, record k { next_pid = u32 (k.next_pid + 1) })
call exec k path argv envp = some (0, k)
call wait k pid status options = some (pid, k)
call kill k pid signal a3 = some (0, k)
call getpid k a1 a2 a3 = some (1, k)
call mkdir k path mode a3 = some (0, k)
call rmdir k path a2 a3 = some (0, k)
call chdir k path a2 a3 = some (0, k)
call getcwd k buffer size a3 = some (0, k)
call stat k path stat_buf a3 = some (0, k)
call fstat k fd stat_buf a3 = some (0, k)
call lseek k fd offset whence = some (offset, k)
call dup k oldfd a2 a3 = give_fd k
call dup2 k oldfd newfd a3 = some (newfd, k)
call pipe k fds a2 a3 = some (0, k)
call mount k source target fstype = some (0, k)
call unmount k target flags a3 = some (0, k)
call sysinfo k info a2 a3 = some (0, k)
call getsystime k time_buf a2 a3 = some (0, k)
call setsystime k time_val a2 a3 = some (0, k)
call ioctl k fd cmd arg = some (0, k)
call mmap k addr len prot = some (addr, k)
call munmap k addr len a3 = some (0, k)

abbrev pub syscall_table : List Syscall
syscall_table =
    exit ∷ read ∷ write ∷ open_file ∷ close ∷ fork ∷ exec ∷ wait ∷ kill ∷ getpid ∷ mkdir ∷ rmdir
    ∷ chdir ∷ getcwd ∷ stat ∷ fstat ∷ lseek ∷ dup ∷ dup2 ∷ pipe ∷ mount ∷ unmount ∷ sysinfo
    ∷ getsystime ∷ setsystime ∷ ioctl ∷ mmap ∷ munmap ∷ []

unfoldable pub get_elem? {ℓ} : {A : Type ℓ} → List A → ℕ → Option A
get_elem? [] n = none
get_elem? (x ∷ xs) zero = some x
get_elem? (x ∷ xs) (suc n) = get_elem? xs n

-- An entry of the table that is NULL would be called; `none` stands for that too.
unfoldable pub handle_syscall : Counters → (syscall_num a1 a2 a3 : ℕ) → Option (ℕ × Counters)
handle_syscall k syscall_num a1 a2 a3 =
    if leb 28 syscall_num
    then some (minus_one, k)
    else elim (get_elem? syscall_table syscall_num) [ none ↦ none | some f ↦ call f k a1 a2 a3 ]
