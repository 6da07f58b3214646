-- ===== src/Kernel/Syscalls/Run.antt =====
-- Sequences of system calls.
use ea_x.Prelude.{
  ℕ, zero, suc, ◌+◌, ◌^◌, ◌≤◌, ◌<◌, ◌≡◌, refl, ◌∙◌, inl, inr, Bool, ◌&&◌, ◌||◌, true, false, Option,
  none, some, List, [], ◌∷◌, length, u32, leb, ltb, ◌==◌, if◌then◌else◌, arith, Bool-cases,
}
use ea_x.Kernel.Syscalls.{
  Counters, Syscall, exit, read, write, open_file, close, fork, exec, wait, kill, getpid, mkdir,
  rmdir, chdir, getcwd, stat, fstat, lseek, dup, dup2, pipe, mount, unmount, sysinfo, getsystime,
  setsystime, ioctl, mmap, munmap, call, syscall_table, get_elem?, handle_syscall, minus_one,
}

-- The number of each call.
abbrev pub number : Syscall → ℕ
number exit = 0
number read = 1
number write = 2
number open_file = 3
number close = 4
number fork = 5
number exec = 6
number wait = 7
number kill = 8
number getpid = 9
number mkdir = 10
number rmdir = 11
number chdir = 12
number getcwd = 13
number stat = 14
number fstat = 15
number lseek = 16
number dup = 17
number dup2 = 18
number pipe = 19
number mount = 20
number unmount = 21
number sysinfo = 22
number getsystime = 23
number setsystime = 24
number ioctl = 25
number mmap = 26
number munmap = 27

abbrev Consecutive : ℕ → List Syscall → Type 0
Consecutive m [] = Unit {0}
Consecutive m (f ∷ fs) = (number f ≡ m) × Consecutive (suc m) fs

get_elem?-Consecutive :
    (fs : List Syscall) (m n : ℕ)
    → Consecutive m fs
    → n < length fs
    → (f : Syscall) × (get_elem? fs n ≡ some f) × (number f ≡ m + n)
unfolding get_elem?
get_elem?-Consecutive [] m n c h = absurd (omega arith)
get_elem?-Consecutive (f ∷ fs) m zero (e, c) h = (f, refl, omega arith)
get_elem?-Consecutive (f ∷ fs) m (suc n) (e, c) h =
    let (g, found, eq) = get_elem?-Consecutive fs (suc m) n c (omega arith) in
    (g, found, omega arith)

table_lem : Consecutive 0 syscall_table
table_lem = omega arith

-- Every number below 28 is that of a call, and that call is made.
pub handle_syscall_lem :
    (k : Counters) (n a1 a2 a3 : ℕ)
    → n < 28
    → (f : Syscall) × (number f ≡ n) × (handle_syscall k n a1 a2 a3 ≡ call f k a1 a2 a3)
unfolding handle_syscall
handle_syscall_lem k n a1 a2 a3 h =
    let (f, found, e) = get_elem?-Consecutive syscall_table 0 n table_lem h in
    (f, omega arith, ground arith)

pub record Request : Type 0 where
  pub syscall_num : ℕ
  pub a1 : ℕ
  pub a2 : ℕ
  pub a3 : ℕ

abbrev pub handle : Counters → Request → Option (ℕ × Counters)
handle k r = handle_syscall k r.syscall_num r.a1 r.a2 r.a3

-- The numbers that return a new descriptor, and a new process.
abbrev pub gives_fd : ℕ → Bool
gives_fd n = (n == 3) || (n == 17)

-- The descriptors that a sequence of calls returns, the successful forks' pids, and the state after it.
pub record Given : Type 0 where
  pub fds : List ℕ
  pub pids : List ℕ
  pub last : Counters

abbrev pub add : Counters → Request → ℕ → Given → Given
add k r result g = record g {
  fds = if gives_fd r.syscall_num then result ∷ g.fds else g.fds;
  pids = if (r.syscall_num == 5) && ltb k.next_pid 256 then result ∷ g.pids else g.pids;
}

unfoldable pub run : Counters → List Request → Option Given
run k [] = some (record { fds = []; pids = []; last = k })
run k (r ∷ rs) = elim (handle k r) [
  | none ↦ none
  | some (result, k') ↦ elim (run k' rs) [ none ↦ none | some g ↦ some (add k r result g) ]
]

-- `m`, `m + 1`, and so on, up to `n`.
abbrev pub CountsUp : ℕ → List ℕ → ℕ → Type 0
CountsUp m [] n = m ≡ n
CountsUp m (x ∷ xs) n = (x ≡ m) × CountsUp (suc m) xs n

-- What one call returns, and how it moves the two counters.
abbrev Effect : Counters → ℕ → ℕ → Counters → Type 0
Effect k n result k' =
    (k'.next_fd ≡ (if gives_fd n then k.next_fd + 1 else k.next_fd))
    × (k'.next_pid ≡ (if (n == 5) && ltb k.next_pid 256 then u32 (k.next_pid + 1) else k.next_pid))
    × (gives_fd n ≡ true → result ≡ k.next_fd)
    × ((n == 5) && ltb k.next_pid 256 ≡ true → result ≡ k.next_pid)

-- A call that is answered, with its effect.
abbrev Answered : Counters → ℕ → Option (ℕ × Counters) → Type 0
Answered k n answer =
    (result : ℕ) × (k' : Counters) × (answer ≡ some (result, k')) × Effect k n result k'

call-Answered :
    (f : Syscall) (k : Counters) (a1 a2 a3 : ℕ)
    → k.next_fd + 1 < 2 ^ 31
    → Answered k (number f) (call f k a1 a2 a3)
unfolding call
call-Answered exit k a1 a2 a3 room = (_, _, refl, ground arith)
call-Answered open_file k a1 a2 a3 room =
    (k.next_fd, record k { next_fd = k.next_fd + 1 }, ground arith, ground arith)
call-Answered dup k a1 a2 a3 room =
    (k.next_fd, record k { next_fd = k.next_fd + 1 }, ground arith, ground arith)
call-Answered fork k a1 a2 a3 room = elim (Bool-cases (leb 256 k.next_pid)) [
  | inl full ↦ (minus_one, k, rw full refl, ground arith)
  | inr free ↦
      (k.next_pid, record k { next_pid = u32 (k.next_pid + 1) }, rw free refl, ground arith)
]
call-Answered _ k a1 a2 a3 room = (_, _, refl, ground arith)

handle-Answered :
    (k : Counters) (r : Request) → k.next_fd + 1 < 2 ^ 31 → Answered k r.syscall_num (handle k r)
handle-Answered k r room = elim (Bool-cases (leb 28 r.syscall_num)) [
  | inl beyond ↦ (minus_one, k, unfold handle_syscall in rw beyond refl, ground arith)
  | inr within ↦
      let (f, e, made) = handle_syscall_lem k r.syscall_num r.a1 r.a2 r.a3 (ground arith) in
      let (result, k', answer, effect) = call-Answered f k r.a1 r.a2 r.a3 room in
      (result, k', made ∙ answer, rw e at effect)
]

-- The answer of a step in front of those of the rest.
CountsUp-add :
    (b : Bool) (m m' x n : ℕ) (xs : List ℕ)
    → (b ≡ true → x ≡ m)
    → m' ≡ (if b then suc m else m)
    → CountsUp m' xs n
    → CountsUp m (if b then x ∷ xs else xs) n
CountsUp-add true m m' x n xs e next v = (e refl, rw next at v)
CountsUp-add false m m' x n xs e next v = rw next at v

-- Every sequence of system calls, with whatever numbers, is answered, if `next_fd` and the number of calls
-- together stay below 2^31, so that the int does not overflow. Then the descriptors that open and dup
-- return are distinct, each one above the last, whatever was closed; the forks that succeed return pids in
-- the same way, all below 256.
pub run-CountsUp :
    (rs : List Request) (k : Counters)
    → k.next_fd + length rs < 2 ^ 31
    → k.next_pid ≤ 256
    → (g : Given) × (run k rs ≡ some g)
      × CountsUp k.next_fd g.fds g.last.next_fd
      × CountsUp k.next_pid g.pids g.last.next_pid
      × (g.last.next_pid ≤ 256)
unfolding run
run-CountsUp [] k room below = (record { fds = []; pids = []; last = k }, refl, refl, refl, below)
run-CountsUp (r ∷ rs) k room below =
    let (result, k', made, (fd, pid, gave_fd, gave_pid)) = handle-Answered k r (omega arith) in
    let (g, ran, fds, pids, end) = run-CountsUp rs k' (ground arith) (ground arith) in
    (
      add k r result g,
      ground (arith, ran),
      CountsUp-add (gives_fd r.syscall_num) k.next_fd k'.next_fd result g.last.next_fd g.fds gave_fd
          (ground arith) fds,
      CountsUp-add ((r.syscall_num == 5) && ltb k.next_pid 256) k.next_pid k'.next_pid result
          g.last.next_pid g.pids gave_pid (ground arith) pids,
      end,
    )
