-- ===== src/Syscall/Pipe.antt =====
-- kernel/src/syscall/pipe.rs: the one pipe of the kernel. Its statics are a record; an i32 file
-- number is its bit pattern. User memory that a call reads is a list, and one that it writes is
-- returned.
pub mod Transfer
pub mod Tests
use chod_os.Base.{
  ℕ, zero, suc, ◌+◌, ◌-◌, ◌^◌, Bool, not, ◌&&◌, ◌||◌, Option, none, some, List, [], ◌∷◌,
  if◌then◌else◌, ◌==◌,
}
use chod_os.Base.Words.{u32}
use chod_os.Ring.{Ring}
use chod_os.Ring
use chod_os.Syscall.Errno.{Result, val, efault}

abbrev pub pipe_cap : ℕ
pipe_cap = 4096

-- `-1` as an i32.
abbrev pub no_fd : ℕ
no_fd = 2 ^ 32 - 1

pub record Pipe : Type 0 where
  pub ring : Ring
  pub read_fd : ℕ
  pub write_fd : ℕ
  pub next_fd : ℕ

pub is_read_fd : Pipe → ℕ → Bool
is_read_fd p fd = not (fd == no_fd) && (fd == p.read_fd)

pub is_write_fd : Pipe → ℕ → Bool
is_write_fd p fd = not (fd == no_fd) && (fd == p.write_fd)

pub has_data : Pipe → Bool
has_data p = Ring.has_data p.ring

-- The loop of `pipe_read`, `count - n` rounds from its end: the bytes put into the user's buffer.
pub read_loop : ℕ → Ring → List ℕ × Ring
read_loop zero r = ([], r)
read_loop (suc left) r = elim (Ring.pop pipe_cap r) [
  | none ↦ ([], r)
  | some (byte, r') ↦ let (bytes, r'') = read_loop left r' in (byte ∷ bytes, r'')
]

-- The result `n` of the call is the number of bytes.
pub pipe_read : Pipe → ℕ → List ℕ × Pipe
pipe_read p count = let (bytes, r) = read_loop count p.ring in (bytes, record p { ring = r })

-- The loop of `pipe_write` over the bytes of the user's buffer that are left, `n` of them written.
pub write_loop : List ℕ → ℕ → Ring → ℕ × Ring
write_loop [] n r = (n, r)
write_loop (byte ∷ bytes) n r = elim (Ring.push pipe_cap r byte) [
  | none ↦ (n, r)
  | some r' ↦ write_loop bytes (n + 1) r'
]

pub pipe_write : Pipe → List ℕ → ℕ × Pipe
pipe_write p buf = let (n, r) = write_loop buf 0 p.ring in (n, record p { ring = r })

-- The two file numbers go to the user's array; without an array the call fails.
pub sys_pipe : Pipe → ℕ → Result × Option (ℕ × ℕ) × Pipe
sys_pipe p fds_vaddr =
    let r = p.next_fd in
    let w = u32 (r + 1) in
    if fds_vaddr == 0 then (efault, none, p) else (
      val 0,
      some (r, w),
      record {
        ring = record p.ring { head = 0; tail = 0 };
        read_fd = r;
        write_fd = w;
        next_fd = u32 (p.next_fd + 2);
      },
    )

pub sys_pipe2 : Pipe → ℕ → ℕ → Result × Option (ℕ × ℕ) × Pipe
sys_pipe2 p fds_vaddr flags = sys_pipe p fds_vaddr

-- What `select` and `epoll` ask of the rest of the kernel: whether a key is waiting, and the pipe.
pub record World : Type 0 where
  pub has_key : Bool
  pub pipe : Pipe

unfoldable pub is_read_ready : World → ℕ → Bool
unfolding is_read_fd has_data
is_read_ready w fd =
    if u32 fd == 0 then w.has_key else (is_read_fd w.pipe (u32 fd) && has_data w.pipe)

unfoldable pub is_write_ready : World → ℕ → Bool
unfolding is_write_fd
is_write_ready w fd = ((fd == 1) || (fd == 2)) || is_write_fd w.pipe (u32 fd)
