-- ===== src/Syscall/Errno.antt =====
-- The error numbers of syscall/mod.rs, and i64 results: a number from 0 on, or an error.
use chod_os.Base.{ℕ}

-- An i64 result of a system call: `val n`, or `err e` for the negative value -e.
pub data Result : Type 0 where
  val : ℕ → Result
  err : ℕ → Result

abbrev pub enoent : Result
enoent = err 2

abbrev pub ebadf : Result
ebadf = err 9

abbrev pub efault : Result
efault = err 14

abbrev pub eisdir : Result
eisdir = err 21

abbrev pub einval : Result
einval = err 22

abbrev pub enotempty : Result
enotempty = err 39
