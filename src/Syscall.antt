-- ===== src/Syscall.antt =====
-- kernel/src/syscall: the Linux system calls that the kernel answers.
pub mod Errno
pub mod Pipe
pub mod Select
pub mod Epoll
pub mod Fd
