-- ===== src/Process.antt =====
-- The processes of process/: their handles, their control blocks and the scheduler.
pub mod Handle
pub mod Pcb
pub mod Userproc
pub mod Shared
pub mod Channels
pub mod Ipc
pub mod Scheduler
pub mod Switching
pub mod Vma
