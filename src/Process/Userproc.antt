-- ===== src/Process/Userproc.antt =====
-- process/userproc.rs: the entry of a user process. A kernel stack is the address of its first byte.
use chod_os.Base.{ℕ, List}

-- `SigAction` of signal.rs.
pub record SigAction : Type 0 where
  pub handler : ℕ
  pub flags : ℕ
  pub mask : ℕ

pub data UState : Type 0 where
  empty : UState
  ready : UState
  running : UState
  waiting : ℕ → UState
  zombie : ℕ → UState
  blocked : ℕ → UState

pub record UserProc : Type 0 where
  pub pid : ℕ
  pub parent_pid : ℕ
  pub state : UState
  pub user_cr3 : ℕ
  pub kstack : ℕ
  pub saved_frame_rsp : ℕ
  pub sig_handlers : List SigAction
  pub sig_mask : ℕ
  pub pending_sigs : ℕ
  pub fs_base : ℕ
  pub thread_group_pid : ℕ
  pub child_tid_ptr : ℕ
  pub cwd : List ℕ
  pub mmap_next : ℕ
  pub brk_base : ℕ
  pub brk_cur : ℕ
