-- ===== src/Process/Pcb.antt =====
-- process/mod.rs: states, priorities, messages and control blocks. The bytes of a kernel stack and the
-- name of a process, which nothing reads, are left out; a new stack is the address of its top.
use chod_os.Base.{
  ℕ, zero, suc, ◌+◌, ◌-◌, ◌*◌, ◌^◌, min, Bool, true, false, ◌&&◌, Option, none, some, List, [],
  if◌then◌else◌, ◌==◌, ltb, get_or, set, replicate,
}
use chod_os.Process.Handle.{HandleTable}
use chod_os.Process.Handle

pub data ProcessState : Type 0 where
  ready : ProcessState
  running : ProcessState
  blocked : ProcessState
  dead : ProcessState

pub data Priority : Type 0 where
  idle : Priority
  low : Priority
  normal : Priority
  high : Priority

-- `p as u8`, which also orders the priorities.
abbrev pub rank : Priority → ℕ
rank idle = 0
rank low = 1
rank normal = 2
rank high = 3

abbrev pub from_u8 : ℕ → Priority
from_u8 v = if v == 0 then idle else (if v == 1 then low else (if v == 3 then high else normal))

pub record Message : Type 0 where
  pub sender : ℕ
  pub len : ℕ
  pub payload : List ℕ
  pub fast_cap : ℕ

pub record Process : Type 0 where
  pub pid : ℕ
  pub state : ProcessState
  pub priority : Priority
  pub preempt_rsp : ℕ
  pub message_queue : List Message
  pub forced_preempts : ℕ
  pub voluntary_yields : ℕ
  pub boost_ticks : ℕ
  pub ready_since_tick : ℕ
  pub pending_sleep_ticks : ℕ
  pub wake_at_tick : ℕ
  pub vruntime : ℕ
  pub run_start_ts : ℕ
  pub reaped : Bool
  pub handle_table : HandleTable
  pub preferred_cpu : ℕ
  pub ipc_peer_pids : List ℕ
  pub ipc_peer_counts : List ℕ

-- `u8::MAX`, a process that may run on any core.
abbrev pub any_cpu : ℕ
any_cpu = 255

abbrev pub preempt_frame_bytes : ℕ
preempt_frame_bytes = (15 + 3) * 8

unfoldable pub new : ℕ → ℕ → Process
new pid stack_top = record {
  pid = pid;
  state = ready;
  priority = normal;
  preempt_rsp = stack_top - preempt_frame_bytes;
  message_queue = [];
  forced_preempts = 0;
  voluntary_yields = 0;
  boost_ticks = 0;
  ready_since_tick = 0;
  pending_sleep_ticks = 0;
  wake_at_tick = 0;
  vruntime = 0;
  run_start_ts = 0;
  reaped = false;
  handle_table = Handle.new;
  preferred_cpu = any_cpu;
  ipc_peer_pids = replicate 8 0;
  ipc_peer_counts = replicate 8 0;
}

unfoldable pub new_kernel_main : Process
unfolding new
new_kernel_main = record (new 0 0) { state = running; preempt_rsp = 0; preferred_cpu = 0 }

unfoldable pub reap : Process → Process
reap p = record p { message_queue = []; handle_table = Handle.new; reaped = true }

-- The slot from `i` on, among `left`, that counts messages to `to`.
pub find_peer : ℕ → ℕ → Process → ℕ → Option ℕ
find_peer zero i p to = none
find_peer (suc left) i p to =
    let later = find_peer left (i + 1) p to in
    if ltb 0 (get_or p.ipc_peer_counts i 0) && (get_or p.ipc_peer_pids i 0 == to)
    then some i
    else later

pub find_free : ℕ → ℕ → Process → Option ℕ
find_free zero i p = none
find_free (suc left) i p =
    let later = find_free left (i + 1) p in
    if get_or p.ipc_peer_counts i 0 == 0 then some i else later

pub min_slot : ℕ → ℕ → Process → ℕ → ℕ
min_slot zero i p best = best
min_slot (suc left) i p best =
    min_slot left (i + 1) p
      (if ltb (get_or p.ipc_peer_counts i 0) (get_or p.ipc_peer_counts best 0) then i else best)

abbrev first_message : Process → ℕ → ℕ → Process
first_message p i to = record p {
  ipc_peer_pids = set p.ipc_peer_pids i to;
  ipc_peer_counts = set p.ipc_peer_counts i 1;
}

unfoldable pub record_ipc_send : Process → ℕ → ℕ × Process
record_ipc_send p to = elim (find_peer 8 0 p to) [
  | some i ↦
      let count = min (get_or p.ipc_peer_counts i 0 + 1) (2 ^ 64 - 1) in
      (count, record p { ipc_peer_counts = set p.ipc_peer_counts i count })
  | none ↦ elim (find_free 8 0 p) [
    | some i ↦ (1, first_message p i to)
    | none ↦ (1, first_message p (min_slot 7 1 p 0) to)
  ]
]
