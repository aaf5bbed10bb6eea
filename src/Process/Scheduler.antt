-- ===== src/Process/Scheduler.antt =====
-- process/scheduler.rs. The statics beside the scheduler, its mode and its count of switches, are fields
-- of the state, and so is the list of calls to the policy engine, the latest first; what the code
-- reads from the hardware is a record.
use chod_os.Base.{
  ℕ, ◌+◌, ◌-◌, min, max, Bool, true, false, not, ◌&&◌, Option, none, some, List, [], ◌∷◌, ◌++◌,
  if◌then◌else◌, ◌==◌, ltb, leb, get_or, set, map,
}
use chod_os.Process.Pcb.{
  Process, Priority, ready, blocked, dead, idle, low, normal, high, rank, from_u8, reap,
  new_kernel_main,
}
use chod_os.Base.Words.{u64}

abbrev pub priority_weight : Priority → ℕ
priority_weight high = 4
priority_weight normal = 2
priority_weight low = 1
priority_weight idle = 0

abbrev pub starvation_threshold : Priority → Option ℕ
starvation_threshold low = some 72
starvation_threshold normal = some 36
starvation_threshold high = none
starvation_threshold idle = none

abbrev pub fairness_floor_ticks : ℕ
fairness_floor_ticks = 200

-- `now - p.ready_since_tick` of the code stops at 0.
unfoldable pub effective_priority : Process → ℕ → Priority
effective_priority p now =
    let wait = now - p.ready_since_tick in
    let aged : Priority = elim (starvation_threshold p.priority) [
      | some threshold ↦ if leb threshold wait then from_u8 (rank p.priority + 1) else p.priority
      | none ↦ p.priority
    ] in
    if ltb 0 p.boost_ticks
    then high
    else (if not (rank p.priority == 0) && leb fairness_floor_ticks wait then high else aged)

pub data SchedMode : Type 0 where
  weighted_priority : SchedMode
  cfs : SchedMode

abbrev pub is_cfs : SchedMode → Bool
is_cfs weighted_priority = false
is_cfs cfs = true

abbrev pub nice0_weight : ℕ
nice0_weight = 1024

abbrev pub cfs_weight : Priority → ℕ
cfs_weight high = 88761
cfs_weight normal = 1024
cfs_weight low = 335
cfs_weight idle = 15

pub data PolicyCall : Type 0 where
  register_pid : ℕ → PolicyCall
  unregister_pid : ℕ → PolicyCall
  observe_ipc : ℕ → ℕ → ℕ → ℕ → PolicyCall
  on_switch : ℕ → ℕ → ℕ → PolicyCall

pub record Scheduler : Type 0 where
  pub processes : List Process
  pub current : ℕ
  pub next_pid : ℕ
  pub remaining_quanta : ℕ
  pub mode : SchedMode
  pub switch_count : ℕ
  pub policy_calls : List PolicyCall

-- The clock in ticks, the cycle counter when a process stops and when the next one starts, and the
-- number of the core.
pub record Hardware : Type 0 where
  pub tick : ℕ
  pub stop_ts : ℕ
  pub start_ts : ℕ
  pub cpu : ℕ

abbrev pub is_ready : Process → Bool
is_ready p = elim p.state [ ready ↦ true | _ ↦ false ]

abbrev pub is_blocked : Process → Bool
is_blocked p = elim p.state [ blocked ↦ true | _ ↦ false ]

abbrev pub is_dead : Process → Bool
is_dead p = elim p.state [ dead ↦ true | _ ↦ false ]

-- The process at an index, which the callers keep within bounds.
abbrev pub at : Scheduler → ℕ → Process
at s i = get_or s.processes i new_kernel_main

abbrev pub put : Scheduler → ℕ → Process → Scheduler
put s i p = record s { processes = set s.processes i p }

-- `for p in processes { if p.pid == pid { …; return } }`
unfoldable pub update_first : (Process → Process) → List Process → ℕ → List Process
update_first f [] pid = []
update_first f (p ∷ ps) pid =
    let later = p ∷ update_first f ps pid in if p.pid == pid then f p ∷ ps else later

unfoldable pub find_pid : List Process → ℕ → Option Process
find_pid [] pid = none
find_pid (p ∷ ps) pid = let later = find_pid ps pid in if p.pid == pid then some p else later

unfoldable pub init : Scheduler
init = record {
  processes = new_kernel_main ∷ [];
  current = 0;
  next_pid = 1;
  remaining_quanta = 1;
  mode = weighted_priority;
  switch_count = 0;
  policy_calls = register_pid 0 ∷ [];
}

unfoldable pub rebase_vruntime : Scheduler → Scheduler
rebase_vruntime s = record s {
  processes = map (λ (p : Process). record p { vruntime = 0 }) s.processes;
}

unfoldable pub set_mode : Scheduler → SchedMode → Scheduler
unfolding rebase_vruntime
set_mode s m = if is_cfs m then rebase_vruntime (record s { mode = m }) else record s { mode = m }

unfoldable pub alloc_pid : Scheduler → ℕ × Scheduler
alloc_pid s = (s.next_pid, record s { next_pid = u64 (s.next_pid + 1) })

unfoldable pub current_pid : Scheduler → ℕ
current_pid s = (at s s.current).pid

-- The least `vruntime` of the ready processes.
pub min_vruntime : List Process → Option ℕ
min_vruntime [] = none
min_vruntime (p ∷ ps) =
    let later = min_vruntime ps in
    if is_ready p
    then elim later [ none ↦ some p.vruntime | some v ↦ some (min p.vruntime v) ]
    else later

unfoldable pub spawn : Scheduler → Process → Scheduler
spawn s p =
    let placed : Process = elim (min_vruntime s.processes) [
      | none ↦ p
      | some v ↦ record p { vruntime = v }
    ] in
    let started : Process = if is_cfs s.mode then placed else p in
    record s {
      processes = s.processes ++ (started ∷ []);
      policy_calls = register_pid p.pid ∷ s.policy_calls;
    }

unfoldable pub kill : Scheduler → ℕ → Scheduler
kill s pid = record s {
  processes = update_first (λ (p : Process). record p { state = dead }) s.processes pid;
  policy_calls = unregister_pid pid ∷ s.policy_calls;
}

-- `i` is the index of the first of the processes.
pub reap_from : ℕ → ℕ → List Process → List Process
reap_from keep i [] = []
reap_from keep i (p ∷ ps) =
    (if not (i == keep) && is_dead p && not p.reaped then reap p else p) ∷ reap_from keep (i + 1) ps

unfoldable pub reap_dead : Scheduler → Scheduler
reap_dead s = record s { processes = reap_from s.current 0 s.processes }

abbrev pub boost : Process → ℕ → Process
boost p ticks =
    if rank p.priority == 0 then p else record p { boost_ticks = max p.boost_ticks ticks }

unfoldable pub keyboard_boost : Scheduler → Scheduler
keyboard_boost s = put s s.current (boost (at s s.current) 8)

unfoldable pub boost_pid : Scheduler → ℕ → ℕ → Scheduler
boost_pid s pid ticks = record s {
  processes = update_first (λ (p : Process). boost p ticks) s.processes pid;
}

unfoldable pub set_priority : Scheduler → ℕ → Priority → Scheduler
set_priority s pid pri = record s {
  processes = update_first (λ (p : Process). record p { priority = pri }) s.processes pid;
}

unfoldable pub get_priority : Scheduler → ℕ → Priority
get_priority s pid = elim (find_pid s.processes pid) [ none ↦ normal | some p ↦ p.priority ]

unfoldable pub request_sleep : Scheduler → ℕ → Scheduler
request_sleep s ticks =
    put s s.current (record (at s s.current) { pending_sleep_ticks = max ticks 1 })

unfoldable pub set_preferred_cpu : Scheduler → ℕ → ℕ → Scheduler
set_preferred_cpu s pid cpu = record s {
  processes = update_first (λ (p : Process). record p { preferred_cpu = cpu }) s.processes pid;
}
