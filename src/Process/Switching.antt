-- ===== src/Process/Switching.antt =====
-- The context switch of process/scheduler.rs: the choice of the next process under both modes, the
-- calls that give up the core, and the messages that pass through the scheduler.
pub mod Select
pub mod Choice
pub mod Weighted
pub mod State
pub mod Messages
pub mod Sleep
pub mod Tests
use chod_os.Base.{
  ℕ, zero, suc, ◌+◌, ◌-◌, ◌*◌, ◌/◌, ◌%◌, ◌^◌, min, max, Bool, true, false, not, ◌&&◌, ◌||◌, Option,
  none, some, List, [], ◌∷◌, ◌++◌, if◌then◌else◌, ◌==◌, ltb, leb, length, get_elem?, get_or, set,
  map,
}
use chod_os.Base.Words.{u64}
use chod_os.Process.Pcb.{
  Process, ProcessState, Priority, Message, ready, running, blocked, dead, idle, low, normal, high,
  rank, from_u8, any_cpu, record_ipc_send, reap, new_kernel_main,
}
use chod_os.Process.Scheduler.{
  request_sleep, Scheduler, Hardware, PolicyCall, observe_ipc, on_switch, unregister_pid, is_ready,
  is_blocked, at, put, find_pid, update_first, effective_priority, priority_weight, cfs_weight,
  nice0_weight, is_cfs,
}

abbrev pub wake : ℕ → Process → Process
wake now p =
    if is_blocked p && not (p.wake_at_tick == 0) && leb p.wake_at_tick now
    then record p { state = ready; wake_at_tick = 0; ready_since_tick = now }
    else p

abbrev pub same_cpu : ℕ → Process → Bool
same_cpu cpu p = (p.preferred_cpu == any_cpu) || (p.preferred_cpu == cpu)

-- The best candidate so far: its index, its effective priority and whether it suits the core.
pub record Best : Type 0 where
  pub idx : ℕ
  pub pri : Priority
  pub suits : Bool

abbrev pub is_better : Option Best → Best → Bool
is_better none b = true
is_better (some best) b =
    ltb (rank best.pri) (rank b.pri) || ((rank b.pri == rank best.pri) && b.suits && not best.suits)

abbrev pub consider : ℕ → ℕ → ℕ → Process → Option Best → Option Best
consider now cpu idx p best =
    let b : Best = record { idx = idx; pri = effective_priority p now; suits = same_cpu cpu p } in
    if is_ready p && is_better best b then some b else best

-- The `left` last rounds of the loop over the indices from behind `start` around to `start`.
unfoldable pub best_from : ℕ → ℕ → List Process → ℕ → ℕ → Option Best → Option Best
best_from now cpu ps start zero best = best
best_from now cpu ps start (suc left) best =
    let idx = (start + (length ps - left)) % length ps in
    best_from now cpu ps start left (consider now cpu idx (get_or ps idx new_kernel_main) best)

abbrev pub run_current : Scheduler → Scheduler
run_current s = put s s.current (record (at s s.current) { state = running })

unfoldable pub switch_to : Hardware → Scheduler → ℕ → ℕ × Scheduler
switch_to hw s next =
    let p = at s next in
    (
      p.preempt_rsp,
      record (put s next (record p { state = running; run_start_ts = hw.start_ts })) {
        current = next;
      },
    )

unfoldable pub switch_weighted : Hardware → Scheduler → ℕ → ℕ × Scheduler
switch_weighted hw s current_rsp =
    elim (best_from hw.tick hw.cpu s.processes s.current (length s.processes) none) [
      | none ↦ (current_rsp, record (run_current s) { remaining_quanta = 1 })
      | some best ↦
          let epri = effective_priority (at s best.idx) hw.tick in
          switch_to hw (record s { remaining_quanta = max (priority_weight epri) 1 }) best.idx
    ]

-- The best candidate of the other mode.
pub record Least : Type 0 where
  pub idx : ℕ
  pub vruntime : ℕ
  pub suits : Bool

abbrev pub is_less : Option Least → Least → Bool
is_less none b = true
is_less (some best) b =
    ltb b.vruntime best.vruntime || ((b.vruntime == best.vruntime) && b.suits && not best.suits)

abbrev pub consider_cfs : ℕ → ℕ → Process → Option Least → Option Least
consider_cfs cpu idx p best =
    let b : Least = record { idx = idx; vruntime = p.vruntime; suits = same_cpu cpu p } in
    if is_ready p && is_less best b then some b else best

abbrev pub consider_boost : ℕ → Process → Option ℕ → Option ℕ
consider_boost idx p (some i) = some i
consider_boost idx p none = if is_ready p && ltb 0 p.boost_ticks then some idx else none

pub least_from : ℕ → List Process → ℕ → ℕ → Option ℕ → Option Least → Option ℕ × Option Least
least_from cpu ps start zero boosted best = (boosted, best)
least_from cpu ps start (suc left) boosted best =
    let idx = (start + (length ps - left)) % length ps in
    let p = get_or ps idx new_kernel_main in
    least_from cpu ps start left (consider_boost idx p boosted) (consider_cfs cpu idx p best)

-- `boost_idx.or(best_idx)`
abbrev pub or_best : Option ℕ → Option Least → Option ℕ
or_best (some i) best = some i
or_best none none = none
or_best none (some best) = some best.idx

unfoldable pub switch_to_next_cfs : Hardware → Scheduler → ℕ → ℕ × Scheduler
switch_to_next_cfs hw s current_rsp =
    let (boosted, best) = least_from hw.cpu s.processes s.current (length s.processes) none none in
    elim (or_best boosted best) [
      | none ↦ (current_rsp, run_current s)
      | some next ↦ switch_to hw s next
    ]

unfoldable pub switch_to_next : Hardware → Scheduler → ℕ → Bool → ℕ × Scheduler
switch_to_next hw s current_rsp force_switch =
    let woken : Scheduler = record s { processes = map (wake hw.tick) s.processes } in
    if leb (length s.processes) 1
    then (current_rsp, run_current woken)
    else (if not (is_cfs s.mode) && not force_switch && ltb 1 s.remaining_quanta
        then (current_rsp, record (run_current woken) { remaining_quanta = s.remaining_quanta - 1 })
        else (if is_cfs s.mode
            then switch_to_next_cfs hw woken current_rsp
            else switch_weighted hw woken current_rsp))

-- What `do_preempt` does to the process that gives up the core, before the next one is chosen.
unfoldable pub charge : Hardware → Process → ℕ
charge hw p =
    let elapsed = hw.stop_ts - p.run_start_ts in
    let w = max (cfs_weight (effective_priority p hw.tick)) 1 in
    min (p.vruntime + min (elapsed * nice0_weight) (2 ^ 64 - 1) / w) (2 ^ 64 - 1)

unfoldable pub stopped : Hardware → Bool → ℕ → Bool → Process → Process
stopped hw cfs_mode current_rsp is_voluntary p =
    let counted : Process =
      if is_voluntary
      then record p { voluntary_yields = u64 (p.voluntary_yields + 1) }
      else record p { forced_preempts = u64 (p.forced_preempts + 1) } in
    let saved : Process = record counted {
      boost_ticks = p.boost_ticks - 1;
      preempt_rsp = current_rsp;
    } in
    let charged : Process =
      if cfs_mode then record saved { vruntime = charge hw saved } else saved in
    if ltb 0 p.pending_sleep_ticks
    then record charged {
      pending_sleep_ticks = 0;
      state = blocked;
      wake_at_tick = u64 (hw.tick + p.pending_sleep_ticks);
    }
    else record charged { state = ready; ready_since_tick = hw.tick }

-- The stack pointer to go on with, and the processes before and after.
unfoldable pub do_preempt : Hardware → Scheduler → ℕ → Bool → (ℕ × ℕ × ℕ) × Scheduler
do_preempt hw s current_rsp is_voluntary =
    let from_pid = (at s s.current).pid in
    let left =
      put s s.current (stopped hw (is_cfs s.mode) current_rsp is_voluntary (at s s.current)) in
    let (new_rsp, s') =
      switch_to_next hw (record left { switch_count = u64 (s.switch_count + 1) }) current_rsp
        is_voluntary in
    ((new_rsp, from_pid, (at s' s'.current).pid), s')

-- `preempt` and `voluntary_preempt`
unfoldable pub preempt : Hardware → Scheduler → ℕ → Bool → ℕ × Scheduler
preempt hw s current_rsp is_voluntary =
    let ((new_rsp, from_pid, to_pid), s') = do_preempt hw s current_rsp is_voluntary in
    (new_rsp, record s' { policy_calls = on_switch from_pid to_pid hw.tick ∷ s'.policy_calls })

-- `yield_now` comes in at `voluntary_preempt` with the stack pointer of the caller.
unfoldable pub sleep_ticks : Hardware → Scheduler → ℕ → ℕ → ℕ × Scheduler
sleep_ticks hw s current_rsp ticks =
    if ticks == 0 then (current_rsp, s) else preempt hw (request_sleep s ticks) current_rsp true

unfoldable pub exit_current : Hardware → Scheduler → ℕ → ℕ × Scheduler
exit_current hw s current_rsp =
    let p = at s s.current in
    switch_to_next hw
      (record (put s s.current (record p { state = dead; preempt_rsp = current_rsp })) {
        remaining_quanta = 0;
        policy_calls = unregister_pid p.pid ∷ s.policy_calls;
      })
      current_rsp true

unfoldable pub recv_message : Scheduler → Option Message × Scheduler
recv_message s = elim (at s s.current).message_queue [
  | [] ↦ (none, s)
  | m ∷ ms ↦ (some m, put s s.current (record (at s s.current) { message_queue = ms }))
]

unfoldable pub send_message : Scheduler → ℕ → Message → Bool × Scheduler
send_message s to msg =
    let p = at s s.current in
    let (count, p') = record_ipc_send p to in
    let counted : Scheduler = record (put s s.current p') {
      policy_calls = observe_ipc p.pid to count msg.len ∷ s.policy_calls;
    } in
    elim (find_pid counted.processes to) [
      | none ↦ (false, counted)
      | some q ↦ (
        true,
        record counted {
          processes =
              update_first
                (λ (r : Process). record r { message_queue = r.message_queue ++ (msg ∷ []) })
                counted.processes to;
        },
      )
    ]
