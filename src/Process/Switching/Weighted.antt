-- ===== src/Process/Switching/Weighted.antt =====
-- The default mode of process/scheduler.rs: whom it chooses, and what that means for a process that
-- has waited long.
use chod_os.Base.{
  ℕ, ◌-◌, ◌≤◌, ◌<◌, ◌≡◌, ◌≢◌, refl, sym, ap, ◌∙◌, max, Bool, true, false, List, arith, ltb, leb,
  length, length-map, get_or, map, inl, inr, ◌⊎◌, subst, Bool-cases, ℕ_discrete,
}
use chod_os.Process.Pcb.{Process, Priority, idle, low, normal, high, rank, new_kernel_main}
use chod_os.Process.Scheduler.{
  Scheduler, weighted_priority, Hardware, is_ready, is_cfs, effective_priority,
  fairness_floor_ticks, priority_weight,
}
use chod_os.Process.Switching.{switch_weighted, switch_to, switch_to_next, wake, same_cpu}
use chod_os.Process.Switching.Select.{score}
use chod_os.Process.Switching.Choice.{IsChoice, NoneReady, best_from_cases, rounds_to}

-- The table once the sleepers whose time has come are awake.
abbrev pub woken : Hardware → Scheduler → List Process
woken hw s = map (wake hw.tick) s.processes

-- What a switch to `next` returns and sets.
pub record SwitchedTo (hw : Hardware) (s : Scheduler) (next : ℕ) (out : ℕ × Scheduler)
    : Type 0 where
  pub rsp : out.0 ≡ (get_or (woken hw s) next new_kernel_main).preempt_rsp
  pub current : out.1.current ≡ next
  pub quanta :
      out.1.remaining_quanta
      ≡ max
          (priority_weight (effective_priority (get_or (woken hw s) next new_kernel_main) hw.tick))
          1

pub switch_to_next-weighted :
    (hw : Hardware) (s : Scheduler) (current_rsp : ℕ) (force_switch : Bool)
    → s.mode ≡ weighted_priority
    → 1 < length s.processes
    → (force_switch ≡ true) ⊎ (s.remaining_quanta ≤ 1)
    → switch_to_next hw s current_rsp force_switch
      ≡ switch_weighted hw (record s { processes = woken hw s }) current_rsp
unfolding switch_to_next
switch_to_next-weighted hw s current_rsp force_switch weighted several turn =
    let mode : is_cfs s.mode ≡ false = ap (λ m. is_cfs m) weighted in
    let many : leb (length s.processes) 1 ≡ false = ground arith in
    elim turn [
      | inl forced ↦ rw (many, mode, forced, switch_to_next) refl
      | inr spent ↦
          let over : ltb 1 s.remaining_quanta ≡ false = ground arith in
          elim (Bool-cases force_switch) [
            | inl forced ↦ rw (many, mode, forced, switch_to_next) refl
            | inr free ↦ rw (many, mode, free, over, switch_to_next) refl
          ]
    ]

-- In the weighted mode, with at least two processes in the table, a switch that is forced or comes at the
-- end of a turn goes to the first process of the highest score, the effective priority and then the fit
-- to the core, that a turn around the table meets; its stack pointer is returned and its turn lasts as
-- its priority says. Only where no process is ready does the current one go on, on its own stack and for
-- one turn.
pub switch_to_next_lem :
    (hw : Hardware) (s : Scheduler) (current_rsp : ℕ) (force_switch : Bool)
    → s.mode ≡ weighted_priority
    → s.current < length s.processes
    → 1 < length s.processes
    → (force_switch ≡ true) ⊎ (s.remaining_quanta ≤ 1)
    → let out = switch_to_next hw s current_rsp force_switch in
      (NoneReady (woken hw s)
        × (out.0 ≡ current_rsp)
        × (out.1.current ≡ s.current)
        × (out.1.remaining_quanta ≡ 1))
      ⊎ ((next : ℕ) × IsChoice hw.tick hw.cpu (woken hw s) s.current next
          × SwitchedTo hw s next out)
unfolding switch_weighted switch_to
switch_to_next_lem hw s current_rsp force_switch weighted inside several turn =
    let same_length = length-map (wake hw.tick) s.processes in
    rw (switch_to_next-weighted hw s current_rsp force_switch weighted several turn)
      (elim (best_from_cases hw.tick hw.cpu (woken hw s) s.current (omega (arith, same_length))) [
        | inl (e, none_ready) ↦ rw (e, switch_weighted) (inl (none_ready, refl, refl, refl))
        | inr (b, e, choice) ↦
            rw (e, switch_weighted)
              (inr (b.idx, choice, record { rsp = refl; current = refl; quanta = refl }))
      ])

rank-bound : (p : Priority) → rank p ≤ 3
rank-bound idle = omega arith
rank-bound low = omega arith
rank-bound normal = omega arith
rank-bound high = omega arith

effective_priority-floor :
    (p : Process) (now : ℕ)
    → rank p.priority ≢ 0
    → fairness_floor_ticks ≤ now - p.ready_since_tick
    → effective_priority p now ≡ high
unfolding effective_priority
effective_priority-floor p now busy waited = ground arith

score-bound : (now cpu : ℕ) (p : Process) → score now cpu p ≤ 7
score-bound now cpu p = ground (arith, rank-bound (effective_priority p now))

shorter :
    (n start next j : ℕ)
    → start < n
    → next < n
    → j < n
    → next ≢ j
    → rounds_to n start next ≤ rounds_to n start j
    → rounds_to n next j < rounds_to n start j
shorter n start next j p q r apart before = ground arith

-- In the weighted mode, a process that is ready, suits the core, is not idle and has waited for 200
-- ticks is next, or comes nearer: a switch that is forced or comes at the end of a turn goes to it or to
-- a process after which fewer rounds of the turn around the table are left until it.
pub switch_to_next-starved :
    (hw : Hardware) (s : Scheduler) (current_rsp : ℕ) (force_switch : Bool) (j : ℕ)
    → s.mode ≡ weighted_priority
    → s.current < length s.processes
    → 1 < length s.processes
    → (force_switch ≡ true) ⊎ (s.remaining_quanta ≤ 1)
    → j < length s.processes
    → let p = get_or (woken hw s) j new_kernel_main in
      is_ready p ≡ true
      → same_cpu hw.cpu p ≡ true
      → rank p.priority ≢ 0
      → fairness_floor_ticks ≤ hw.tick - p.ready_since_tick
      → let next = (switch_to_next hw s current_rsp force_switch).1.current in
        (next ≡ j)
        ⊎ (rounds_to (length s.processes) next j < rounds_to (length s.processes) s.current j)
switch_to_next-starved hw s current_rsp force_switch j weighted inside several turn within is suits
      busy waited =
    elim (switch_to_next_lem hw s current_rsp force_switch weighted inside several turn) [
      | inl (none_ready, _, _, _) ↦
          absurd (clash (sym is ∙ none_ready j (omega (arith, same_length))))
      | inr (next, choice, out) ↦ elim (ℕ_discrete next j) [
        | yes here ↦ inl (out.current ∙ here)
        | no apart ↦ inr (
            let top : score hw.tick hw.cpu p ≡ 7 =
              ground
                (arith, suits, ap (λ q. rank q) (effective_priority-floor p hw.tick busy waited)) in
            let same : score hw.tick hw.cpu p
                ≡ score hw.tick hw.cpu (get_or (woken hw s) next new_kernel_main) =
              omega (
                arith,
                top,
                score-bound hw.tick hw.cpu (get_or (woken hw s) next new_kernel_main),
                choice.best j (omega (arith, same_length)) is,
              ) in
            let before = choice.first j (omega (arith, same_length)) is same in
            nearer next (omega (arith, choice.within, same_length)) apart
              (subst (λ n. rounds_to n s.current next ≤ rounds_to n s.current j) same_length before)
              out.current)
      ]
    ]
  where
    p : Process
    p = get_or (woken hw s) j new_kernel_main

    nearer :
        (next : ℕ)
        → next < length s.processes
        → next ≢ j
        → rounds_to (length s.processes) s.current next ≤ rounds_to (length s.processes) s.current j
        → (switch_to_next hw s current_rsp force_switch).1.current ≡ next
        → rounds_to (length s.processes) (switch_to_next hw s current_rsp force_switch).1.current j
          < rounds_to (length s.processes) s.current j
    nearer next p apart before e =
        subst (λ k. rounds_to (length s.processes) k j < rounds_to (length s.processes) s.current j)
          (sym e) (shorter (length s.processes) s.current next j inside p within apart before)

    clash : true ≡ false → ⊥
    clash e = ground (arith, e)

    same_length : length (woken hw s) ≡ length s.processes
    same_length = length-map (wake hw.tick) s.processes
