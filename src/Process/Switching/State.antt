-- ===== src/Process/Switching/State.antt =====
-- The states of the processes of process/scheduler.rs across a switch.
use chod_os.Base.{
  ℕ, zero, suc, ◌+◌, ◌-◌, ◌%◌, ◌<◌, ◌≡◌, refl, ap, ◌∙◌, Bool, true, false, not, ◌&&◌, Option, none,
  some, List, arith, ◌==◌, ltb, leb, length, length-map, length-set, get_or, get_or-set_self,
  get_or-set_ne, get_or-map, set, map, inl, inr, Bool-cases, ℕ_discrete,
}
use native.Mathlib.Nat.{mod-lt}
use chod_os.Process.Pcb.{Process, running, dead, new_kernel_main}
use chod_os.Process.Scheduler.{Scheduler, Hardware, is_ready, is_cfs, at}
use chod_os.Process.Switching.{
  Least, least_from, same_cpu, is_less, consider_cfs, consider_boost, or_best, switch_weighted,
  switch_to_next_cfs, switch_to, switch_to_next, wake, run_current, stopped, do_preempt, preempt,
  exit_current,
}
use chod_os.Process.Switching.Choice.{best_from_cases}

abbrev pub is_running : Process → Bool
is_running p = elim p.state [ running ↦ true | _ ↦ false ]

abbrev pub proc : List Process → ℕ → Process
proc ps i = get_or ps i new_kernel_main

-- The current process runs, and no other.
pub record RunsOne (ps : List Process) (current : ℕ) : Type 0 where
  pub inside : current < length ps
  pub one : (j : ℕ) → j < length ps → is_running (proc ps j) ≡ (j == current)

record RunsNone (ps : List Process) : Type 0 where
  still : (j : ℕ) → j < length ps → is_running (proc ps j) ≡ false

set-RunsOne :
    (ps : List Process) (i : ℕ) (p : Process)
    → RunsNone ps
    → i < length ps
    → is_running p ≡ true
    → RunsOne (set ps i p) i
set-RunsOne ps i p quiet within runs = record {
  inside = omega (arith, length-set ps i p);
  one = λ j q. elim (ℕ_discrete i j) [
    | yes here ↦ ground (
      arith,
      runs,
      get_or-set_self ps i p new_kernel_main within,
      ap (λ k. is_running (proc (set ps i p) k)) here,
    )
    | no apart ↦ ground (
      arith,
      get_or-set_ne ps i j p new_kernel_main apart,
      quiet.still j (omega (arith, length-set ps i p)),
    )
  ];
}

wake-running : (now : ℕ) (p : Process) → is_running (wake now p) ≡ is_running p
wake-running now p = ground arith

woken-RunsNone : (now : ℕ) (ps : List Process) → RunsNone ps → RunsNone (map (wake now) ps)
woken-RunsNone now ps quiet = record {
  still = λ j q.
      let within : j < length ps = omega (arith, length-map (wake now) ps) in
      ap is_running (get_or-map (wake now) ps j new_kernel_main new_kernel_main within)
      ∙ wake-running now (proc ps j)
      ∙ quiet.still j within;
}

abbrev EndsWell : ℕ × Scheduler → Type 0
EndsWell out = RunsOne out.1.processes out.1.current

weighted-RunsOne :
    (hw : Hardware) (s : Scheduler) (rsp : ℕ)
    → RunsNone s.processes
    → s.current < length s.processes
    → EndsWell (switch_weighted hw s rsp)
unfolding switch_weighted switch_to
weighted-RunsOne hw s rsp quiet within =
    elim (best_from_cases hw.tick hw.cpu s.processes s.current within) [
      | inl (e, _) ↦ rw (e, switch_weighted) (set-RunsOne s.processes s.current _ quiet within refl)
      | inr (b, e, choice) ↦
          rw (e, switch_weighted) (set-RunsOne s.processes b.idx _ quiet choice.within refl)
    ]

-- The choice of the other mode stays inside the table.
abbrev Inside : ℕ → Option ℕ → Type 0
Inside n none = Unit
Inside n (some i) = i < n

abbrev LeastInside : ℕ → Option Least → Type 0
LeastInside n none = Unit
LeastInside n (some b) = b.idx < n

boost-Inside :
    (n idx : ℕ) (p : Process) (boosted : Option ℕ)
    → idx < n
    → Inside n boosted
    → Inside n (consider_boost idx p boosted)
boost-Inside n idx p (some i) h inside = inside
boost-Inside n idx p none h inside = elim (Bool-cases (is_ready p && ltb 0 p.boost_ticks)) [
  | inl yes_there ↦ rw (yes_there, consider_boost) h
  | inr not_there ↦ rw (not_there, consider_boost) tt
]

abbrev least_of : ℕ → ℕ → Process → Least
least_of cpu idx p = record { idx = idx; vruntime = p.vruntime; suits = same_cpu cpu p }

cfs-LeastInside :
    (n cpu idx : ℕ) (p : Process) (best : Option Least)
    → idx < n
    → LeastInside n best
    → LeastInside n (consider_cfs cpu idx p best)
cfs-LeastInside n cpu idx p best h inside =
    elim (Bool-cases (is_ready p && is_less best (least_of cpu idx p))) [
      | inl taken ↦ rw (taken, consider_cfs) h
      | inr kept ↦ rw (kept, consider_cfs) inside
    ]

or_best-Inside :
    (n : ℕ) (boosted : Option ℕ) (best : Option Least)
    → Inside n boosted
    → LeastInside n best
    → Inside n (or_best boosted best)
or_best-Inside n (some i) best p q = p
or_best-Inside n none none p q = tt
or_best-Inside n none (some b) p q = q

least_from-Inside :
    (cpu : ℕ) (ps : List Process) (start left : ℕ) (boosted : Option ℕ) (best : Option Least)
    → 0 < length ps
    → Inside (length ps) boosted
    → LeastInside (length ps) best
    → let (boosted', best') = least_from cpu ps start left boosted best in
      Inside (length ps) (or_best boosted' best')
unfolding least_from
least_from-Inside cpu ps start zero boosted best some_there p q =
    or_best-Inside (length ps) boosted best p q
least_from-Inside cpu ps start (suc left) boosted best some_there p q =
    let idx = (start + (length ps - left)) % length ps in
    let here = mod-lt (start + (length ps - left)) some_there in
    least_from-Inside cpu ps start left (consider_boost idx (proc ps idx) boosted)
      (consider_cfs cpu idx (proc ps idx) best) some_there
      (boost-Inside (length ps) idx (proc ps idx) boosted here p)
      (cfs-LeastInside (length ps) cpu idx (proc ps idx) best here q)

abbrev scanned : Hardware → Scheduler → Option ℕ × Option Least
scanned hw s = least_from hw.cpu s.processes s.current (length s.processes) none none

cfs-RunsOne :
    (hw : Hardware) (s : Scheduler) (rsp : ℕ)
    → RunsNone s.processes
    → s.current < length s.processes
    → EndsWell (switch_to_next_cfs hw s rsp)
unfolding switch_to_next_cfs switch_to
cfs-RunsOne hw s rsp quiet within = go (or_best (scanned hw s).0 (scanned hw s).1) refl (
    least_from-Inside hw.cpu s.processes s.current (length s.processes) none none (omega arith) tt
      tt)
  where
    go :
        (next : Option ℕ)
        → or_best (scanned hw s).0 (scanned hw s).1 ≡ next
        → Inside (length s.processes) next
        → EndsWell (switch_to_next_cfs hw s rsp)
    go none e _ = rw (e, switch_to_next_cfs) (set-RunsOne s.processes s.current _ quiet within refl)
    go (some next) e inside =
        rw (e, switch_to_next_cfs) (set-RunsOne s.processes next _ quiet inside refl)

abbrev awake : Hardware → Scheduler → Scheduler
awake hw s = record s { processes = map (wake hw.tick) s.processes }

switch_to_next-RunsOne :
    (hw : Hardware) (s : Scheduler) (rsp : ℕ) (force_switch : Bool)
    → RunsNone s.processes
    → s.current < length s.processes
    → EndsWell (switch_to_next hw s rsp force_switch)
unfolding switch_to_next
switch_to_next-RunsOne hw s rsp force_switch quiet within =
    elim (Bool-cases (leb (length s.processes) 1)) [
      | inl alone ↦ rw (alone, switch_to_next) stays
      | inr several ↦
          elim (Bool-cases (not (is_cfs s.mode) && not force_switch && ltb 1 s.remaining_quanta)) [
            | inl goes_on ↦ rw (several, goes_on, switch_to_next) stays
            | inr over ↦ elim (Bool-cases (is_cfs s.mode)) [
              | inl fair ↦
                  rw (several, over, fair, switch_to_next)
                    (cfs-RunsOne hw (awake hw s) rsp quiet' within')
              | inr weighted ↦
                  rw (several, over, weighted, switch_to_next)
                    (weighted-RunsOne hw (awake hw s) rsp quiet' within')
            ]
          ]
    ]
  where
    quiet' : RunsNone (map (wake hw.tick) s.processes)
    quiet' = woken-RunsNone hw.tick s.processes quiet

    within' : s.current < length (map (wake hw.tick) s.processes)
    within' = omega (arith, within, length-map (wake hw.tick) s.processes)

    stays : RunsOne (run_current (awake hw s)).processes s.current
    stays = set-RunsOne (awake hw s).processes s.current _ quiet' within' refl

-- A process that leaves the core is set aside, so that none runs until the next is chosen.
set-RunsNone :
    (ps : List Process) (i : ℕ) (p : Process)
    → RunsOne ps i
    → is_running p ≡ false
    → RunsNone (set ps i p)
set-RunsNone ps i p runs stopped = record {
  still = λ j q. elim (ℕ_discrete i j) [
    | yes here ↦ ground (
      arith,
      stopped,
      get_or-set_self ps i p new_kernel_main runs.inside,
      ap (λ k. is_running (proc (set ps i p) k)) here,
    )
    | no apart ↦ ground (
      arith,
      get_or-set_ne ps i j p new_kernel_main apart,
      runs.one j (omega (arith, length-set ps i p)),
    )
  ];
}

stopped-running :
    (hw : Hardware) (cfs_mode : Bool) (rsp : ℕ) (is_voluntary : Bool) (p : Process)
    → is_running (stopped hw cfs_mode rsp is_voluntary p) ≡ false
unfolding stopped
stopped-running hw cfs_mode rsp is_voluntary p = ground arith

-- In both modes, a preemption, a yield and an exit lead from a table in which exactly the current process
-- runs to such a table again: the process that comes out as the current one is inside the table, it
-- runs, and no other does.
pub preempt-RunsOne :
    (hw : Hardware) (s : Scheduler) (current_rsp : ℕ) (is_voluntary : Bool)
    → RunsOne s.processes s.current
    → let s' = (preempt hw s current_rsp is_voluntary).1 in
      let s'' = (exit_current hw s current_rsp).1 in
      RunsOne s'.processes s'.current × RunsOne s''.processes s''.current
unfolding preempt do_preempt exit_current
preempt-RunsOne hw s rsp is_voluntary runs =
    let p = stopped hw (is_cfs s.mode) rsp is_voluntary (at s s.current) in
    let q = record (at s s.current) { state = dead; preempt_rsp = rsp } in
    (
      switch_to_next-RunsOne hw _ rsp is_voluntary
          (set-RunsNone s.processes s.current p runs
            (stopped-running hw (is_cfs s.mode) rsp is_voluntary (at s s.current)))
          (omega (arith, runs.inside, length-set s.processes s.current p)),
      switch_to_next-RunsOne hw _ rsp true (set-RunsNone s.processes s.current q runs refl)
          (omega (arith, runs.inside, length-set s.processes s.current q)),
    )
