-- ===== src/Process/Switching/Sleep.antt =====
-- Sleeping processes of process/scheduler.rs.
use chod_os.Base.{
  ℕ, ◌+◌, ◌^◌, ◌<◌, ◌≡◌, ◌≢◌, refl, sym, ap, ◌∙◌, max, Bool, true, false, List, arith, length,
  length-map, length-set, get_or, get_or-map, get_or-set_self, get_or-set_ne, inl, inr, ◌⊎◌,
  ℕ_discrete, ◌==◌,
}
use chod_os.Base.Words.{u64}
use chod_os.Process.Pcb.{Process, new_kernel_main}
use chod_os.Process.Scheduler.{
  Scheduler, weighted_priority, Hardware, is_ready, is_blocked, is_cfs, at, put, request_sleep,
}
use chod_os.Process.Switching.{
  switch_weighted, switch_to, switch_to_next, wake, stopped, do_preempt, preempt, sleep_ticks,
}
use chod_os.Process.Switching.Choice.{best_from_cases}
use chod_os.Process.Switching.Weighted.{woken, switch_to_next-weighted}

abbrev proc : List Process → ℕ → Process
proc ps i = get_or ps i new_kernel_main

clash : true ≡ false → ⊥
clash e = ground (arith, e)

-- What a forced switch in the weighted mode makes of the table, where some process is ready.
switched :
    (hw : Hardware) (s : Scheduler) (rsp j : ℕ)
    → s.mode ≡ weighted_priority
    → s.current < length s.processes
    → 1 < length s.processes
    → j < length s.processes
    → is_ready (proc (woken hw s) j) ≡ true
    → let s' = (switch_to_next hw s rsp true).1 in
      (is_ready (proc (woken hw s) s'.current) ≡ true)
      × ((i : ℕ) → i ≢ s'.current → proc s'.processes i ≡ proc (woken hw s) i)
unfolding switch_weighted switch_to
switched hw s rsp j weighted inside several within is =
    let same_length = length-map (wake hw.tick) s.processes in
    rw (switch_to_next-weighted hw s rsp true weighted several (inl refl))
      (elim (best_from_cases hw.tick hw.cpu (woken hw s) s.current (omega (arith, same_length))) [
        | inl (e, none_ready) ↦
            absurd (ground (arith, is, none_ready j (omega (arith, same_length))))
        | inr (b, e, choice) ↦
            rw (e, switch_weighted)
              (
                choice.is,
                λ i apart.
                    get_or-set_ne (woken hw s) b.idx i _ new_kernel_main (λ q. apart (sym q)),
              )
      ])

stopped-sleep :
    (hw : Hardware) (cfs_mode : Bool) (rsp : ℕ) (p : Process)
    → 0 < p.pending_sleep_ticks
    → hw.tick + p.pending_sleep_ticks < 2 ^ 64
    → (is_blocked (stopped hw cfs_mode rsp true p) ≡ true)
      × ((stopped hw cfs_mode rsp true p).wake_at_tick ≡ hw.tick + p.pending_sleep_ticks)
unfolding stopped
stopped-sleep hw cfs_mode rsp p some_ticks fits = (ground arith, ground arith)

-- A process whose time has not come is left as it is by the waking.
wake-early :
    (now : ℕ) (p : Process)
    → is_blocked p ≡ true
    → now < p.wake_at_tick
    → (is_blocked (wake now p) ≡ true)
      × (is_ready (wake now p) ≡ false)
      × ((wake now p).wake_at_tick ≡ p.wake_at_tick)
wake-early now p sleeps early =
    (ground arith, ground (arith, blocked_not_ready p sleeps), ground arith)
  where
    blocked_not_ready : (q : Process) → is_blocked q ≡ true → is_ready q ≡ false
    blocked_not_ready q e = ground (arith, e)

wake-ready : (now : ℕ) (p : Process) → is_ready p ≡ true → is_ready (wake now p) ≡ true
wake-ready now p is = ground (arith, is)

record Sleeps (s : Scheduler) (n : ℕ) (s' : Scheduler) : Type 0 where
  elsewhere : s'.current ≢ s.current
  sleeps : is_blocked (proc s'.processes s.current) ≡ true
  until : (proc s'.processes s.current).wake_at_tick ≡ n

preempt-Sleeps :
    (hw : Hardware) (s : Scheduler) (rsp j : ℕ)
    → s.mode ≡ weighted_priority
    → s.current < length s.processes
    → j < length s.processes
    → s.current ≢ j
    → is_ready (proc s.processes j) ≡ true
    → 0 < (at s s.current).pending_sleep_ticks
    → hw.tick + (at s s.current).pending_sleep_ticks < 2 ^ 64
    → Sleeps s (hw.tick + (at s s.current).pending_sleep_ticks) (preempt hw s rsp true).1
unfolding preempt do_preempt
preempt-Sleeps hw s rsp j weighted inside within apart is asks fits = record {
  elsewhere = elsewhere;
  sleeps = ap is_blocked kept ∙ asleep.0;
  until = ap (λ (p : Process). p.wake_at_tick) kept ∙ asleep.2 ∙ facts.1;
}
  where
    sleeper : Process
    sleeper = stopped hw (is_cfs s.mode) rsp true (at s s.current)

    left : Scheduler
    left = record (put s s.current (stopped hw (is_cfs s.mode) rsp true (at s s.current))) {
      switch_count = u64 (s.switch_count + 1);
    }

    facts :
        (is_blocked sleeper ≡ true)
        × (sleeper.wake_at_tick ≡ hw.tick + (at s s.current).pending_sleep_ticks)
    facts = stopped-sleep hw (is_cfs s.mode) rsp (at s s.current) asks fits

    size : length left.processes ≡ length s.processes
    size = length-set s.processes s.current sleeper

    woken_at :
        (i : ℕ)
        → i < length s.processes
        → proc (woken hw left) i ≡ wake hw.tick (proc left.processes i)
    woken_at i p =
        get_or-map (wake hw.tick) left.processes i new_kernel_main new_kernel_main
          (omega (arith, size))

    here : proc (woken hw left) s.current ≡ wake hw.tick sleeper
    here =
        woken_at s.current inside
        ∙ ap (wake hw.tick) (get_or-set_self s.processes s.current sleeper new_kernel_main inside)

    asleep :
        (is_blocked (proc (woken hw left) s.current) ≡ true)
        × (is_ready (proc (woken hw left) s.current) ≡ false)
        × ((proc (woken hw left) s.current).wake_at_tick ≡ sleeper.wake_at_tick)
    asleep =
        let early = wake-early hw.tick sleeper facts.0 (omega (arith, facts.1)) in
        (
          ap is_blocked here ∙ early.0,
          ap is_ready here ∙ early.1,
          ap (λ (p : Process). p.wake_at_tick) here ∙ early.2,
        )

    other : is_ready (proc (woken hw left) j) ≡ true
    other =
        ap is_ready (
          woken_at j within
          ∙ ap (wake hw.tick) (get_or-set_ne s.processes s.current j sleeper new_kernel_main apart))
        ∙ wake-ready hw.tick (proc s.processes j) is

    out :
        (is_ready (proc (woken hw left) (switch_to_next hw left rsp true).1.current) ≡ true)
        × ((i : ℕ)
            → i ≢ (switch_to_next hw left rsp true).1.current
            → proc (switch_to_next hw left rsp true).1.processes i ≡ proc (woken hw left) i)
    out =
        switched hw left rsp j weighted (omega (arith, size)) (ground (arith, size))
          (omega (arith, size)) other

    elsewhere : (switch_to_next hw left rsp true).1.current ≢ s.current
    elsewhere e = clash (sym out.0 ∙ ap (λ i. is_ready (proc (woken hw left) i)) e ∙ asleep.1)

    kept :
        proc (switch_to_next hw left rsp true).1.processes s.current
        ≡ proc (woken hw left) s.current
    kept = out.1 s.current (λ e. elsewhere (sym e))

pending-request_sleep :
    (s : Scheduler) (ticks : ℕ)
    → 0 < ticks
    → s.current < length s.processes
    → (at (request_sleep s ticks) s.current).pending_sleep_ticks ≡ ticks
unfolding request_sleep
pending-request_sleep s ticks some_ticks inside =
    ap (λ (p : Process). p.pending_sleep_ticks)
      (get_or-set_self s.processes s.current
        (record (at s s.current) { pending_sleep_ticks = max ticks 1 }) new_kernel_main inside)
    ∙ omega (arith, some_ticks)

-- In the weighted mode, with another process ready, a sleep of some ticks blocks the current process until
-- that many ticks from now, which is before 2^64, and gives the core to another process; a sleep of no
-- ticks changes nothing and goes on with the same stack pointer.
pub sleep_ticks_lem :
    (hw : Hardware) (s : Scheduler) (rsp ticks j : ℕ)
    → s.mode ≡ weighted_priority
    → s.current < length s.processes
    → j < length s.processes
    → s.current ≢ j
    → is_ready (proc s.processes j) ≡ true
    → hw.tick + ticks < 2 ^ 64
    → let out = sleep_ticks hw s rsp ticks in
      ((ticks ≡ 0) × (out ≡ (rsp, s)))
      ⊎ ((0 < ticks)
          × (out.1.current ≢ s.current)
          × (is_blocked (proc out.1.processes s.current) ≡ true)
          × ((proc out.1.processes s.current).wake_at_tick ≡ hw.tick + ticks))
unfolding sleep_ticks request_sleep
sleep_ticks_lem hw s rsp ticks j weighted inside within apart is fits = elim (ℕ_discrete ticks 0) [
  | yes none_ ↦ inl (none_, ground (arith, none_))
  | no ne ↦
      let some_ticks : (ticks == 0) ≡ false = ground (arith, ne) in
      let asking : Process = record (at s s.current) { pending_sleep_ticks = max ticks 1 } in
      let asked = pending-request_sleep s ticks (omega (arith, ne)) inside in
      let size = length-set s.processes s.current asking in
      let r =
        preempt-Sleeps hw (request_sleep s ticks) rsp j weighted (omega (arith, size))
          (omega (arith, size)) apart
          (ap is_ready (get_or-set_ne s.processes s.current j asking new_kernel_main apart) ∙ is)
          (omega (arith, asked, ne)) (omega (arith, asked, fits)) in
      rw (some_ticks, sleep_ticks)
        (inr (omega (arith, ne), r.elsewhere, r.sleeps, r.until ∙ omega (arith, asked)))
]
