-- ===== src/Process/Switching/Tests.antt =====
-- Runs of the scheduler with kernel_main and two processes.
use chod_os.Process.Pcb.{Message}
use chod_os.Process.Switching.{send_message}
use chod_os.Process.Switching.Messages.{queue_of, with_message, is_there, send_message-queue}
use chod_os.Base.{if◌then◌else◌, [], ◌∷◌}
use chod_os.Base.{ℕ, zero, suc, ◌<◌, ◌≡◌, refl, true, arith, length, inl, ◌⊎◌, ◌==◌}
use chod_os.Process.Pcb.{Process, Priority, high, normal, rank, new_kernel_main}
use chod_os.Process.Pcb
use chod_os.Process.Scheduler.{is_blocked}
use chod_os.Process.Switching.Sleep.{sleep_ticks_lem}
use chod_os.Process.Pcb.{new_kernel_main}
use chod_os.Base.{◌⊎◌, ◌<◌, ◌+◌, ◌≢◌, get_or}
use chod_os.Process.Scheduler.{Scheduler, Hardware, init, spawn, effective_priority}
use chod_os.Process.Switching.{
  switch_to_next, do_preempt, preempt, sleep_ticks, exit_current, best_from, switch_weighted,
  switch_to, stopped,
}
use chod_os.Process.Switching.Choice.{NoneReady, IsChoice, rounds_to}
use chod_os.Process.Switching.Weighted.{
  woken, SwitchedTo, switch_to_next_lem, switch_to_next-starved,
}
use chod_os.Process.Switching.State.{RunsOne, is_running, proc, preempt-RunsOne}

abbrev hw : Hardware
hw = record { tick = 300; stop_ts = 50; start_ts = 60; cpu = 0 }

abbrev three : Scheduler
three = spawn (spawn init (Pcb.new 1 1000)) (Pcb.new 2 2000)

-- kernel_main yields, and the process behind it goes on from its first frame.
yields : (preempt hw three 77 true).0 ≡ 856
unfolding preempt do_preempt switch_to_next switch_weighted switch_to stopped best_from spawn init
    Pcb.new Pcb.new_kernel_main effective_priority
yields = refl

three-RunsOne : RunsOne three.processes three.current
unfolding spawn init Pcb.new Pcb.new_kernel_main
three-RunsOne = record { inside = omega arith; one = only }
  where
    only : (j : ℕ) → j < 3 → is_running (proc three.processes j) ≡ (j == 0)
    only zero p = refl
    only (suc zero) p = refl
    only (suc (suc zero)) p = refl
    only (suc (suc (suc j))) p = absurd (omega arith)

preempt-RunsOne_example :
    RunsOne (preempt hw three 77 true).1.processes (preempt hw three 77 true).1.current
    × RunsOne (exit_current hw three 77).1.processes (exit_current hw three 77).1.current
preempt-RunsOne_example = preempt-RunsOne hw three 77 true three-RunsOne

switch_to_next_lem_example :
    (NoneReady (woken hw three)
      × ((switch_to_next hw three 77 true).0 ≡ 77)
      × ((switch_to_next hw three 77 true).1.current ≡ three.current)
      × ((switch_to_next hw three 77 true).1.remaining_quanta ≡ 1))
    ⊎ ((next : ℕ) × IsChoice 300 0 (woken hw three) three.current next
        × SwitchedTo hw three next (switch_to_next hw three 77 true))
unfolding spawn init
switch_to_next_lem_example =
    switch_to_next_lem hw three 77 true refl (omega arith) (omega arith) (inl refl)

switch_to_next-starved_example :
    ((switch_to_next hw three 77 true).1.current ≡ 2)
    ⊎ (rounds_to (length three.processes) (switch_to_next hw three 77 true).1.current 2
        < rounds_to (length three.processes) three.current 2)
unfolding spawn init Pcb.new
switch_to_next-starved_example =
    switch_to_next-starved hw three 77 true 2 refl (omega arith) (omega arith) (inl refl)
      (omega arith) refl refl (λ e. absurd (omega arith)) (omega arith)

abbrev hello : Message
hello = record { sender = 0; len = 1; payload = 104 ∷ []; fast_cap = 0 }

send_message-queue_example :
    ((send_message three 2 hello).0 ≡ is_there (queue_of three.processes 2))
    × (queue_of (send_message three 2 hello).1.processes 2 ≡ (
        if 2 == 2
        then with_message (queue_of three.processes 2) hello
        else queue_of three.processes 2))
unfolding spawn init
send_message-queue_example = send_message-queue three 2 hello 2 (omega arith)

sleep_ticks_lem_example :
    let out = sleep_ticks hw three 77 5 in
    ((◌≡◌ {A = ℕ} 5 0) × (out ≡ (77, three)))
    ⊎ ((0 < 5)
        × (out.1.current ≢ three.current)
        × (is_blocked (get_or out.1.processes three.current new_kernel_main) ≡ true)
        × ((get_or out.1.processes three.current new_kernel_main).wake_at_tick ≡ 300 + 5))
unfolding spawn init Pcb.new
sleep_ticks_lem_example =
    sleep_ticks_lem hw three 77 5 1 refl (omega arith) (omega arith) (λ e. absurd (omega arith))
      refl (omega arith)
