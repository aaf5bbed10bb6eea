-- ===== src/Process/Switching/Messages.antt =====
-- The queues of messages in process/scheduler.rs.
use chod_os.Base.{
  ℕ, zero, suc, ◌<◌, ◌≡◌, refl, sym, ap, ◌∙◌, Bool, true, false, Option, none, some, List, [], ◌∷◌,
  ◌++◌, arith, if◌then◌else◌, ◌==◌, length, get_or, set, get_or-set_self, Bool-cases, Option-cases,
  inl, inr, ◌⊎◌, ℕ_discrete,
}
use chod_os.Process.Pcb.{Process, Message, record_ipc_send, find_peer, find_free, new_kernel_main}
use chod_os.Process.Scheduler.{Scheduler, at, find_pid, update_first}
use chod_os.Process.Switching.{send_message, recv_message}

-- The messages that wait for a process.
abbrev pub queue : Option Process → Option (List Message)
queue none = none
queue (some p) = some p.message_queue

abbrev pub queue_of : List Process → ℕ → Option (List Message)
queue_of ps pid = queue (find_pid ps pid)

abbrev pub with_message : Option (List Message) → Message → Option (List Message)
with_message none m = none
with_message (some ms) m = some (ms ++ (m ∷ []))

abbrev pub is_there : Option (List Message) → Bool
is_there none = false
is_there (some ms) = true

record_ipc_send-same :
    (p : Process) (to : ℕ)
    → ((record_ipc_send p to).1.pid ≡ p.pid)
      × ((record_ipc_send p to).1.message_queue ≡ p.message_queue)
unfolding record_ipc_send
record_ipc_send-same p to = elim (Option-cases (find_peer 8 0 p to)) [
  | inr (i, e) ↦ rw (e, record_ipc_send) (refl, refl)
  | inl e ↦ elim (Option-cases (find_free 8 0 p)) [
    | inr (i, f) ↦ rw (e, f, record_ipc_send) (refl, refl)
    | inl f ↦ rw (e, f, record_ipc_send) (refl, refl)
  ]
]

queue_of-set :
    (ps : List Process) (i : ℕ) (p : Process) (g : ℕ)
    → i < length ps
    → p.pid ≡ (get_or ps i new_kernel_main).pid
    → p.message_queue ≡ (get_or ps i new_kernel_main).message_queue
    → queue_of (set ps i p) g ≡ queue_of ps g
unfolding find_pid
queue_of-set [] i p g h same_pid same_queue = absurd (omega arith)
queue_of-set (q ∷ ps) zero p g h same_pid same_queue = ground (arith, same_pid, same_queue)
queue_of-set (q ∷ ps) (suc i) p g h same_pid same_queue =
    ground (arith, queue_of-set ps i p g (omega arith) same_pid same_queue)

abbrev deliver : Message → Process → Process
deliver m p = record p { message_queue = p.message_queue ++ (m ∷ []) }

queue_of-update_first :
    (ps : List Process) (to : ℕ) (m : Message) (g : ℕ)
    → queue_of (update_first (deliver m) ps to) g
      ≡ (if to == g then with_message (queue_of ps g) m else queue_of ps g)
unfolding find_pid update_first
queue_of-update_first [] to m g = ground arith
queue_of-update_first (p ∷ ps) to m g = elim (Bool-cases (p.pid == to)) [
  | inl here ↦ elim (Bool-cases (p.pid == g)) [
    | inl mine ↦
        let both : (to == g) ≡ true = ground (arith, here, mine) in
        rw (here, both, mine, find_pid, update_first) refl
    | inr others ↦
        let apart : (to == g) ≡ false = ground (arith, here, others) in
        rw (here, apart, others, find_pid, update_first) refl
  ]
  | inr elsewhere ↦ elim (Bool-cases (p.pid == g)) [
    | inl mine ↦
        let apart : (to == g) ≡ false = ground (arith, elsewhere, mine) in
        rw (elsewhere, apart, mine, find_pid, update_first) refl
    | inr others ↦ rw (elsewhere, others, find_pid, update_first) (queue_of-update_first ps to m g)
  ]
]

-- A message to a process of the table is accepted, and stands behind the others in that process's queue; a
-- message to any other number is refused. No other queue changes.
pub send_message-queue :
    (s : Scheduler) (to : ℕ) (msg : Message) (g : ℕ)
    → s.current < length s.processes
    → let (ok, s') = send_message s to msg in
      (ok ≡ is_there (queue_of s.processes to))
      × (queue_of s'.processes g
          ≡ (if to == g then with_message (queue_of s.processes g) msg else queue_of s.processes g))
unfolding send_message
send_message-queue s to msg g inside = elim (Option-cases (find_pid counted to)) [
  | inl e ↦ rw (e, send_message) (ap is_there (sym (nobody e)), same g ∙ untouched e)
  | inr (p, e) ↦
      rw (e, send_message)
        (
          ap (λ q. is_there (queue q)) (sym e) ∙ ap is_there (same to),
          queue_of-update_first counted to msg g
              ∙ ap (λ q. if to == g then with_message q msg else q) (same g),
        )
]
  where
    counted : List Process
    counted = set s.processes s.current (record_ipc_send (at s s.current) to).1

    same : (h : ℕ) → queue_of counted h ≡ queue_of s.processes h
    same h =
        let kept = record_ipc_send-same (at s s.current) to in
        queue_of-set s.processes s.current (record_ipc_send (at s s.current) to).1 h inside kept.0
          kept.1

    nobody : find_pid counted to ≡ none → queue_of s.processes to ≡ none
    nobody e = sym (same to) ∙ ap queue e

    untouched :
        find_pid counted to ≡ none
        → queue_of s.processes g
          ≡ (if to == g then with_message (queue_of s.processes g) msg else queue_of s.processes g)
    untouched e = elim (ℕ_discrete to g) [
      | yes here ↦
          let bare : queue_of s.processes g ≡ none =
            ap (queue_of s.processes) (sym here) ∙ nobody e in
          rw bare (ground arith)
      | no apart ↦ ground (arith, apart)
    ]

-- The current process takes the oldest of its messages, and nothing where none waits.
pub recv_message_lem :
    (s : Scheduler)
    → s.current < length s.processes
    → let (got, s') = recv_message s in
      ((got ≡ none) × ((at s s.current).message_queue ≡ []) × (s' ≡ s))
      ⊎ ((m : Message) × (got ≡ some m)
          × ((at s s.current).message_queue ≡ m ∷ (at s' s'.current).message_queue))
unfolding recv_message
recv_message_lem s inside = go (at s s.current).message_queue refl
  where
    go :
        (ms : List Message)
        → (at s s.current).message_queue ≡ ms
        → let (got, s') = recv_message s in
          ((got ≡ none) × ((at s s.current).message_queue ≡ []) × (s' ≡ s))
          ⊎ ((m : Message) × (got ≡ some m)
              × ((at s s.current).message_queue ≡ m ∷ (at s' s'.current).message_queue))
    go [] e = rw (e, recv_message) (inl (refl, refl, refl))
    go (m ∷ ms) e =
        rw (e, recv_message)
          (inr (
            m,
            refl,
            ap (λ (p : Process). m ∷ p.message_queue)
                (sym (get_or-set_self s.processes s.current _ new_kernel_main inside)),
          ))
