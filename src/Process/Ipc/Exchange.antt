-- ===== src/Process/Ipc/Exchange.antt =====
-- From `send` to `recv` of process/ipc.rs over a fast channel, and the registry of the channels.
use chod_os.Base.{
  ℕ, ◌≡◌, ◌≢◌, ◌≤◌, refl, sym, ap, ◌∙◌, Option, some, List, [], ◌∷◌, ◌++◌, All, arith, length, take,
  min, get_or-set_ne, take_all,
}
use chod_os.Process.Pcb.{Message}
use chod_os.Process.Scheduler.{Scheduler, current_pid}
use chod_os.Process.Shared.{Shared, SharedBuffer, Sent, sent, doorbell, sw_slot, poll_switchless}
use chod_os.Process.Channels.{get_channel, find_incoming_channels}
use chod_os.Process.Ipc.{Ipc, send, recv, poll_all, inline_message, with_shared}
use chod_os.Process.Ipc.Doorbell.{
  IsChannel, delivered, send_switchless-sent, send_switchless-poll, poll_switchless-none,
}

-- The doorbell of a channel is quiet, and it is another than that of channel `cap_id`.
abbrev pub IsQuiet : Shared → ℕ → ℕ × ℕ → Type 0
IsQuiet s cap_id e = (doorbell s e.0 ≡ 0) × (sw_slot cap_id ≢ sw_slot e.0)

poll_all-some :
    (phys_of : ℕ → ℕ) (s s' : Shared) (cap_id from : ℕ) (before after : List (ℕ × ℕ))
    (bytes : List ℕ)
    → All (IsQuiet s cap_id) before
    → ((id : ℕ) → sw_slot cap_id ≢ sw_slot id → doorbell s' id ≡ doorbell s id)
    → (poll_switchless phys_of s' cap_id 64).0 ≡ some bytes
    → poll_all phys_of s' (before ++ (cap_id, from) ∷ after)
      ≡ (some (inline_message from bytes 0), (poll_switchless phys_of s' cap_id 64).1)
unfolding poll_all
poll_all-some phys_of s s' cap_id from [] after bytes quiet kept got = rw (got, poll_all) refl
poll_all-some phys_of s s' cap_id from ((id, other) ∷ before) after bytes ((unset, apart), quiet)
      kept got =
    rw (poll_switchless-none phys_of s' id 64 (kept id apart ∙ unset), poll_all)
      (poll_all-some phys_of s s' cap_id from before after bytes quiet kept got)

send-sent :
    (phys_of : ℕ → ℕ) (s : Ipc) (to cap_id : ℕ) (buf : SharedBuffer) (bytes : List ℕ)
    → get_channel s.channels (current_pid s.scheduler) to ≡ some cap_id
    → IsChannel phys_of s.channels.shared cap_id buf
    → doorbell s.channels.shared cap_id ≡ 0
    → send phys_of s to bytes
      ≡ (sent, with_shared s (delivered phys_of s.channels.shared cap_id buf bytes))
unfolding send
send-sent phys_of s to cap_id buf bytes channel c quiet =
    rw (channel, send)
      (ap (λ (x : Sent × Shared). (x.0, with_shared s x.1))
        (send_switchless-sent phys_of s.channels.shared cap_id buf bytes c quiet))

recv-some :
    (phys_of : ℕ → ℕ) (r : Ipc) (msg : Message) (shared : Shared)
    → poll_all phys_of r.channels.shared
        (find_incoming_channels r.channels (current_pid r.scheduler) 8)
      ≡ (some msg, shared)
    → recv phys_of r ≡ (some msg, with_shared r shared)
unfolding recv
recv-some phys_of r msg shared e =
    rw (e, recv) (ap (λ (x : Option Message × Shared). (some msg, with_shared r x.1)) e)

-- A message of 1 to 64 bytes, sent over a fast channel whose doorbell is quiet, is what the receiver
-- gets when it asks next: with the sender's number, the length and the bytes as they were sent, and
-- without a look at its queue. The receiver polls at most eight channels: this one is among them, and
-- those before it are quiet and have other doorbells.
pub send-recv :
    (phys_of : ℕ → ℕ) (s : Ipc) (to cap_id : ℕ) (buf : SharedBuffer) (bytes : List ℕ)
    (receiver : Scheduler) (before after : List (ℕ × ℕ))
    → get_channel s.channels (current_pid s.scheduler) to ≡ some cap_id
    → IsChannel phys_of s.channels.shared cap_id buf
    → doorbell s.channels.shared cap_id ≡ 0
    → 1 ≤ length bytes
    → length bytes ≤ 64
    → current_pid receiver ≡ to
    → find_incoming_channels s.channels to 8 ≡ before ++ (cap_id, current_pid s.scheduler) ∷ after
    → All (IsQuiet s.channels.shared cap_id) before
    → let (r, s1) = send phys_of s to bytes in
      let (got, s2) = recv phys_of (record s1 { scheduler = receiver }) in
      (r ≡ sent)
      × (got ≡ some (inline_message (current_pid s.scheduler) bytes 0))
      × (s2.scheduler ≡ receiver)
unfolding find_incoming_channels
send-recv phys_of s to cap_id buf bytes receiver before after channel c quiet some_byte fits runs
      coming others =
    let shared = s.channels.shared in
    let s1 = delivered phys_of shared cap_id buf bytes in
    let r : Ipc = record (with_shared s s1) { scheduler = receiver } in
    let whole : take (min (length bytes) 64) bytes ≡ bytes =
      take_all (min (length bytes) 64) bytes (omega (arith, fits)) in
    let got : (poll_switchless phys_of s1 cap_id 64).0 ≡ some bytes =
      polled phys_of shared cap_id buf bytes c quiet some_byte (omega (arith, fits))
      ∙ ap (λ bs. some bs) whole in
    let polls =
      ap (λ l. poll_all phys_of s1 l)
        (ap (λ pid. find_incoming_channels r.channels pid 8) runs ∙ coming)
      ∙ poll_all-some phys_of shared s1 cap_id (current_pid s.scheduler) before after bytes others
          (λ id apart. get_or-set_ne shared.doorbells (sw_slot cap_id) (sw_slot id) _ 0 apart)
          got in
    rw
      (
        send-sent phys_of s to cap_id buf bytes channel c quiet,
        recv-some phys_of r (inline_message (current_pid s.scheduler) bytes 0) _ polls,
      )
      (refl, refl, refl)
  where
    polled :
        (phys_of : ℕ → ℕ) (s : Shared) (id : ℕ) (buf : SharedBuffer) (bytes : List ℕ)
        → IsChannel phys_of s id buf
        → doorbell s id ≡ 0
        → 1 ≤ length bytes
        → length bytes ≤ 4096
        → (poll_switchless phys_of (delivered phys_of s id buf bytes) id 64).0
          ≡ some (take (min (length bytes) 64) bytes)
    polled phys_of s id buf bytes c quiet one fits =
        ap (λ (x : Sent × Shared). (poll_switchless phys_of x.1 id 64).0)
          (sym (send_switchless-sent phys_of s id buf bytes c quiet))
        ∙ (send_switchless-poll phys_of s id buf bytes 64 c quiet one fits).1
