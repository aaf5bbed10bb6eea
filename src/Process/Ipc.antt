-- ===== src/Process/Ipc.antt =====
-- process/ipc.rs: messages by a fast channel where there is one, and else by the queue of the receiver.
pub mod Doorbell
pub mod Exchange
pub mod Registry
pub mod Switchless
pub mod Tests
use chod_os.Base.{
  ℕ, zero, suc, ◌+◌, ◌-◌, ◌*◌, ◌/◌, ◌%◌, ◌^◌, Bool, true, false, not, Option, none, some, List, [],
  ◌∷◌, ◌++◌, if◌then◌else◌, ◌==◌, length, take, replicate, min,
}
use chod_os.Base.Words.{u64}
use chod_os.Process.Pcb.{Message}
use chod_os.Process.Scheduler.{Scheduler, current_pid}
use chod_os.Process.Switching.{send_message, recv_message}
use chod_os.Process.Shared.{
  Shared, Sent, sent, refused, spins, send_switchless, poll_switchless, read_shared,
}
use chod_os.Process.Channels.{Channels, get_channel, find_incoming_channels}

pub record Ipc : Type 0 where
  pub scheduler : Scheduler
  pub channels : Channels

-- An array of 64 bytes that starts with `bytes`.
abbrev pub inline : List ℕ → List ℕ
inline bytes = take 64 (bytes ++ replicate 64 0)

abbrev pub inline_message : ℕ → List ℕ → ℕ → Message
inline_message sender bytes fast_cap = record {
  sender = sender;
  len = min (length bytes) 64;
  payload = inline bytes;
  fast_cap = fast_cap;
}

abbrev pub with_shared : Ipc → Shared → Ipc
with_shared s shared = record s { channels = record s.channels { shared = shared } }

module _ (phys_of : ℕ → ℕ) where
  unfoldable pub send : Ipc → ℕ → List ℕ → Sent × Ipc
  send s to bytes =
      let sender = current_pid s.scheduler in
      let (ok, scheduler) = send_message s.scheduler to (inline_message sender bytes 0) in
      elim (get_channel s.channels sender to) [
        | some cap_id ↦
            let (r, shared) = send_switchless phys_of s.channels.shared cap_id bytes in
            (r, with_shared s shared)
        | none ↦ (if ok then sent else refused, record s { scheduler = scheduler })
      ]

  -- The first channel of the list whose doorbell is set.
  unfoldable pub poll_all : Shared → List (ℕ × ℕ) → Option Message × Shared
  poll_all s [] = (none, s)
  poll_all s ((cap_id, from) ∷ rest) =
      let later = poll_all s rest in
      let (got, s') = poll_switchless phys_of s cap_id 64 in
      elim got [ none ↦ later | some bytes ↦ (some (inline_message from bytes 0), s') ]

  -- A message of the queue that stands for a buffer is filled from it.
  abbrev pub filled : Shared → Message → Message
  filled s msg = if msg.fast_cap == 0 then msg else elim (read_shared phys_of s msg.fast_cap) [
    | none ↦ msg
    | some bytes ↦ inline_message msg.sender bytes msg.fast_cap
  ]

  unfoldable pub recv : Ipc → Option Message × Ipc
  recv s =
      let my_pid = current_pid s.scheduler in
      let (got, shared) = poll_all s.channels.shared (find_incoming_channels s.channels my_pid 8) in
      let (queued, scheduler) = recv_message s.scheduler in
      elim got [
        | some msg ↦ (some msg, with_shared s shared)
        | none ↦ elim queued [
          | none ↦ (none, record s { scheduler = scheduler })
          | some msg ↦ (some (filled s.channels.shared msg), record s { scheduler = scheduler })
        ]
      ]

-- `to_le_bytes` and `from_le_bytes` of a word of `n` bytes.
unfoldable pub to_le_bytes : ℕ → ℕ → List ℕ
to_le_bytes zero value = []
to_le_bytes (suc n) value = value % 256 ∷ to_le_bytes n (value / 256)

unfoldable pub from_le_bytes : List ℕ → ℕ
from_le_bytes [] = 0
from_le_bytes (b ∷ bs) = from_le_bytes bs * 256 + b

unfoldable pub send_u64 : (ℕ → ℕ) → Ipc → ℕ → ℕ → Sent × Ipc
send_u64 phys_of s to value = send phys_of s to (to_le_bytes 8 value)

unfoldable pub msg_as_u64 : Message → ℕ
msg_as_u64 msg =
    let len = min msg.len 8 in from_le_bytes (take len msg.payload ++ replicate (8 - len) 0)

-- `send_cap` and `recv_cap` of ipc_cap.rs.
unfoldable pub send_cap : (ℕ → ℕ) → Ipc → ℕ → ℕ → Sent × Ipc
send_cap phys_of s to cap_id = send phys_of s to (to_le_bytes 8 cap_id)

unfoldable pub recv_cap : (ℕ → ℕ) → Ipc → Option ℕ × Ipc
recv_cap phys_of s =
    let (got, s') = recv phys_of s in
    elim got [
      | none ↦ (none, s')
      | some msg ↦
          (if not (msg.len == 8) then none else some (from_le_bytes (take 8 msg.payload)), s')
    ]
