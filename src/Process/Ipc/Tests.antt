-- ===== src/Process/Ipc/Tests.antt =====
-- Two fast channels to process 2, with the capabilities 1 and 65, which share a doorbell. The frame of
-- a channel is seen for writing at 8192 times its number, and for reading 4096 bytes further on.
use chod_os.Base.{
  ℕ, ◌+◌, ◌*◌, ◌/◌, ◌%◌, ◌≡◌, refl, true, none, some, [], ◌∷◌, arith, if◌then◌else◌, replicate, min,
}
use chod_os.Process.Pcb.{Message, Process, new_kernel_main}
use chod_os.Process.Pcb
use chod_os.Process.Scheduler.{Scheduler, weighted_priority, current_pid}
use chod_os.Process.Shared.{
  Shared, SharedBuffer, ChannelFrame, sent, find, copy_from, send_switchless, poll_switchless,
}
use chod_os.Process.Channels.{
  Channels, get_channel, find_pair, find_incoming_channels, incoming, ensure_channel_cap, same_pair,
}
use chod_os.Process.Ipc.{send, recv, inline_message}
use chod_os.Process.Ipc.Switchless.{IsChannelFrame}
use chod_os.Process.Ipc.Doorbell.{IsChannel, send_switchless-collision}
use chod_os.Process.Ipc.Exchange.{send-recv}
use chod_os.Process.Ipc.Registry.{ensure_channel_cap-get}

-- Both windows of 4096 bytes lead to the frame of that size.
abbrev phys_of : ℕ → ℕ
phys_of a = a / 8192 * 4096 + a % 4096

abbrev channel : ℕ → SharedBuffer
channel n = record {
  id = n;
  bytes = [];
  owner = 1;
  frame_backed = true;
  write_va = n * 8192;
  read_va = n * 8192 + 4096;
  phys = n * 4096;
  frame_len = 512;
}

abbrev shared : Shared
shared = record {
  buffers = (1, channel 1) ∷ (65, channel 65) ∷ [];
  next_cap_id = 66;
  doorbells = replicate 64 0;
  freed_frames = [];
  mem = λ a. 0;
}

abbrev channels : Channels
channels = record { table = ((1, 2), 1) ∷ ((3, 2), 65) ∷ []; shared = shared; trace = [] }

channel-IsChannelFrame : IsChannelFrame phys_of 8192 12288
channel-IsChannelFrame = record {
  same = λ i h. omega (arith, h);
  apart = λ i j h k ne e. omega (arith, h, k, ne, e);
}

shared-IsChannel : IsChannel phys_of shared 1 (channel 1)
unfolding find
shared-IsChannel = record {
  found = refl;
  backed = refl;
  frame = channel-IsChannelFrame;
  doorbells = refl;
}

send_switchless-collision_example :
    let (r, s1) = send_switchless phys_of shared 1 (7 ∷ 8 ∷ []) in
    let (got', s2) = poll_switchless phys_of s1 65 64 in
    (r ≡ sent)
    × (got' ≡ some (copy_from phys_of s1.mem 536576 (min (min 2 4096) 64)))
    × ((poll_switchless phys_of s2 1 64).0 ≡ none)
unfolding find
send_switchless-collision_example =
    send_switchless-collision phys_of shared 1 65 (channel 1) (channel 65) (7 ∷ 8 ∷ []) 64
      shared-IsChannel refl refl refl refl (omega arith)

abbrev runs : ℕ → Scheduler
runs pid = record {
  processes = Pcb.new pid 8192 ∷ [];
  current = 0;
  next_pid = 9;
  remaining_quanta = 1;
  mode = weighted_priority;
  switch_count = 0;
  policy_calls = [];
}

send-recv_example :
    let (r, s1) =
      send phys_of (record { scheduler = runs 1; channels = channels }) 2 (7 ∷ 8 ∷ []) in
    let (got, s2) = recv phys_of (record s1 { scheduler = runs 2 }) in
    (r ≡ sent)
    × (got ≡ some (inline_message (current_pid (runs 1)) (7 ∷ 8 ∷ []) 0))
    × (s2.scheduler ≡ runs 2)
unfolding current_pid Pcb.new get_channel find_pair find_incoming_channels incoming
send-recv_example =
    send-recv phys_of (record { scheduler = runs 1; channels = channels }) 2 1 (channel 1)
      (7 ∷ 8 ∷ []) (runs 2) [] ((65, 3) ∷ []) refl shared-IsChannel refl (omega arith) (omega arith)
      refl refl tt

ensure_channel_cap-get_example :
    let frame : ChannelFrame = record { write_va = 16384; read_va = 20480; phys = 8192 } in
    let (cap_id, s') = ensure_channel_cap phys_of (λ a. none) frame channels 4 2 512 in
    (get_channel s' 4 2 ≡ some cap_id)
    × (ensure_channel_cap phys_of (λ a. none) frame s' 4 2 64 ≡ (cap_id, s'))
    × (get_channel s' 1 2
        ≡ (if same_pair (4, 2) (1, 2) then some cap_id else get_channel channels 1 2))
ensure_channel_cap-get_example =
    let frame : ChannelFrame = record { write_va = 16384; read_va = 20480; phys = 8192 } in
    ensure_channel_cap-get phys_of (λ a. none) frame frame channels 4 2 512 64 1 2
