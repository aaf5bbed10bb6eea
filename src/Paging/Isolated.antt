-- ===== src/Paging/Isolated.antt =====
-- The frame of a channel as process/ipc_fast.rs uses it: its check of the new channel.
use chod_os.Base.{
  ℕ, ◌+◌, ◌/◌, ◌%◌, ◌^◌, ◌≡◌, ◌<◌, ◌≤◌, refl, ap, ◌∙◌, true, Option, some, List, [], ◌∷◌, arith,
  ◌==◌, bit_and, bit_and_halves, bit_and-zero, min,
}
use chod_os.Paging.{Machine, alloc_channel_frame, get_kernel_pte}
use chod_os.Base.Words.{u32}
use chod_os.Paging.Walk.{walk, indices}
use chod_os.Paging.Tree.{IsTree}
use chod_os.Paging.Find.{IsSmall}
use chod_os.Paging.Channel.{
  kernel_phys_of, read_va_of, IsWindow, ChannelMapped, alloc_channel_frame-ChannelMapped,
}
use chod_os.Process.Ipc.Switchless.{IsChannelFrame}
use chod_os.Process.Shared.{
  Shared, SharedBuffer, ChannelFrame, find, put, alloc_shared_frame, reset_doorbell,
  IsolationResult, isolated, verify_channel_isolation,
}
use chod_os.Process.Channels.{Channels, channel_created, anomaly, create_channel}

find-put : (t : List (ℕ × SharedBuffer)) (id : ℕ) (b : SharedBuffer) → find (put t id b) id ≡ some b
unfolding find put
find-put [] id b = ground arith
find-put ((k, old) ∷ t) id b = ground (arith, find-put t id b)

read_only : (p : ℕ) → p % 4096 ≡ 0 → bit_and (p + 1) 2 ≡ 0
read_only p h = omega (
  arith,
  h,
  bit_and_halves (p + 1) 2,
  bit_and_halves ((p + 1) / 2) 1,
  bit_and-zero ((p + 1) / 2 / 2),
)

abbrev frame_of : Machine → ℕ → ℕ → ChannelFrame
frame_of m hhdm phys = record { write_va = phys + hhdm; read_va = read_va_of m; phys = phys }

module _ (m : Machine) (hhdm phys : ℕ) (m' : Machine) (c : ChannelMapped m hhdm phys m') where
  same_byte : kernel_phys_of m' (read_va_of m) ≡ kernel_phys_of m' (phys + hhdm)
  same_byte =
      ap (kernel_phys_of m') {x = read_va_of m} {y = read_va_of m + 0} (omega arith)
      ∙ c.channel.same 0 (omega arith)
      ∙ ap (kernel_phys_of m') {x = phys + hhdm + 0} {y = phys + hhdm} (omega arith)

  verify_channel-isolated :
      (s : Shared) (id : ℕ) (b : SharedBuffer)
      → find s.buffers id ≡ some b
      → b.frame_backed ≡ true
      → b.write_va ≡ phys + hhdm
      → b.read_va ≡ read_va_of m
      → (verify_channel_isolation (kernel_phys_of m') (get_kernel_pte m') s id).0 ≡ isolated
  unfolding verify_channel_isolation
  verify_channel-isolated s id b found backed write read =
      let pte : get_kernel_pte m' b.read_va ≡ some (phys + 1) =
        ap (get_kernel_pte m') read ∙ c.pte in
      let shut : (bit_and (phys + 1) 2 == 0) ≡ true = ground (arith, read_only phys c.aligned) in
      let at : (kernel_phys_of m' b.read_va == kernel_phys_of m' b.write_va) ≡ true =
        ground (arith, ap (kernel_phys_of m') read, ap (kernel_phys_of m') write, same_byte) in
      rw (found, verify_channel_isolation) (rw backed (rw pte (rw shut (rw at refl))))

  create_channel-trace :
      (s : Channels) (from to capacity : ℕ)
      → (create_channel
          (kernel_phys_of m')
          (get_kernel_pte m')
          (frame_of m hhdm phys)
          s
          from
          to
          capacity).1.trace
        ≡ channel_created (u32 from) (u32 to) (u32 s.shared.next_cap_id) capacity ∷ s.trace
  unfolding create_channel alloc_shared_frame reset_doorbell
  create_channel-trace s from to capacity =
      let id = s.shared.next_cap_id in
      let shared = (alloc_shared_frame (frame_of m hhdm phys) s.shared from capacity).1 in
      let b : SharedBuffer = record {
        id = id;
        bytes = [];
        owner = from;
        frame_backed = true;
        write_va = phys + hhdm;
        read_va = read_va_of m;
        phys = phys;
        frame_len = min capacity 4096;
      } in
      let created = channel_created (u32 from) (u32 to) (u32 id) capacity ∷ s.trace in
      ap
        (λ (iso : IsolationResult). elim iso [
          | isolated ↦ created
          | other ↦ anomaly (u32 from) (u32 to) (u32 id) other ∷ created
        ])
        (verify_channel-isolated (reset_doorbell shared id) id b (find-put s.shared.buffers id b)
          refl refl refl)

-- With four frames left and no large page in the way, paging finds a frame for a channel whose place in the
-- window and whose place among the channels lead to the same bytes, which are apart; and the channel that
-- is then made with it passes its check: what the tracer is told is that it was made, between the two
-- processes and with its capability, each cut to 32 bits, and no anomaly. No table of the kernel's space
-- stands at two places of its tree, the window shows all frames, and fewer than 2^30 channels were handed
-- out before.
pub create_channel-alloc_channel_frame :
    (m : Machine) (hhdm : ℕ) (owner : ℕ → Option (List ℕ)) (s : Channels) (from to capacity : ℕ)
    → IsTree m m.kernel_cr3 owner
    → IsWindow m hhdm
    → m.ro_channel_slot < 2 ^ 30
    → 4 ≤ m.frames.free_frames
    → IsSmall (walk m.mem m.kernel_cr3 (indices (read_va_of m)))
    → (m' : Machine) × (phys : ℕ) × (alloc_channel_frame hhdm m
        ≡ some ((phys + hhdm, read_va_of m, phys), m'))
      × IsChannelFrame (kernel_phys_of m') (phys + hhdm) (read_va_of m)
      × ((create_channel
            (kernel_phys_of m')
            (get_kernel_pte m')
            (record { write_va = phys + hhdm; read_va = read_va_of m; phys = phys })
            s
            from
            to
            capacity).1.trace
          ≡ channel_created (u32 from) (u32 to) (u32 s.shared.next_cap_id) capacity ∷ s.trace)
create_channel-alloc_channel_frame m hhdm owner s from to capacity tree w slots enough small =
    let (m', phys, run, c) =
      alloc_channel_frame-ChannelMapped m hhdm owner tree w slots enough small in
    (m', phys, run, c.channel, create_channel-trace m hhdm phys m' c s from to capacity)
