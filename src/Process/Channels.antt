-- ===== src/Process/Channels.antt =====
-- process/ipc_fast.rs: the registry of fast channels between two processes. The calls of the tracer are
-- listed, the latest first; text for the log is left out.
use chod_os.Base.{
  ℕ, Bool, ◌&&◌, ◌||◌, Option, none, some, List, [], ◌∷◌, if◌then◌else◌, ◌==◌, ltb, length, take,
}
use chod_os.Base.Words.{u32}
use chod_os.Process.Shared.{
  Shared, ChannelFrame, IsolationResult, isolated, alloc_shared_frame, drop_shared, reset_doorbell,
  verify_channel_isolation,
}

-- Numbers of processes and of capabilities are cut to 32 bits for the tracer.
pub data TraceCall : Type 0 where
  channel_created : ℕ → ℕ → ℕ → ℕ → TraceCall
  anomaly : ℕ → ℕ → ℕ → IsolationResult → TraceCall
  channel_dropped : ℕ → ℕ → ℕ → ℕ → TraceCall

-- The map from sender and receiver to a capability, in the order of the pairs.
pub record Channels : Type 0 where
  pub table : List ((ℕ × ℕ) × ℕ)
  pub shared : Shared
  pub trace : List TraceCall

abbrev pub same_pair : ℕ × ℕ → ℕ × ℕ → Bool
same_pair a b = (a.0 == b.0) && (a.1 == b.1)

abbrev pub before_pair : ℕ × ℕ → ℕ × ℕ → Bool
before_pair a b = ltb a.0 b.0 || ((a.0 == b.0) && ltb a.1 b.1)

unfoldable pub find_pair : List ((ℕ × ℕ) × ℕ) → ℕ × ℕ → Option ℕ
find_pair [] pair = none
find_pair ((k, c) ∷ t) pair =
    let later = find_pair t pair in if same_pair k pair then some c else later

unfoldable pub put_pair : List ((ℕ × ℕ) × ℕ) → ℕ × ℕ → ℕ → List ((ℕ × ℕ) × ℕ)
put_pair [] pair cap = (pair, cap) ∷ []
put_pair ((k, c) ∷ t) pair cap =
    let later = (k, c) ∷ put_pair t pair cap in
    if same_pair k pair
    then (pair, cap) ∷ t
    else (if before_pair pair k then (pair, cap) ∷ (k, c) ∷ t else later)

unfoldable pub without_pair : List ((ℕ × ℕ) × ℕ) → ℕ × ℕ → List ((ℕ × ℕ) × ℕ)
without_pair [] pair = []
without_pair ((k, c) ∷ t) pair =
    let later = (k, c) ∷ without_pair t pair in if same_pair k pair then t else later

unfoldable pub get_channel : Channels → ℕ → ℕ → Option ℕ
get_channel s from to = find_pair s.table (from, to)

module _ (phys_of : ℕ → ℕ) (get_kernel_pte : ℕ → Option ℕ) where
  -- `ensure_channel_cap` where there is no channel yet.
  unfoldable pub create_channel : ChannelFrame → Channels → ℕ → ℕ → ℕ → ℕ × Channels
  create_channel frame s from to capacity =
      let (cap_id, shared) = alloc_shared_frame frame s.shared from capacity in
      let created = channel_created (u32 from) (u32 to) (u32 cap_id) capacity ∷ s.trace in
      let (iso, shared') =
        verify_channel_isolation phys_of get_kernel_pte (reset_doorbell shared cap_id) cap_id in
      (
        cap_id,
        record {
          table = put_pair s.table (from, to) cap_id;
          shared = shared';
          trace = elim iso [
            | isolated ↦ created
            | other ↦ anomaly (u32 from) (u32 to) (u32 cap_id) other ∷ created
          ];
        },
      )

  unfoldable pub ensure_channel_cap : ChannelFrame → Channels → ℕ → ℕ → ℕ → ℕ × Channels
  ensure_channel_cap frame s from to capacity = elim (find_pair s.table (from, to)) [
    | some cap_id ↦ (cap_id, s)
    | none ↦ create_channel frame s from to capacity
  ]

  unfoldable pub ensure_channel : ChannelFrame → Channels → ℕ → ℕ → ℕ × Channels
  ensure_channel frame s from to = ensure_channel_cap frame s from to 512

unfoldable pub drop_channel : Channels → ℕ → ℕ → Channels
drop_channel s from to = elim (find_pair s.table (from, to)) [
  | none ↦ s
  | some cap_id ↦ record {
    table = without_pair s.table (from, to);
    shared = (drop_shared s.shared cap_id).1;
    trace = channel_dropped (u32 from) (u32 to) (u32 cap_id) 0 ∷ s.trace;
  }
]

unfoldable pub channel_count : Channels → ℕ
channel_count s = length s.table

-- The channels to `to`, of which the caller takes the first `max`.
unfoldable pub incoming : List ((ℕ × ℕ) × ℕ) → ℕ → List (ℕ × ℕ)
incoming [] to = []
incoming (((from, t), cap_id) ∷ rest) to =
    let later = incoming rest to in if t == to then (cap_id, from) ∷ later else later

unfoldable pub find_incoming_channels : Channels → ℕ → ℕ → List (ℕ × ℕ)
find_incoming_channels s to max = take max (incoming s.table to)
