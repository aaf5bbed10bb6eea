-- ===== src/Process/Shared.antt =====
-- process/ipc_cap.rs: shared buffers, named by capability numbers, and the doorbells of the path that
-- does without a switch. Memory is physical; where a virtual address leads, which paging decides, is a
-- parameter, and so are the addresses of a new frame.
use chod_os.Base.{
  ℕ, zero, suc, ◌+◌, ◌%◌, Bool, true, false, not, Option, none, some, List, [], ◌∷◌, ◌++◌,
  if◌then◌else◌, ◌==◌, ltb, length, get_or, set, take, min, bit_and,
}
use chod_os.Base.Words.{u64}
use chod_os.Base.Cells.{Memory, poke}

abbrev pub sw_slots : ℕ
sw_slots = 64

abbrev pub sw_slot : ℕ → ℕ
sw_slot cap_id = cap_id % sw_slots

-- `data` is `bytes` here.
pub record SharedBuffer : Type 0 where
  pub id : ℕ
  pub bytes : List ℕ
  pub owner : ℕ
  pub frame_backed : Bool
  pub write_va : ℕ
  pub read_va : ℕ
  pub phys : ℕ
  pub frame_len : ℕ

-- The frames that were given back to paging are listed, the latest first.
pub record Shared : Type 0 where
  pub buffers : List (ℕ × SharedBuffer)
  pub next_cap_id : ℕ
  pub doorbells : List ℕ
  pub freed_frames : List ℕ
  pub mem : Memory

-- `BTreeMap::get`, `insert` and `remove`.
unfoldable pub find : List (ℕ × SharedBuffer) → ℕ → Option SharedBuffer
find [] id = none
find ((k, b) ∷ t) id = let later = find t id in if k == id then some b else later

unfoldable pub put : List (ℕ × SharedBuffer) → ℕ → SharedBuffer → List (ℕ × SharedBuffer)
put [] id buf = (id, buf) ∷ []
put ((k, b) ∷ t) id buf =
    let later = (k, b) ∷ put t id buf in
    if ltb id k then (id, buf) ∷ (k, b) ∷ t else (if k == id then (id, buf) ∷ t else later)

unfoldable pub without : List (ℕ × SharedBuffer) → ℕ → List (ℕ × SharedBuffer)
without [] id = []
without ((k, b) ∷ t) id = let later = (k, b) ∷ without t id in if k == id then t else later

-- The next capability number, and the counter after it.
abbrev add_buffer : Shared → (ℕ → SharedBuffer) → ℕ × Shared
add_buffer s make = (
  s.next_cap_id,
  record s {
    buffers = put s.buffers s.next_cap_id (make s.next_cap_id);
    next_cap_id = u64 (s.next_cap_id + 1);
  },
)

unfoldable pub alloc_shared : Shared → ℕ → List ℕ → ℕ × Shared
alloc_shared s owner bytes = add_buffer s (λ id. record {
  id = id;
  bytes = bytes;
  owner = owner;
  frame_backed = false;
  write_va = 0;
  read_va = 0;
  phys = 0;
  frame_len = 0;
})

-- The frame is what `alloc_channel_frame` of paging answers.
pub record ChannelFrame : Type 0 where
  pub write_va : ℕ
  pub read_va : ℕ
  pub phys : ℕ

unfoldable pub alloc_shared_frame : ChannelFrame → Shared → ℕ → ℕ → ℕ × Shared
alloc_shared_frame frame s owner capacity = add_buffer s (λ id. record {
  id = id;
  bytes = [];
  owner = owner;
  frame_backed = true;
  write_va = frame.write_va;
  read_va = frame.read_va;
  phys = frame.phys;
  frame_len = min capacity 4096;
})

unfoldable pub append_shared : Shared → ℕ → List ℕ → Bool × Shared
append_shared s id extra = elim (find s.buffers id) [
  | none ↦ (false, s)
  | some buf ↦
      (true, record s { buffers = put s.buffers id (record buf { bytes = buf.bytes ++ extra }) })
]

unfoldable pub drop_shared : Shared → ℕ → Bool × Shared
drop_shared s id = elim (find s.buffers id) [
  | none ↦ (false, s)
  | some buf ↦ (
    true,
    record s {
      buffers = without s.buffers id;
      freed_frames = if buf.frame_backed then buf.phys ∷ s.freed_frames else s.freed_frames;
    },
  )
]

unfoldable pub buffer_count : Shared → ℕ
buffer_count s = length s.buffers

unfoldable pub is_valid : Shared → ℕ → Bool
is_valid s id = elim (find s.buffers id) [ none ↦ false | some buf ↦ true ]

abbrev pub doorbell : Shared → ℕ → ℕ
doorbell s id = get_or s.doorbells (sw_slot id) 0

abbrev pub ring : Shared → ℕ → ℕ → Shared
ring s id len = record s { doorbells = set s.doorbells (sw_slot id) len }

unfoldable pub doorbell_pending : Shared → ℕ → Bool
doorbell_pending s id = not (doorbell s id == 0)

unfoldable pub reset_doorbell : Shared → ℕ → Shared
reset_doorbell s id = ring s id 0

pub data IsolationResult : Type 0 where
  not_applicable : IsolationResult
  isolated : IsolationResult
  pte_missing : IsolationResult
  read_va_is_writable : IsolationResult
  data_mismatch : IsolationResult

-- A sender that finds the doorbell set spins; it goes on when the receiver has cleared it.
pub data Sent : Type 0 where
  sent : Sent
  refused : Sent
  spins : Sent

module _ (phys_of : ℕ → ℕ) where
  -- Bytes copied to and from a virtual address.
  unfoldable pub copy_to : Memory → ℕ → List ℕ → Memory
  copy_to mem a [] = mem
  copy_to mem a (b ∷ bs) = copy_to (poke mem (phys_of a) b) (a + 1) bs

  unfoldable pub copy_from : Memory → ℕ → ℕ → List ℕ
  copy_from mem a zero = []
  copy_from mem a (suc n) = mem (phys_of a) ∷ copy_from mem (a + 1) n

  unfoldable pub overwrite_shared : Shared → ℕ → List ℕ → Bool × Shared
  overwrite_shared s id bytes = elim (find s.buffers id) [
    | none ↦ (false, s)
    | some buf ↦
        if buf.frame_backed
        then (
          true,
          record s {
            mem = copy_to s.mem buf.write_va (take 4096 bytes);
            buffers = put s.buffers id (record buf { frame_len = min (length bytes) 4096 });
          },
        )
        else (true, record s { buffers = put s.buffers id (record buf { bytes = bytes }) })
  ]

  -- What the callback of `read_shared` is given.
  unfoldable pub read_shared : Shared → ℕ → Option (List ℕ)
  read_shared s id = elim (find s.buffers id) [
    | none ↦ none
    | some buf ↦
        if buf.frame_backed
        then some (copy_from s.mem buf.read_va buf.frame_len)
        else some buf.bytes
  ]

  -- `get_kernel_pte` is paging's; 0x5A is the pattern that is written and read back.
  unfoldable pub verify_channel_isolation : (ℕ → Option ℕ) → Shared → ℕ → IsolationResult × Shared
  verify_channel_isolation get_kernel_pte s id = elim (find s.buffers id) [
    | none ↦ (not_applicable, s)
    | some buf ↦
        if not buf.frame_backed then (not_applicable, s) else elim (get_kernel_pte buf.read_va) [
          | none ↦ (pte_missing, s)
          | some pte ↦
              let m1 = poke s.mem (phys_of buf.write_va) 90 in
              if not (bit_and pte 2 == 0)
              then (read_va_is_writable, s)
              else (if not (m1 (phys_of buf.read_va) == 90)
                  then (data_mismatch, record s { mem = m1 })
                  else (isolated, record s { mem = poke m1 (phys_of buf.write_va) 0 }))
        ]
  ]

  unfoldable pub send_switchless : Shared → ℕ → List ℕ → Sent × Shared
  send_switchless s id bytes = elim (find s.buffers id) [
    | none ↦ (refused, s)
    | some buf ↦
        let after = record (ring s id (min (length bytes) 4096)) {
          mem = copy_to s.mem buf.write_va (take 4096 bytes);
        } in
        if not buf.frame_backed
        then (refused, s)
        else (if doorbell_pending s id then (spins, s) else (sent, after))
  ]

  -- `out` is the number of bytes of the receiver's buffer.
  unfoldable pub poll_switchless : Shared → ℕ → ℕ → Option (List ℕ) × Shared
  poll_switchless s id out =
      if not (doorbell_pending s id) then (none, s) else elim (find s.buffers id) [
        | none ↦ (none, s)
        | some buf ↦
            if not buf.frame_backed
            then (none, s)
            else (some (copy_from s.mem buf.read_va (min (doorbell s id) out)), ring s id 0)
      ]
