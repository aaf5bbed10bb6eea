-- ===== src/Process/Ipc/Doorbell.antt =====
-- What the receiver of process/ipc_cap.rs gets for what was sent without a switch.
use chod_os.Base.{
  ℕ, ◌≡◌, ◌≢◌, ◌<◌, ◌≤◌, refl, sym, ap, ◌∙◌, Bool, true, false, not, Option, none, some, List, [],
  arith, if◌then◌else◌, length, get_or, take, min, length-set, get_or-set_self, take_all,
}
use chod_os.Process.Shared.{
  Shared, SharedBuffer, sent, refused, spins, find, sw_slot, doorbell, doorbell_pending, ring,
  copy_to, copy_from, send_switchless, poll_switchless,
}
use chod_os.Process.Ipc.Switchless.{IsChannelFrame, copy_from-copy_to}

-- A buffer in a frame, with the 64 doorbells of the kernel.
pub record IsChannel (phys_of : ℕ → ℕ) (s : Shared) (id : ℕ) (buf : SharedBuffer) : Type 0 where
  pub found : find s.buffers id ≡ some buf
  pub backed : buf.frame_backed ≡ true
  pub frame : IsChannelFrame phys_of buf.write_va buf.read_va
  pub doorbells : length s.doorbells ≡ 64

-- The state after a message was put into the frame.
abbrev pub delivered : (ℕ → ℕ) → Shared → ℕ → SharedBuffer → List ℕ → Shared
delivered phys_of s id buf bytes = record (ring s id (min (length bytes) 4096)) {
  mem = copy_to phys_of s.mem buf.write_va (take 4096 bytes);
}

pub send_switchless-sent :
    (phys_of : ℕ → ℕ) (s : Shared) (id : ℕ) (buf : SharedBuffer) (bytes : List ℕ)
    → IsChannel phys_of s id buf
    → doorbell s id ≡ 0
    → send_switchless phys_of s id bytes ≡ (sent, delivered phys_of s id buf bytes)
unfolding send_switchless doorbell_pending
send_switchless-sent phys_of s id buf bytes c quiet =
    let unset : doorbell_pending s id ≡ false = ground (arith, quiet) in
    rw (c.found, send_switchless)
      (ap
          (λ (b : Bool).
            if not b
            then (refused, s)
            else (if doorbell_pending s id
                then (spins, s)
                else (sent, delivered phys_of s id buf bytes)))
          c.backed
        ∙ rw unset refl)

poll_switchless-some :
    (phys_of : ℕ → ℕ) (s : Shared) (id : ℕ) (buf : SharedBuffer) (out : ℕ)
    → find s.buffers id ≡ some buf
    → buf.frame_backed ≡ true
    → doorbell s id ≢ 0
    → poll_switchless phys_of s id out
      ≡ (some (copy_from phys_of s.mem buf.read_va (min (doorbell s id) out)), ring s id 0)
unfolding poll_switchless doorbell_pending
poll_switchless-some phys_of s id buf out found backed rung =
    let set_ : not (doorbell_pending s id) ≡ false = ground (arith, rung) in
    rw (set_, found, poll_switchless)
      (ap
        (λ (b : Bool).
          if not b
          then (none, s)
          else (some (copy_from phys_of s.mem buf.read_va (min (doorbell s id) out)), ring s id 0))
        backed)

pub poll_switchless-none :
    (phys_of : ℕ → ℕ) (s : Shared) (id out : ℕ)
    → doorbell s id ≡ 0
    → poll_switchless phys_of s id out ≡ (none, s)
unfolding poll_switchless doorbell_pending
poll_switchless-none phys_of s id out quiet =
    let unset : not (doorbell_pending s id) ≡ true = ground (arith, quiet) in
    rw (unset, poll_switchless) refl

sw_slot-lt : (id : ℕ) → sw_slot id < 64
sw_slot-lt id = omega arith

pub doorbell-ring :
    (s : Shared) (id len : ℕ) → length s.doorbells ≡ 64 → doorbell (ring s id len) id ≡ len
doorbell-ring s id len size =
    get_or-set_self s.doorbells (sw_slot id) len 0 (omega (arith, size, sw_slot-lt id))

-- A message of at least one byte and at most a frame, sent over a channel whose doorbell is quiet, is
-- accepted; the receiver's next poll answers its first bytes, as many as its buffer holds, and leaves
-- the doorbell quiet, so that what did not fit is gone. The channel is a frame with two windows.
pub send_switchless-poll :
    (phys_of : ℕ → ℕ) (s : Shared) (id : ℕ) (buf : SharedBuffer) (bytes : List ℕ) (out : ℕ)
    → IsChannel phys_of s id buf
    → doorbell s id ≡ 0
    → 1 ≤ length bytes
    → length bytes ≤ 4096
    → let (r, s1) = send_switchless phys_of s id bytes in
      let (got, s2) = poll_switchless phys_of s1 id out in
      (r ≡ sent) × (got ≡ some (take (min (length bytes) out) bytes)) × (doorbell s2 id ≡ 0)
send_switchless-poll phys_of s id buf bytes out c quiet some_byte fits =
    let s1 = delivered phys_of s id buf bytes in
    let rung : doorbell s1 id ≡ length bytes =
      doorbell-ring s id (min (length bytes) 4096) c.doorbells ∙ omega arith in
    let whole : take 4096 bytes ≡ bytes = take_all 4096 bytes fits in
    rw
      (
        send_switchless-sent phys_of s id buf bytes c quiet,
        poll_switchless-some phys_of s1 id buf out c.found c.backed
            (λ e. omega (arith, e, rung, some_byte)),
      )
      (
        refl,
        ap (λ n. some (copy_from phys_of s1.mem buf.read_va (min n out))) rung
            ∙ ap
                (λ bs. some (
                  copy_from phys_of (copy_to phys_of s.mem buf.write_va bs) buf.read_va
                    (min (length bytes) out)))
                whole
            ∙ ap (λ bs. some bs)
                (copy_from-copy_to phys_of buf.write_va buf.read_va c.frame s.mem bytes
                  (min (length bytes) out) fits (omega arith)),
        doorbell-ring s1 id 0
            (length-set s.doorbells (sw_slot id) (min (length bytes) 4096) ∙ c.doorbells),
      )

-- A message without bytes is accepted too, but rings no doorbell: the receiver gets nothing.
pub send_switchless-empty :
    (phys_of : ℕ → ℕ) (s : Shared) (id : ℕ) (buf : SharedBuffer) (out : ℕ)
    → IsChannel phys_of s id buf
    → doorbell s id ≡ 0
    → let (r, s1) = send_switchless phys_of s id [] in
      (r ≡ sent) × ((poll_switchless phys_of s1 id out).0 ≡ none)
send_switchless-empty phys_of s id buf out c quiet =
    let s1 = delivered phys_of s id buf [] in
    let unset : doorbell s1 id ≡ 0 = doorbell-ring s id (min 0 4096) c.doorbells ∙ omega arith in
    rw
      (
        send_switchless-sent phys_of s id buf [] c quiet,
        poll_switchless-none phys_of s1 id out unset,
      )
      (refl, refl)

-- Two channels whose numbers leave the same remainder by 64 have one doorbell. A message sent over the
-- first is taken by a poll of the second, which answers bytes of the second's own frame, and after
-- that a poll of the first answers nothing: the message is lost. It has at least one byte.
pub send_switchless-collision :
    (phys_of : ℕ → ℕ) (s : Shared) (id id' : ℕ) (buf buf' : SharedBuffer) (bytes : List ℕ) (out : ℕ)
    → IsChannel phys_of s id buf
    → find s.buffers id' ≡ some buf'
    → buf'.frame_backed ≡ true
    → sw_slot id ≡ sw_slot id'
    → doorbell s id ≡ 0
    → 1 ≤ length bytes
    → let (r, s1) = send_switchless phys_of s id bytes in
      let (got', s2) = poll_switchless phys_of s1 id' out in
      (r ≡ sent)
      × (got' ≡ some (copy_from phys_of s1.mem buf'.read_va (min (min (length bytes) 4096) out)))
      × ((poll_switchless phys_of s2 id out).0 ≡ none)
send_switchless-collision phys_of s id id' buf buf' bytes out c found' backed' slots quiet
      some_byte =
    let s1 = delivered phys_of s id buf bytes in
    let size = length-set s.doorbells (sw_slot id) (min (length bytes) 4096) ∙ c.doorbells in
    let rung : doorbell s1 id' ≡ min (length bytes) 4096 =
      ap (λ k. get_or s1.doorbells k 0) (sym slots)
      ∙ doorbell-ring s id (min (length bytes) 4096) c.doorbells in
    let cleared : doorbell (ring s1 id' 0) id ≡ 0 =
      ap (λ k. get_or (ring s1 id' 0).doorbells k 0) slots ∙ doorbell-ring s1 id' 0 size in
    rw
      (
        send_switchless-sent phys_of s id buf bytes c quiet,
        poll_switchless-some phys_of s1 id' buf' out found' backed'
            (λ e. omega (arith, e, rung, some_byte)),
      )
      (
        refl,
        ap (λ n. some (copy_from phys_of s1.mem buf'.read_va (min n out))) rung,
        ap (λ (x : Option (List ℕ) × Shared). x.0)
            (poll_switchless-none phys_of (ring s1 id' 0) id out cleared),
      )
