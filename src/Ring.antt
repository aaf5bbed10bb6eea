-- ===== src/Ring.antt =====
-- The single-producer ring that syscall/pipe.rs, kbd.rs and input_direct.rs each keep in statics: an
-- array, the index `head` of the oldest entry and the index `tail` of the next free slot. One slot
-- stays empty, so that `head == tail` means that nothing is stored.
pub mod View
use chod_os.Base.{
  ℕ, ◌+◌, ◌%◌, Bool, not, Option, none, some, List, if◌then◌else◌, ◌==◌, get_or, set,
}

pub record Ring : Type 0 where
  pub buf : List ℕ
  pub head : ℕ
  pub tail : ℕ

unfoldable pub has_data : Ring → Bool
has_data r = not (r.head == r.tail)

module _ (cap : ℕ) where
  -- `none` where the ring is full.
  unfoldable pub push : Ring → ℕ → Option Ring
  push r x =
      let next = (r.tail + 1) % cap in
      if next == r.head then none else some (record r { buf = set r.buf r.tail x; tail = next })

  -- `none` where the ring is empty.
  unfoldable pub pop : Ring → Option (ℕ × Ring)
  pop r =
      if r.head == r.tail
      then none
      else some (get_or r.buf r.head 0, record r { head = (r.head + 1) % cap })
