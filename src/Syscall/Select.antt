-- ===== src/Syscall/Select.antt =====
-- `select` of syscall/pipe.rs over the user's memory, a byte at each address. A pass that finds
-- nothing waits for an interrupt: the loop takes the list of worlds that it wakes up in.
pub mod Tests
use chod_os.Base.{
  ℕ, zero, suc, ◌+◌, ◌-◌, ◌*◌, ◌/◌, ◌%◌, ◌^◌, ◌≤◌, ◌<◌, ◌≡◌, ◌≢◌, refl, ap, ◌∙◌, Bool, true, false,
  not, ◌&&◌, ◌||◌, Option, none, some, List, [], ◌∷◌, arith, if◌then◌else◌, ◌==◌, leb, ltb, min,
  bit_and, bit_or, inl, inr, ◌⊎◌, Bool-cases, bit_and-pow, digit-zero,
}
use chod_os.Syscall.Errno.{Result, val}
use chod_os.Syscall.Pipe.{World, is_read_ready, is_write_ready}

abbrev pub Memory : Type 0
Memory = ℕ → ℕ

abbrev pub set_bytes : ℕ
set_bytes = 128

pub fd_isset : Memory → ℕ → ℕ → Bool
fd_isset mem fds_ptr fd =
    if (fds_ptr == 0) || leb 1024 fd
    then false
    else not (bit_and (mem (fds_ptr + fd / 8)) (2 ^ (fd % 8)) == 0)

pub fd_set_bit : Memory → ℕ → ℕ → Memory
fd_set_bit mem fds_ptr fd = if (fds_ptr == 0) || leb 1024 fd then mem else λ a.
    if a == fds_ptr + fd / 8 then bit_or (mem a) (2 ^ (fd % 8)) else mem a

pub fds_zero : Memory → ℕ → Memory
fds_zero mem fds_ptr = if fds_ptr == 0 then mem else λ a.
    if leb fds_ptr a && ltb a (fds_ptr + set_bytes) then 0 else mem a

-- The copy of a set on the kernel's stack: byte `i` of it, all zero without a pointer.
pub copy_set : Memory → ℕ → ℕ → ℕ
copy_set mem fds_ptr i = if fds_ptr == 0 then 0 else mem (fds_ptr + i)

-- `orig[fd / 8] & (1 << (fd % 8)) != 0`
pub in_set : (ℕ → ℕ) → ℕ → Bool
in_set orig fd = not (bit_and (orig (fd / 8)) (2 ^ (fd % 8)) == 0)

-- The `for` loop of one pass, `left` file numbers from its end.
module _ (w : World) (orig_r orig_w : ℕ → ℕ) (rfds wfds : ℕ) where
  pub select_pass : ℕ → ℕ → Memory → ℕ → ℕ × Memory
  select_pass zero fd mem ready = (ready, mem)
  select_pass (suc left) fd mem ready =
      let reads = in_set orig_r fd && is_read_ready w fd in
      let mem' = if reads then fd_set_bit mem rfds fd else mem in
      let ready' = if reads then ready + 1 else ready in
      let writes = in_set orig_w fd && is_write_ready w fd in
      let mem'' = if writes then fd_set_bit mem' wfds fd else mem' in
      let ready'' = if writes then ready' + 1 else ready' in select_pass left (fd + 1) mem'' ready''

-- The loop of `sys_select_inner`: `none` if it is still waiting after the last world.
pub select_loop :
    List World → (ℕ → ℕ) → (ℕ → ℕ) → ℕ → ℕ → ℕ → Bool → Memory → Option (Result × Memory)
select_loop [] orig_r orig_w nfds rfds wfds blocking mem = none
select_loop (w ∷ ws) orig_r orig_w nfds rfds wfds blocking mem =
    let (ready, mem') =
      select_pass w orig_r orig_w rfds wfds (min nfds 1024) 0 (fds_zero (fds_zero mem rfds) wfds)
        0 in
    let again = select_loop ws orig_r orig_w nfds rfds wfds blocking mem' in
    if ltb 0 ready || not blocking then some (val ready, mem') else again

pub sys_select_inner : List World → ℕ → ℕ → ℕ → Bool → Memory → Option (Result × Memory)
sys_select_inner worlds nfds rfds wfds blocking mem =
    select_loop worlds (copy_set mem rfds) (copy_set mem wfds) nfds rfds wfds blocking mem

-- An i64 of the user's memory is not zero.
pub nonzero : ℕ → Memory → ℕ → Bool
nonzero zero mem a = false
nonzero (suc n) mem a = not (mem a == 0) || nonzero n mem (a + 1)

pub is_blocking : Memory → ℕ → Bool
unfolding nonzero
is_blocking mem timeout =
    if timeout == 0 then true else (nonzero 8 mem timeout || nonzero 8 mem (timeout + 8))

-- The first loop of `sys_select` clears the sets and leaves by `break`; its tests have no effect.
pub sys_select : List World → ℕ → ℕ → ℕ → ℕ → ℕ → Memory → Option (Result × Memory)
unfolding sys_select_inner
sys_select worlds nfds rfds wfds efds timeout mem =
    let blocking = is_blocking mem timeout in
    let cleared = fds_zero (fds_zero (fds_zero mem rfds) wfds) efds in
    sys_select_inner worlds nfds rfds wfds blocking cleared

pub sys_pselect6 : List World → ℕ → ℕ → ℕ → ℕ → ℕ → ℕ → Memory → Option (Result × Memory)
sys_pselect6 worlds nfds rfds wfds efds timeout sigmask mem =
    sys_select worlds nfds rfds wfds efds timeout mem

-- A set that has been cleared has no bit, whatever is cleared after it.
abbrev IsClear : (ℕ → ℕ) → Type 0
IsClear orig = (i : ℕ) → i < set_bytes → orig i ≡ 0

copy_set-fds_zero_self : (mem : Memory) (p : ℕ) → IsClear (copy_set (fds_zero mem p) p)
unfolding copy_set fds_zero
copy_set-fds_zero_self mem p i h = ground arith

copy_set-fds_zero_other :
    (mem : Memory) (p q : ℕ) → IsClear (copy_set mem p) → IsClear (copy_set (fds_zero mem q) p)
unfolding copy_set fds_zero
copy_set-fds_zero_other mem p q c i h = ground (arith, c i h)

in_set-clear : (orig : ℕ → ℕ) (fd : ℕ) → IsClear orig → fd < 1024 → in_set orig fd ≡ false
unfolding in_set
in_set-clear orig fd c h =
    rw (c (fd / 8) (omega arith), bit_and-pow 0 (fd % 8), digit-zero (fd % 8)) (ground arith)

select_pass-clear :
    (w : World) (orig_r orig_w : ℕ → ℕ) (rfds wfds left fd : ℕ) (mem : Memory) (ready : ℕ)
    → IsClear orig_r
    → IsClear orig_w
    → fd + left ≤ 1024
    → select_pass w orig_r orig_w rfds wfds left fd mem ready ≡ (ready, mem)
unfolding select_pass
select_pass-clear w orig_r orig_w rfds wfds zero fd mem ready r s h = refl
select_pass-clear w orig_r orig_w rfds wfds (suc left) fd mem ready r s h =
    rw (in_set-clear orig_r fd r (omega arith), in_set-clear orig_w fd s (omega arith))
      (select_pass-clear w orig_r orig_w rfds wfds left (fd + 1) mem ready r s (omega arith))

module _ (orig_r orig_w : ℕ → ℕ) (r : IsClear orig_r) (s : IsClear orig_w)
    (nfds rfds wfds : ℕ) where
  wait-clear :
      (ws : List World) (mem : Memory) → select_loop ws orig_r orig_w nfds rfds wfds true mem ≡ none
  unfolding select_loop
  wait-clear [] mem = refl
  wait-clear (w ∷ ws) mem =
      rw
        (select_pass-clear w orig_r orig_w rfds wfds (min nfds 1024) 0
          (fds_zero (fds_zero mem rfds) wfds) 0 r s (omega arith))
        (wait-clear ws (fds_zero (fds_zero mem rfds) wfds))

  once-clear :
      (w : World) (ws : List World) (mem : Memory)
      → select_loop (w ∷ ws) orig_r orig_w nfds rfds wfds false mem
        ≡ some (val 0, fds_zero (fds_zero mem rfds) wfds)
  unfolding select_loop
  once-clear w ws mem = rw (
      select_pass-clear w orig_r orig_w rfds wfds (min nfds 1024) 0
        (fds_zero (fds_zero mem rfds) wfds) 0 r s (omega arith))

-- Whatever is ready and whatever was asked for, `select` reports nothing, since it clears the sets
-- before it reads them: a call that does not block returns 0, and one that blocks never returns,
-- however often it is woken.
pub sys_select_reports_nothing :
    (w : World) (ws : List World) (nfds rfds wfds efds timeout : ℕ) (mem : Memory)
    → (is_blocking mem timeout ≡ false
        → (mem' : Memory) × (sys_select (w ∷ ws) nfds rfds wfds efds timeout mem
            ≡ some (val 0, mem')))
      × (is_blocking mem timeout ≡ true
          → sys_select (w ∷ ws) nfds rfds wfds efds timeout mem ≡ none)
unfolding sys_select sys_select_inner
sys_select_reports_nothing w ws nfds rfds wfds efds timeout mem =
    let m1 = fds_zero mem rfds in
    let m2 = fds_zero m1 wfds in
    let m3 = fds_zero m2 efds in
    let clear_r =
      copy_set-fds_zero_other m2 rfds efds
        (copy_set-fds_zero_other m1 rfds wfds (copy_set-fds_zero_self mem rfds)) in
    let clear_w = copy_set-fds_zero_other m2 wfds efds (copy_set-fds_zero_self m1 wfds) in
    (
      λ b. (
        fds_zero (fds_zero m3 rfds) wfds,
        rw b (
            once-clear (copy_set m3 rfds) (copy_set m3 wfds) clear_r clear_w nfds rfds wfds w ws
              m3),
      ),
      λ b. rw b (
          wait-clear (copy_set m3 rfds) (copy_set m3 wfds) clear_r clear_w nfds rfds wfds (w ∷ ws)
            m3),
    )
