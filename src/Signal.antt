-- ===== src/Signal.antt =====
-- signal.rs: pending and blocked signals, the frames that a handler runs on and returns through, and
-- `syscall_dispatch` of interrupts/handlers.rs, which delivers signals after each system call.
pub mod Actions
pub mod Calls
pub mod Delivery
pub mod Handler
pub mod Masks
pub mod Return
pub mod Tests
use chod_os.Base.{
  ℕ, zero, suc, ◌+◌, ◌-◌, ◌*◌, ◌/◌, ◌%◌, ◌^◌, Bool, true, false, not, ◌&&◌, ◌||◌, Option, none,
  some, List, [], ◌∷◌, if◌then◌else◌, ◌==◌, ltb, leb, bit_and, bit_or, get_or, set, length,
  trailing_zeros,
}
use chod_os.Base.Words.{u32, u64, sub64, not64}
use chod_os.Base.Cells.{Memory, load64, store64, store_words, copy_bytes}
use chod_os.Syscall.Errno.{Result, val, einval}
use chod_os.Process.Userproc.{SigAction, UserProc}

abbrev pub nsig : ℕ
nsig = 32

abbrev pub sigkill : ℕ
sigkill = 9

abbrev pub sigchld : ℕ
sigchld = 17

abbrev pub sigcont : ℕ
sigcont = 18

abbrev pub sigstop : ℕ
sigstop = 19

abbrev pub sigwinch : ℕ
sigwinch = 28

abbrev pub sig_dfl : ℕ
sig_dfl = 0

abbrev pub sig_ign : ℕ
sig_ign = 1

abbrev pub sa_nodefer : ℕ
sa_nodefer = 2 ^ 30

abbrev pub sa_resethand : ℕ
sa_resethand = 2 ^ 31

abbrev pub no_action : SigAction
no_action = record { handler = 0; flags = 0; mask = 0 }

-- The table of user processes, the slot that runs, and the memory: kernel stacks and user space.
pub record Kernel : Type 0 where
  pub procs : List (Option UserProc)
  pub current : ℕ
  pub global_pending : ℕ
  pub syscall_count : ℕ
  pub mem : Memory

unfoldable pub current_proc : Kernel → Option UserProc
current_proc k = get_or k.procs k.current none

abbrev pub put_proc : Kernel → UserProc → Kernel
put_proc k p = record k { procs = set k.procs k.current (some p) }

-- `if let Some(ref mut p) = t[cur]`
unfoldable pub update_proc : Kernel → (UserProc → UserProc) → Kernel
update_proc k f = elim (current_proc k) [ none ↦ k | some p ↦ put_proc k (f p) ]

unfoldable pub raise_signal : Kernel → ℕ → Kernel
raise_signal k signum = if (signum == 0) || ltb nsig signum then k else elim (current_proc k) [
  | some p ↦ put_proc k (record p { pending_sigs = bit_or p.pending_sigs (2 ^ (signum - 1)) })
  | none ↦ record k { global_pending = bit_or k.global_pending (2 ^ (signum - 1)) }
]

abbrev is_pid : ℕ → Option UserProc → Bool
is_pid pid slot = elim slot [ none ↦ false | some p ↦ p.pid == pid ]

abbrev with_sigchld : Option UserProc → Option UserProc
with_sigchld slot = elim slot [
  | none ↦ none
  | some p ↦ some (record p { pending_sigs = bit_or p.pending_sigs (2 ^ (sigchld - 1)) })
]

unfoldable pub raise_sigchld_to : List (Option UserProc) → ℕ → List (Option UserProc)
raise_sigchld_to [] parent_pid = []
raise_sigchld_to (slot ∷ t) parent_pid =
    let later = slot ∷ raise_sigchld_to t parent_pid in
    if is_pid parent_pid slot then with_sigchld slot ∷ t else later

-- `mov rax, 15; int 0x80; nop` seven times.
abbrev pub trampoline : List ℕ
trampoline =
    72 ∷ 199 ∷ 192 ∷ 15 ∷ 0 ∷ 0 ∷ 0 ∷ 205 ∷ 128 ∷ 144 ∷ 144 ∷ 144 ∷ 144 ∷ 144 ∷ 144 ∷ 144 ∷ []

-- The words of the signal frame from offset 16 on: rip, rflags, rsp, rax, rcx, rdx, rsi, rdi, r8 to
-- r11 and the mask.
abbrev pub saved_words : Memory → ℕ → ℕ → List ℕ
saved_words mem frame_rsp new_mask =
    load64 mem (frame_rsp + 72)
    ∷ load64 mem (frame_rsp + 88)
    ∷ load64 mem (frame_rsp + 96)
    ∷ load64 mem (frame_rsp + 64)
    ∷ load64 mem (frame_rsp + 56)
    ∷ load64 mem (frame_rsp + 48)
    ∷ load64 mem (frame_rsp + 40)
    ∷ load64 mem (frame_rsp + 32)
    ∷ load64 mem (frame_rsp + 24)
    ∷ load64 mem (frame_rsp + 16)
    ∷ load64 mem (frame_rsp + 8)
    ∷ load64 mem (frame_rsp + 0)
    ∷ new_mask
    ∷ []

-- Where the frame goes on the user's stack.
abbrev pub sigframe : Memory → ℕ → ℕ
sigframe mem frame_rsp = bit_and (load64 mem (frame_rsp + 96) - (128 + 120)) (not64 15)

unfoldable pub install_sigframe : Memory → ℕ → ℕ → ℕ → ℕ → Memory
install_sigframe mem frame_rsp signum handler new_mask =
    let sf = sigframe mem frame_rsp in
    let m1 = copy_bytes mem sf trampoline in
    let m2 = store_words m1 (sf + 16) (saved_words mem frame_rsp new_mask) in
    let new_rsp = sub64 sf 8 in
    let m3 = store64 m2 new_rsp sf in
    let m4 = store64 m3 (frame_rsp + 32) signum in
    let m5 = store64 m4 (frame_rsp + 40) 0 in
    let m6 = store64 m5 (frame_rsp + 48) 0 in
    let m7 = store64 m6 (frame_rsp + 72) handler in store64 m7 (frame_rsp + 96) new_rsp

-- What became of a pending signal. `exits` is the call of `sys_exit_impl`; `panics` is a signal
-- number with no entry in the table of handlers.
pub data Delivered : Type 0 where
  nothing : Delivered
  ignored : ℕ → Delivered
  exits : ℕ → Delivered
  handled : ℕ → Delivered
  panics : Delivered

-- The mask while the handler of signal `sig_idx + 1` runs.
unfoldable pub handler_mask : ℕ → ℕ → SigAction → ℕ
handler_mask sig_mask sig_idx act =
    let m = if bit_and act.flags sa_nodefer == 0 then bit_or sig_mask (2 ^ sig_idx) else sig_mask in
    bit_or m act.mask

unfoldable pub run_handler : Kernel → UserProc → ℕ → SigAction → ℕ → Kernel
run_handler k p sig_idx act frame_rsp =
    let m = handler_mask p.sig_mask sig_idx act in
    let handlers =
      if not (bit_and act.flags sa_resethand == 0)
      then set p.sig_handlers sig_idx no_action
      else p.sig_handlers in
    record (put_proc k (record p { sig_mask = m; sig_handlers = handlers })) {
      mem = install_sigframe k.mem frame_rsp (sig_idx + 1) act.handler m;
    }

abbrev pub ignored_by_default : ℕ → Bool
ignored_by_default signum = (signum == sigchld) || (signum == sigcont) || (signum == sigwinch)

-- `p` is the process after the signal was taken from those pending.
unfoldable pub take_action : Kernel → UserProc → ℕ → ℕ → Delivered × Kernel
take_action k p sig_idx frame_rsp =
    let act = get_or p.sig_handlers sig_idx no_action in
    if leb (length p.sig_handlers) sig_idx
    then (panics, put_proc k p)
    else (if act.handler == sig_dfl
        then (
          if ignored_by_default (sig_idx + 1)
              then ignored (sig_idx + 1)
              else exits (128 + (sig_idx + 1)),
          put_proc k p,
        )
        else (if act.handler == sig_ign
            then (ignored (sig_idx + 1), put_proc k p)
            else (handled (sig_idx + 1), run_handler k p sig_idx act frame_rsp)))

unfoldable pub deliver_pending_signals : Kernel → ℕ → Delivered × Kernel
deliver_pending_signals k frame_rsp = elim (current_proc k) [
  | none ↦ (nothing, k)
  | some p ↦
      let deliverable = bit_and p.pending_sigs (not64 p.sig_mask) in
      let sig_idx = trailing_zeros 64 deliverable in
      if deliverable == 0
      then (nothing, k)
      else take_action k (record p { pending_sigs = bit_and p.pending_sigs (not64 (2 ^ sig_idx)) })
          sig_idx frame_rsp
]

-- The words of the interrupted context as `sys_rt_sigreturn` puts them back, r11 to rip.
abbrev pub restored_words : Memory → ℕ → List ℕ
restored_words mem sf =
    load64 mem (sf + 104)
    ∷ load64 mem (sf + 96)
    ∷ load64 mem (sf + 88)
    ∷ load64 mem (sf + 80)
    ∷ load64 mem (sf + 72)
    ∷ load64 mem (sf + 64)
    ∷ load64 mem (sf + 56)
    ∷ load64 mem (sf + 48)
    ∷ load64 mem (sf + 40)
    ∷ load64 mem (sf + 16)
    ∷ []

unfoldable pub restore_frame : Memory → ℕ → Memory
restore_frame mem frame_rsp =
    let sf = load64 mem (frame_rsp + 96) in
    store64
      (store64 (store_words mem frame_rsp (restored_words mem sf)) (frame_rsp + 88)
        (load64 mem (sf + 24)))
      (frame_rsp + 96) (load64 mem (sf + 32))

unfoldable pub sys_rt_sigreturn : Kernel → ℕ → Result × Kernel
sys_rt_sigreturn k frame_rsp =
    let saved_mask = load64 k.mem (load64 k.mem (frame_rsp + 96) + 112) in
    let k' = update_proc k (λ (p : UserProc). record p { sig_mask = saved_mask }) in
    (val 0, record k' { mem = restore_frame k.mem frame_rsp })
