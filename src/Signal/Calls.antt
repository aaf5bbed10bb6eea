-- ===== src/Signal/Calls.antt =====
-- The system calls of signal.rs on handlers and masks, and `syscall_dispatch`.
use chod_os.Base.{
  ℕ, ◌+◌, ◌-◌, ◌^◌, not, ◌||◌, Option, none, some, List, [], ◌∷◌, if◌then◌else◌, ◌==◌, ltb, bit_and,
  bit_or, get_or, set,
}
use chod_os.Base.Words.{u32, not64}
use chod_os.Base.Cells.{load64, store64, store_words}
use chod_os.Syscall.Errno.{Result, val, einval}
use chod_os.Process.Userproc.{SigAction, UserProc}
use chod_os.Signal.{
  Kernel, Delivered, nsig, sigkill, sigstop, no_action, current_proc, update_proc,
  deliver_pending_signals,
}

unfoldable pub old_action : Kernel → ℕ → SigAction
old_action k sig_idx = elim (current_proc k) [
  | none ↦ no_action
  | some p ↦ get_or p.sig_handlers sig_idx no_action
]

abbrev pub action_words : SigAction → List ℕ
action_words act = act.handler ∷ act.flags ∷ 0 ∷ act.mask ∷ []

unfoldable pub sys_rt_sigaction : Kernel → ℕ → ℕ → ℕ → Result × Kernel
sys_rt_sigaction k signum new_vaddr old_vaddr =
    let sig_idx = signum - 1 in
    let k1 =
      if not (old_vaddr == 0)
      then record k { mem = store_words k.mem old_vaddr (action_words (old_action k sig_idx)) }
      else k in
    let act : SigAction = record {
      handler = load64 k1.mem new_vaddr;
      flags = load64 k1.mem (new_vaddr + 8);
      mask = load64 k1.mem (new_vaddr + 24);
    } in
    let k2 =
      update_proc k1
        (λ (p : UserProc). record p { sig_handlers = set p.sig_handlers sig_idx act }) in
    if (signum == 0) || ltb nsig signum
    then (einval, k)
    else (if new_vaddr == 0
        then (val 0, k1)
        else (if (signum == sigkill) || (signum == sigstop) then (einval, k1) else (val 0, k2)))

-- The bits of SIGKILL and SIGSTOP.
abbrev pub cant_block : ℕ
cant_block = bit_or (2 ^ (sigkill - 1)) (2 ^ (sigstop - 1))

-- The mask that a call asks for, `none` for an unknown `how`.
unfoldable pub requested_mask : ℕ → ℕ → ℕ → Option ℕ
requested_mask how old_mask new_set =
    if how == 0
    then some (bit_or old_mask (bit_and new_set (not64 cant_block)))
    else (if how == 1
        then some (bit_and old_mask (not64 new_set))
        else (if how == 2 then some (bit_and new_set (not64 cant_block)) else none))

unfoldable pub old_mask_of : Kernel → ℕ
old_mask_of k = elim (current_proc k) [ none ↦ 0 | some p ↦ p.sig_mask ]

abbrev pub report_mask : Kernel → ℕ → ℕ → Kernel
report_mask k old_vaddr old_mask =
    if not (old_vaddr == 0) then record k { mem = store64 k.mem old_vaddr old_mask } else k

unfoldable pub apply_mask : Kernel → ℕ → ℕ → ℕ → Result × Kernel
apply_mask k how old_mask set_vaddr = elim (requested_mask how old_mask (load64 k.mem set_vaddr)) [
  | none ↦ (einval, k)
  | some new_mask ↦ (val 0, update_proc k (λ (p : UserProc). record p { sig_mask = new_mask }))
]

unfoldable pub sys_rt_sigprocmask : Kernel → ℕ → ℕ → ℕ → Result × Kernel
sys_rt_sigprocmask k how set_vaddr old_vaddr =
    let old_mask = old_mask_of k in
    let k1 = report_mask k old_vaddr old_mask in
    if set_vaddr == 0 then (val 0, k1) else apply_mask k1 how old_mask set_vaddr

-- The system call itself, with its result as an unsigned word, is a parameter.
unfoldable pub syscall_dispatch : (Kernel → ℕ → ℕ × Kernel) → Kernel → ℕ → ℕ × (Delivered × Kernel)
syscall_dispatch dispatch k frame_rsp =
    let (ret, k1) = dispatch (record k { syscall_count = u32 (k.syscall_count + 1) }) frame_rsp in
    let k2 = record k1 { mem = store64 k1.mem (frame_rsp + 64) ret } in
    (ret, deliver_pending_signals k2 frame_rsp)
