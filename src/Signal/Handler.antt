-- ===== src/Signal/Handler.antt =====
-- A handler from its start to its return, and the system call that returns from it.
use chod_os.Base.{
  ℕ, ◌+◌, ◌*◌, ◌^◌, ◌≤◌, ◌<◌, ◌≡◌, ◌≢◌, refl, ap, ◌∙◌, true, some, arith, ◌==◌, ==_iff, length,
  bit_and, bit_and-lt, bit_or-lt, pow-lt, digit, digit-le-one, inl, inr, Bool-cases,
}
use native.Mathlib.Nat.{mod-eq_of_lt}
use chod_os.Base.Words.{not64, u64, u32}
use chod_os.Base.Cells.{Memory, load64, store64, load64-store64, load64-lt}
use chod_os.Process.Userproc.{SigAction, UserProc}
use chod_os.Signal.{
  Kernel, current_proc, update_proc, sigframe, handler_mask, sys_rt_sigreturn,
  deliver_pending_signals, sa_nodefer, restore_frame,
}
use chod_os.Signal.Calls.{syscall_dispatch}
use chod_os.Signal.Masks.{update_proc-current, handler_mask_lem}
use chod_os.Signal.Return.{FramesApart, CameBack, mask_found, registers, restore_frame-words}

-- The words of kernel `k'` at the interrupt frame are those of `k`, but for the segment registers.
abbrev pub Resumed : Kernel → ℕ → Kernel → ℕ → Type 0
Resumed k frame_rsp k' frame_rsp' =
    (i : ℕ)
    → i < 13
    → i ≢ 10
    → load64 k'.mem (frame_rsp' + 8 * i) ≡ load64 k.mem (frame_rsp + 8 * i)

-- A handler that was started and came back, with its signal frame as it was: `sys_rt_sigreturn` puts
-- every register back to what it was when the signal was delivered, and the mask of the process to
-- the one that the handler ran with. The signal frame fits below the stack pointer and lies clear of
-- the interrupt frame.
pub run_handler-sys_rt_sigreturn :
    (k : Kernel) (p : UserProc) (sig_idx : ℕ) (act : SigAction) (frame_rsp : ℕ) (k' : Kernel)
    (p' : UserProc) (frame_rsp' : ℕ)
    → 8 ≤ sigframe k.mem frame_rsp
    → FramesApart frame_rsp (sigframe k.mem frame_rsp)
    → CameBack k.mem frame_rsp
        (sig_idx + 1)
        act.handler
        (handler_mask p.sig_mask sig_idx act)
        k'.mem
        frame_rsp'
    → current_proc k' ≡ some p'
    → k'.current < length k'.procs
    → Resumed k frame_rsp (sys_rt_sigreturn k' frame_rsp').1 frame_rsp'
      × ((p'' : UserProc) × (current_proc (sys_rt_sigreturn k' frame_rsp').1 ≡ some p'')
          × (p''.pending_sigs ≡ p'.pending_sigs)
          × (p''.sig_mask ≡ u64 (handler_mask p.sig_mask sig_idx act)))
unfolding sys_rt_sigreturn
run_handler-sys_rt_sigreturn k p sig_idx act frame_rsp k' p' frame_rsp' high apart back runs h =
    let m = handler_mask p.sig_mask sig_idx act in
    (
      registers k.mem frame_rsp (sig_idx + 1) act.handler m k'.mem frame_rsp' high apart back,
      (
        record p' { sig_mask = load64 k'.mem (load64 k'.mem (frame_rsp' + 96) + 112) },
        update_proc-current k' p' _ _ runs h,
        refl,
        mask_found k.mem frame_rsp (sig_idx + 1) act.handler m k'.mem frame_rsp' high apart back,
      ),
    )

-- The mask comes back as the handler had it, not as it was before: unless SA_NODEFER is set, the signal
-- that was handled stays blocked after its handler has returned.
pub sys_rt_sigreturn-blocked :
    (k : Kernel) (p : UserProc) (sig_idx : ℕ) (act : SigAction) (frame_rsp : ℕ) (k' : Kernel)
    (p' : UserProc) (frame_rsp' : ℕ)
    → 8 ≤ sigframe k.mem frame_rsp
    → FramesApart frame_rsp (sigframe k.mem frame_rsp)
    → CameBack k.mem frame_rsp
        (sig_idx + 1)
        act.handler
        (handler_mask p.sig_mask sig_idx act)
        k'.mem
        frame_rsp'
    → current_proc k' ≡ some p'
    → k'.current < length k'.procs
    → bit_and act.flags sa_nodefer ≡ 0
    → sig_idx < 64
    → p.sig_mask < 2 ^ 64
    → act.mask < 2 ^ 64
    → (p'' : UserProc) × (current_proc (sys_rt_sigreturn k' frame_rsp').1 ≡ some p'')
      × (digit p''.sig_mask sig_idx ≡ 1)
unfolding handler_mask
sys_rt_sigreturn-blocked k p sig_idx act frame_rsp k' p' frame_rsp' high apart back runs h defer
      small masks acts =
    let (same, (p'', runs', pending, mask)) =
      run_handler-sys_rt_sigreturn k p sig_idx act frame_rsp k' p' frame_rsp' high apart back runs
        h in
    (
      p'',
      runs',
      ap (λ w. digit w sig_idx) (mask ∙ mod-eq_of_lt fits)
          ∙ ground (
            arith,
            handler_mask_lem p.sig_mask sig_idx sig_idx act,
            defer,
            digit-le-one (handler_mask p.sig_mask sig_idx act) sig_idx,
          ),
    )
  where
    fits : handler_mask p.sig_mask sig_idx act < 2 ^ 64
    fits = elim (Bool-cases (bit_and act.flags sa_nodefer == 0)) [
      | inl e ↦
          rw (e, handler_mask)
            (bit_or-lt 64 _ _ (bit_or-lt 64 _ _ masks (pow-lt sig_idx 64 small)) acts)
      | inr e ↦ rw (e, handler_mask) (bit_or-lt 64 _ _ masks acts)
    ]

count-current :
    (k : Kernel) (n : ℕ) → current_proc (record k { syscall_count = n }) ≡ current_proc k
unfolding current_proc
count-current k n = refl

nothing_pending :
    (k : Kernel) (p : UserProc) (frame_rsp : ℕ)
    → current_proc k ≡ some p
    → p.pending_sigs ≡ 0
    → (deliver_pending_signals k frame_rsp).1 ≡ k
unfolding deliver_pending_signals
nothing_pending k p frame_rsp runs none_pending =
    let empty : (bit_and p.pending_sigs (not64 p.sig_mask) == 0) ≡ true = (==_iff _ 0).1 (
      omega
        (arith, bit_and-lt 0 p.pending_sigs (not64 p.sig_mask) (omega (arith, none_pending)))) in
    rw (runs, empty, deliver_pending_signals) refl

-- The system call that `sys_rt_sigreturn` is, made by a process with no pending signal. The function
-- puts the result of the interrupted system call back into RAX, and `syscall_dispatch` then
-- overwrites it with the result of `sys_rt_sigreturn`, which is 0: the interrupted call's is lost.
pub syscall_dispatch-rax :
    (k : Kernel) (p : UserProc) (frame_rsp : ℕ)
    → current_proc k ≡ some p
    → k.current < length k.procs
    → p.pending_sigs ≡ 0
    → (load64 (sys_rt_sigreturn k frame_rsp).1.mem (frame_rsp + 64)
        ≡ load64 k.mem (load64 k.mem (frame_rsp + 96) + 40))
      × (load64
            (syscall_dispatch (λ (j : Kernel) f. (0, (sys_rt_sigreturn j f).1)) k frame_rsp).1.1.mem
            (frame_rsp + 64)
          ≡ 0)
unfolding sys_rt_sigreturn syscall_dispatch
syscall_dispatch-rax k p frame_rsp runs h none_pending = (
  restore_frame-words k.mem frame_rsp 8 (omega arith) ∙ mod-eq_of_lt (load64-lt _ _),
  ap (λ (j : Kernel). load64 j.mem (frame_rsp + 64))
        (nothing_pending (record (update_proc counted unmask) { mem = after }) (unmask p) frame_rsp
          (update_proc-current counted p unmask after
            (count-current k (u32 (k.syscall_count + 1)) ∙ runs) h)
          none_pending)
      ∙ load64-store64 _ (frame_rsp + 64) 0,
)
  where
    counted : Kernel
    counted = record k { syscall_count = u32 (k.syscall_count + 1) }

    unmask : UserProc → UserProc
    unmask q = record q { sig_mask = load64 k.mem (load64 k.mem (frame_rsp + 96) + 112) }

    after : Memory
    after = store64 (restore_frame k.mem frame_rsp) (frame_rsp + 64) 0
