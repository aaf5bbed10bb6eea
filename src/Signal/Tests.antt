-- ===== src/Signal/Tests.antt =====
-- A process that handles signal 10 on its stack at 65536, interrupted in a call whose frame is at 4096.
use chod_os.Base.{
  ℕ, ◌+◌, ◌≡◌, ◌<◌, ◌⊎◌, refl, sym, ◌∙◌, some, [], ◌∷◌, arith, replicate, set, inl, inr,
}
use chod_os.Base.Words.{u64}
use chod_os.Base.Cells.{
  Memory, load64, store64, load_bytes, store_bytes, load64-store64, store64_outside,
}
use chod_os.Process.Userproc.{SigAction, UserProc, running}
use chod_os.Signal.{
  Kernel, nothing, no_action, current_proc, sigframe, install_sigframe, handler_mask,
  sys_rt_sigreturn, deliver_pending_signals,
}
use chod_os.Signal.Calls.{syscall_dispatch, sys_rt_sigprocmask}
use chod_os.Signal.Delivery.{Deliverable, Taken, deliver_pending_signals_lem}
use chod_os.Signal.Masks.{Unblockable, sys_rt_sigprocmask-Unblockable}
use chod_os.Signal.Return.{CameBack}
use chod_os.Signal.Handler.{Resumed, run_handler-sys_rt_sigreturn, syscall_dispatch-rax}

abbrev act : SigAction
act = record { handler = 8192; flags = 0; mask = 4 }

abbrev proc : UserProc
proc = record {
  pid = 1;
  parent_pid = 0;
  state = running;
  user_cr3 = 0;
  kstack = 0;
  saved_frame_rsp = 0;
  sig_handlers = set (replicate 32 no_action) 9 act;
  sig_mask = 0;
  pending_sigs = 0;
  fs_base = 0;
  thread_group_pid = 0;
  child_tid_ptr = 0;
  cwd = [];
  mmap_next = 0;
  brk_base = 0;
  brk_cur = 0;
}

abbrev pending : UserProc
pending = record proc { pending_sigs = 512 }

abbrev stack_at : Memory
stack_at = store64 (λ q. 0) (4096 + 96) 65536

abbrev kernel_of : UserProc → Memory → Kernel
kernel_of p mem = record {
  procs = some p ∷ [];
  current = 0;
  global_pending = 0;
  syscall_count = 0;
  mem = mem;
}

abbrev start : Kernel
start = kernel_of pending stack_at

start-current : current_proc start ≡ some pending
unfolding current_proc
start-current = refl

deliver_pending_signals_lem_example :
    (((i : ℕ) → i < 64 → ¬ Deliverable pending i)
      × (deliver_pending_signals start 4096 ≡ (nothing, start)))
    ⊎ ((i : ℕ) × Taken start pending 4096 i)
deliver_pending_signals_lem_example =
    deliver_pending_signals_lem start pending 4096 start-current (omega arith) (omega arith) refl

stack_at-sigframe : sigframe stack_at 4096 ≡ 65280
unfolding load64 store64 load_bytes store_bytes
stack_at-sigframe = refl

-- The handler returned at once: the stack pointer is at the signal frame.
abbrev returned : Memory
returned = store64 (install_sigframe stack_at 4096 10 8192 (handler_mask 0 9 act)) (4096 + 96) 65280

returned-CameBack : CameBack stack_at 4096 10 8192 (handler_mask 0 9 act) returned 4096
returned-CameBack = record {
  points = load64-store64 _ (4096 + 96) 65280 ∙ sym stack_at-sigframe;
  kept = λ q p r. store64_outside _ (4096 + 96) 65280 q (inr (omega (arith, p, stack_at-sigframe)));
}

run_handler-sys_rt_sigreturn_example :
    Resumed start 4096 (sys_rt_sigreturn (kernel_of proc returned) 4096).1 4096
    × ((p'' : UserProc) × (current_proc (sys_rt_sigreturn (kernel_of proc returned) 4096).1
          ≡ some p'')
        × (p''.pending_sigs ≡ 0)
        × (p''.sig_mask ≡ u64 (handler_mask 0 9 act)))
unfolding current_proc
run_handler-sys_rt_sigreturn_example =
    run_handler-sys_rt_sigreturn start proc 9 act 4096 (kernel_of proc returned) proc 4096
      (omega (arith, stack_at-sigframe)) (inl (omega (arith, stack_at-sigframe))) returned-CameBack
      refl (omega arith)

syscall_dispatch-rax_example :
    (load64 (sys_rt_sigreturn (kernel_of proc returned) 4096).1.mem (4096 + 64)
      ≡ load64 returned (load64 returned (4096 + 96) + 40))
    × (load64
          (syscall_dispatch
            (λ (j : Kernel) f. (0, (sys_rt_sigreturn j f).1))
            (kernel_of proc returned)
            4096).1.1.mem
          (4096 + 64)
        ≡ 0)
unfolding current_proc
syscall_dispatch-rax_example =
    syscall_dispatch-rax (kernel_of proc returned) proc 4096 refl (omega arith) refl

-- A request to block SIGKILL and SIGINT.
abbrev asks : Kernel
asks = kernel_of proc (store64 (λ q. 0) 512 258)

sys_rt_sigprocmask-Unblockable_example :
    (p' : UserProc) × (current_proc (sys_rt_sigprocmask asks 0 512 0).1 ≡ some p')
    × Unblockable p'.sig_mask
unfolding current_proc
sys_rt_sigprocmask-Unblockable_example =
    sys_rt_sigprocmask-Unblockable asks proc 0 512 0 refl (omega arith) (refl, refl)
