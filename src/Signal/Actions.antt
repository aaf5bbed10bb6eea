-- ===== src/Signal/Actions.antt =====
-- `sys_rt_sigaction` of signal.rs: what is registered is what is reported.
use chod_os.Base.{
  ℕ, ◌+◌, ◌-◌, ◌*◌, ◌≤◌, ◌<◌, ◌≡◌, ◌≢◌, refl, ap, ◌∙◌, true, false, ◌||◌, some, arith, ◌==◌, ltb,
  length, get_or, set, get_or-set_self, inl, inr, ◌⊎◌, Bool-cases,
}
use native.Mathlib.Nat.{mod-eq_of_lt}
use chod_os.Base.Words.{u64}
use chod_os.Base.Cells.{Memory, load64, store_words, load64-store_words, load64-lt}
use chod_os.Syscall.Errno.{val, einval}
use chod_os.Process.Userproc.{SigAction, UserProc}
use chod_os.Signal.{Kernel, no_action, current_proc, update_proc, nsig, sigkill, sigstop}
use chod_os.Signal.Calls.{sys_rt_sigaction, old_action, action_words}
use chod_os.Signal.Masks.{update_proc-some}

-- The three words of an action at address `a`, which leave out `sa_restorer`.
abbrev pub action_at : Memory → ℕ → SigAction
action_at mem a = record {
  handler = load64 mem a;
  flags = load64 mem (a + 8);
  mask = load64 mem (a + 24);
}

old_action-some :
    (k : Kernel) (p : UserProc) (i : ℕ)
    → current_proc k ≡ some p
    → old_action k i ≡ get_or p.sig_handlers i no_action
unfolding old_action
old_action-some k p i runs = rw (runs, old_action) refl

register_eq :
    (k : Kernel) (signum new_vaddr : ℕ)
    → 1 ≤ signum
    → signum ≤ nsig
    → new_vaddr ≢ 0
    → signum ≢ sigkill
    → signum ≢ sigstop
    → sys_rt_sigaction k signum new_vaddr 0 ≡ (
      val 0,
      update_proc k (λ (p : UserProc). record p {
        sig_handlers = set p.sig_handlers (signum - 1) (action_at k.mem new_vaddr);
      }),
    )
unfolding sys_rt_sigaction
register_eq k signum new_vaddr low high given not_kill not_stop =
    let e1 : (signum == 0) ≡ false = ground arith in
    let e2 : ltb nsig signum ≡ false = ground arith in
    let e3 : (new_vaddr == 0) ≡ false = ground (arith, given) in
    let e4 : (signum == sigkill) ≡ false = ground (arith, not_kill) in
    let e5 : (signum == sigstop) ≡ false = ground (arith, not_stop) in
    rw (e1, e2, e3, e4, e5, sys_rt_sigaction) refl

query_eq :
    (k : Kernel) (signum old_vaddr : ℕ)
    → 1 ≤ signum
    → signum ≤ nsig
    → old_vaddr ≢ 0
    → sys_rt_sigaction k signum 0 old_vaddr ≡ (
      val 0,
      record k { mem = store_words k.mem old_vaddr (action_words (old_action k (signum - 1))) },
    )
unfolding sys_rt_sigaction
query_eq k signum old_vaddr low high given =
    let e1 : (signum == 0) ≡ false = ground arith in
    let e2 : ltb nsig signum ≡ false = ground arith in
    let e3 : (old_vaddr == 0) ≡ false = ground (arith, given) in
    rw (e1, e2, e3, sys_rt_sigaction) refl

-- The words at `old_vaddr` are those of the action at `a` in memory `m`.
abbrev pub SameAction : Memory → ℕ → Memory → ℕ → Type 0
SameAction mem old_vaddr m a =
    (load64 mem old_vaddr ≡ load64 m a)
    × (load64 mem (old_vaddr + 8) ≡ load64 m (a + 8))
    × (load64 mem (old_vaddr + 24) ≡ load64 m (a + 24))

reported :
    (mem : Memory) (old_vaddr : ℕ) (m : Memory) (a : ℕ)
    → SameAction (store_words mem old_vaddr (action_words (action_at m a))) old_vaddr m a
reported mem old_vaddr m a = (
  at 0 _ a (omega arith) (omega arith) refl,
  at 1 _ _ (omega arith) refl refl,
  at 3 _ _ (omega arith) refl refl,
)
  where
    at :
        (i b c : ℕ)
        → i < 4
        → b ≡ old_vaddr + 8 * i
        → get_or (action_words (action_at m a)) i 0 ≡ load64 m c
        → load64 (store_words mem old_vaddr (action_words (action_at m a))) b ≡ load64 m c
    at i b c h e s =
        load64-store_words mem old_vaddr (action_words (action_at m a)) i b h e
        ∙ ap (λ w. u64 w) s
        ∙ mod-eq_of_lt (load64-lt m c)

-- The action that a process registers for a signal is the one that a later query reports, word for
-- word but for the restorer, and both calls succeed. The signal is one of 1 to 32, neither SIGKILL nor
-- SIGSTOP, and the table of handlers has 32 entries.
pub sys_rt_sigaction-query :
    (k : Kernel) (p : UserProc) (signum new_vaddr old_vaddr : ℕ)
    → current_proc k ≡ some p
    → k.current < length k.procs
    → length p.sig_handlers ≡ 32
    → 1 ≤ signum
    → signum ≤ nsig
    → signum ≢ sigkill
    → signum ≢ sigstop
    → new_vaddr ≢ 0
    → old_vaddr ≢ 0
    → let (r, k') = sys_rt_sigaction k signum new_vaddr 0 in
      let (r', k'') = sys_rt_sigaction k' signum 0 old_vaddr in
      (r ≡ val 0) × (r' ≡ val 0) × SameAction k''.mem old_vaddr k.mem new_vaddr
sys_rt_sigaction-query k p signum new_vaddr old_vaddr runs h size low high not_kill not_stop given
      out =
    let f : UserProc → UserProc = λ q. record q {
      sig_handlers = set q.sig_handlers (signum - 1) (action_at k.mem new_vaddr);
    } in
    let stored : old_action (update_proc k f) (signum - 1) ≡ action_at k.mem new_vaddr =
      old_action-some (update_proc k f) (f p) (signum - 1) (update_proc-some k p f runs h)
      ∙ get_or-set_self p.sig_handlers (signum - 1) _ no_action (omega (arith, size)) in
    rw
      (
        register_eq k signum new_vaddr low high given not_kill not_stop,
        query_eq (update_proc k f) signum old_vaddr low high out,
        stored,
      )
      (refl, refl, reported _ old_vaddr k.mem new_vaddr)

-- SIGKILL and SIGSTOP get no handler, whatever the rest of the call is: with an action the call is
-- refused, and no process changes.
pub sys_rt_sigaction-refused :
    (k : Kernel) (signum new_vaddr old_vaddr : ℕ)
    → new_vaddr ≢ 0
    → (signum ≡ sigkill) ⊎ (signum ≡ sigstop)
    → ((sys_rt_sigaction k signum new_vaddr old_vaddr).0 ≡ einval)
      × ((sys_rt_sigaction k signum new_vaddr old_vaddr).1.procs ≡ k.procs)
unfolding sys_rt_sigaction
sys_rt_sigaction-refused k signum new_vaddr old_vaddr given special =
    let e1 : (signum == 0) ≡ false = ground (arith, special) in
    let e2 : ltb nsig signum ≡ false = ground (arith, special) in
    let e3 : (new_vaddr == 0) ≡ false = ground (arith, given) in
    let e4 : ((signum == sigkill) || (signum == sigstop)) ≡ true = ground (arith, special) in
    elim (Bool-cases (old_vaddr == 0)) [
      | inl e ↦ rw (e1, e2, e3, e4, e, sys_rt_sigaction) (refl, refl)
      | inr e ↦ rw (e1, e2, e3, e4, e, sys_rt_sigaction) (refl, refl)
    ]
