-- ===== src/Signal/Masks.antt =====
-- The masks and the table of handlers of signal.rs.
use chod_os.Base.{
  ℕ, zero, suc, ◌-◌, ◌^◌, ◌≤◌, ◌<◌, ◌≡◌, refl, sym, ap, ◌∙◌, Bool, true, not, none, some,
  Option-cases, arith, if◌then◌else◌, ◌==◌, inl, inr, ◌⊎◌, ℕ_discrete, length, Bool-cases, ◌&&◌,
  get_or, min, max, bit_and, bit_or, digit, digit-bit_and, digit-bit_or, digit-complement,
  digit-pow_self, digit-pow_ne, get_or-set_self,
}
use chod_os.Base.Words.{not64}
use chod_os.Base.Cells.{Memory, load64, load64-lt}
use chod_os.Process.Userproc.{SigAction, UserProc}
use chod_os.Signal.{Kernel, sa_nodefer, current_proc, put_proc, update_proc, handler_mask}
use chod_os.Signal.Calls.{
  cant_block, requested_mask, apply_mask, report_mask, old_mask_of, sys_rt_sigprocmask,
}

-- SIGKILL and SIGSTOP are not blocked.
abbrev pub Unblockable : ℕ → Type 0
Unblockable mask = (digit mask 8 ≡ 0) × (digit mask 18 ≡ 0)

digit-cleared :
    (a b i : ℕ)
    → b < 2 ^ 64
    → i < 64
    → digit (bit_and a (not64 b)) i ≡ min (digit a i) (1 - digit b i)
digit-cleared a b i h k = omega (arith, digit-bit_and a (not64 b) i, digit-complement 64 b i h k)

-- The mask that a call asks for, place by place: what `how` says, with SIGKILL and SIGSTOP left out.
pub requested_mask_lem :
    (how old_mask new_set i : ℕ)
    → new_set < 2 ^ 64
    → i < 64
    → (requested_mask how old_mask new_set ≡ none) × (2 < how)
      ⊎ ((m : ℕ) × (requested_mask how old_mask new_set ≡ some m)
          × (how ≤ 2)
          × (digit m i ≡ (
              if how == 0
              then max (digit old_mask i) (min (digit new_set i) (1 - digit cant_block i))
              else (if how == 1
                  then min (digit old_mask i) (1 - digit new_set i)
                  else min (digit new_set i) (1 - digit cant_block i)))))
unfolding requested_mask
requested_mask_lem zero old_mask new_set i h k = inr (
  bit_or old_mask (bit_and new_set (not64 cant_block)),
  refl,
  omega arith,
  omega (
    arith,
    digit-bit_or old_mask (bit_and new_set (not64 cant_block)) i,
    digit-cleared new_set cant_block i (omega arith) k,
  ),
)
requested_mask_lem (suc zero) old_mask new_set i h k =
    inr (bit_and old_mask (not64 new_set), refl, omega arith, digit-cleared old_mask new_set i h k)
requested_mask_lem (suc (suc zero)) old_mask new_set i h k = inr (
  bit_and new_set (not64 cant_block),
  refl,
  omega arith,
  digit-cleared new_set cant_block i (omega arith) k,
)
requested_mask_lem (suc (suc (suc how))) old_mask new_set i h k = inl (ground arith, omega arith)

-- The mask after a call, place by place, where `asked` says that there is a set.
abbrev pub mask_after : Bool → ℕ → ℕ → ℕ → ℕ → ℕ
mask_after asked how old_mask new_set i =
    let stays = digit old_mask i in
    let allowed = min (digit new_set i) (1 - digit cant_block i) in
    if not asked
    then stays
    else (if how == 0
        then max stays allowed
        else (if how == 1
            then min stays (1 - digit new_set i)
            else (if how == 2 then allowed else stays)))

mask_after-cant_block :
    (asked : Bool) (how old_mask new_set i : ℕ)
    → digit cant_block i ≡ 1
    → digit old_mask i ≡ 0
    → mask_after asked how old_mask new_set i ≡ 0
mask_after-cant_block asked how old_mask new_set i c clear = ground (arith, c, clear)

some_injective : (m n : ℕ) → some m ≡ some n → m ≡ n
some_injective m n e = cc

update_proc-runs :
    (k : Kernel) (p : UserProc) (f : UserProc → UserProc)
    → current_proc k ≡ some p
    → update_proc k f ≡ put_proc k (f p)
unfolding update_proc
update_proc-runs k p f runs = rw (runs, update_proc) refl

put_proc-current :
    (k : Kernel) (p : UserProc) → k.current < length k.procs → current_proc (put_proc k p) ≡ some p
unfolding current_proc
put_proc-current k p h = get_or-set_self k.procs k.current (some p) none h

pub update_proc-some :
    (k : Kernel) (p : UserProc) (f : UserProc → UserProc)
    → current_proc k ≡ some p
    → k.current < length k.procs
    → current_proc (update_proc k f) ≡ some (f p)
unfolding current_proc
update_proc-some k p f runs h =
    ap (λ (j : Kernel). get_or j.procs j.current none) (update_proc-runs k p f runs)
    ∙ get_or-set_self k.procs k.current (some (f p)) none h

pub update_proc-current :
    (k : Kernel) (p : UserProc) (f : UserProc → UserProc) (mem : Memory)
    → current_proc k ≡ some p
    → k.current < length k.procs
    → current_proc (record (update_proc k f) { mem = mem }) ≡ some (f p)
unfolding current_proc
update_proc-current k p f mem runs h = update_proc-some k p f runs h

-- Process `p'` of kernel `k'` has the mask that the call asks for.
abbrev pub Remasked : Kernel → UserProc → Bool → ℕ → ℕ → Type 0
Remasked k' p asked how set_vaddr =
    (p' : UserProc) × (current_proc k' ≡ some p')
    × ((i : ℕ)
        → i < 64
        → digit p'.sig_mask i ≡ mask_after asked how p.sig_mask (load64 k'.mem set_vaddr) i)

apply_mask_lem :
    (k : Kernel) (p : UserProc) (how set_vaddr : ℕ)
    → current_proc k ≡ some p
    → k.current < length k.procs
    → Remasked (apply_mask k how p.sig_mask set_vaddr).1 p true how set_vaddr
unfolding apply_mask
apply_mask_lem k p how set_vaddr runs h =
    elim (Option-cases (requested_mask how p.sig_mask (load64 k.mem set_vaddr))) [
      | inl missing ↦ rw (missing, apply_mask) (p, runs, λ i q. unchanged i q missing)
      | inr (m, found) ↦
          rw
            (
              found,
              update_proc-runs k p (λ (q : UserProc). record q { sig_mask = m }) runs,
              apply_mask,
            )
            (
              record p { sig_mask = m },
              put_proc-current k (record p { sig_mask = m }) h,
              λ i q. changed i q m found,
            )
    ]
  where
    new_set : ℕ
    new_set = load64 k.mem set_vaddr

    unchanged :
        (i : ℕ)
        → i < 64
        → requested_mask how p.sig_mask (load64 k.mem set_vaddr) ≡ none
        → digit p.sig_mask i ≡ mask_after true how p.sig_mask (load64 k.mem set_vaddr) i
    unchanged i q missing =
        elim (requested_mask_lem how p.sig_mask (load64 k.mem set_vaddr) i (load64-lt _ _) q) [
          | inl (e, above) ↦ ground (arith, above)
          | inr (m, e, le, d) ↦ cc (missing, e)
        ]

    changed :
        (i : ℕ)
        → i < 64
        → (m : ℕ) → requested_mask how p.sig_mask (load64 k.mem set_vaddr) ≡ some m
        → digit m i ≡ mask_after true how p.sig_mask (load64 k.mem set_vaddr) i
    changed i q m found =
        elim (requested_mask_lem how p.sig_mask (load64 k.mem set_vaddr) i (load64-lt _ _) q) [
          | inl (e, above) ↦ cc (found, e)
          | inr (m', e, le, d) ↦
              let same : m ≡ m' = some_injective m m' (sym found ∙ e) in
              ground (arith, le, d, ap (λ w. digit w i) same)
        ]

report_mask-current :
    (k : Kernel) (old_vaddr m : ℕ)
    → (current_proc (report_mask k old_vaddr m) ≡ current_proc k)
      × (length (report_mask k old_vaddr m).procs ≡ length k.procs)
      × ((report_mask k old_vaddr m).current ≡ k.current)
unfolding current_proc
report_mask-current k old_vaddr m = elim (Bool-cases (old_vaddr == 0)) [
  | inl e ↦ rw e (refl, refl, refl)
  | inr e ↦ rw e (refl, refl, refl)
]

-- A call with a set changes the mask of the calling process as `how` says, place by place: it adds
-- the signals of the set, takes them away, or puts the set in the place of the mask, and SIGKILL and
-- SIGSTOP never come in; without a set, or with another `how`, the mask stays. The set is the word
-- that is in memory after the old mask was written. The process is the one on record.
pub sys_rt_sigprocmask_lem :
    (k : Kernel) (p : UserProc) (how set_vaddr old_vaddr : ℕ)
    → current_proc k ≡ some p
    → k.current < length k.procs
    → Remasked
        (sys_rt_sigprocmask k how set_vaddr old_vaddr).1
        p
        (not (set_vaddr == 0))
        how
        set_vaddr
unfolding sys_rt_sigprocmask old_mask_of
sys_rt_sigprocmask_lem k p how set_vaddr old_vaddr runs h =
    let old : old_mask_of k ≡ p.sig_mask = rw (runs, old_mask_of) refl in
    let k1 = report_mask k old_vaddr p.sig_mask in
    let same = report_mask-current k old_vaddr p.sig_mask in
    elim (Bool-cases (set_vaddr == 0)) [
      | inl none_given ↦ rw (old, none_given, sys_rt_sigprocmask) (p, same.0 ∙ runs, λ i q. refl)
      | inr given ↦
          rw (old, given, sys_rt_sigprocmask)
            (apply_mask_lem k1 p how set_vaddr (same.0 ∙ runs) (omega (arith, same.1, same.2, h)))
    ]

-- Where SIGKILL and SIGSTOP are not blocked before the call, they are not blocked after it, whatever
-- the call asks for.
pub sys_rt_sigprocmask-Unblockable :
    (k : Kernel) (p : UserProc) (how set_vaddr old_vaddr : ℕ)
    → current_proc k ≡ some p
    → k.current < length k.procs
    → Unblockable p.sig_mask
    → (p' : UserProc) × (current_proc (sys_rt_sigprocmask k how set_vaddr old_vaddr).1 ≡ some p')
      × Unblockable p'.sig_mask
sys_rt_sigprocmask-Unblockable k p how set_vaddr old_vaddr runs h (kill, stop) =
    let (p', runs', masks) = sys_rt_sigprocmask_lem k p how set_vaddr old_vaddr runs h in
    (
      p',
      runs',
      (
        masks 8 (omega arith) ∙ mask_after-cant_block _ how p.sig_mask _ 8 refl kill,
        masks 18 (omega arith) ∙ mask_after-cant_block _ how p.sig_mask _ 18 refl stop,
      ),
    )

-- While the handler of signal `b + 1` runs, what was blocked stays blocked, the signal itself is
-- blocked unless SA_NODEFER is set, and the mask on file is added with nothing left out of it: a mask
-- with the place of SIGKILL blocks SIGKILL.
pub handler_mask_lem :
    (sig_mask b i : ℕ) (act : SigAction)
    → digit (handler_mask sig_mask b act) i
      ≡ max
          (max
            (digit sig_mask i)
            (if (bit_and act.flags sa_nodefer == 0) && (b == i) then 1 else 0))
          (digit act.mask i)
unfolding handler_mask
handler_mask_lem sig_mask b i act = elim (ℕ_discrete b i) [
  | yes e ↦ ground (
    arith,
    digit-bit_or (bit_or sig_mask (2 ^ b)) act.mask i,
    digit-bit_or sig_mask act.mask i,
    digit-bit_or sig_mask (2 ^ b) i,
    digit-pow_self b,
    ap (λ j. digit (2 ^ b) j) e,
  )
  | no ne ↦ ground (
    arith,
    digit-bit_or (bit_or sig_mask (2 ^ b)) act.mask i,
    digit-bit_or sig_mask act.mask i,
    digit-bit_or sig_mask (2 ^ b) i,
    digit-pow_ne b i ne,
  )
]
