-- ===== src/Signal/Delivery.antt =====
-- Which pending signal `deliver_pending_signals` of signal.rs takes, and what it does with it.
use chod_os.Base.{
  ℕ, zero, suc, ◌+◌, ◌-◌, ◌/◌, ◌^◌, ◌≤◌, ◌<◌, ◌≡◌, ◌≢◌, ap, ◌∙◌, true, false, some, arith,
  if◌then◌else◌, ◌==◌, leb, ==_iff, inl, inr, ◌⊎◌, ℕ_discrete, dec_lt, length, get_or, min, bit_and,
  digit, digit-bit_and, digit-complement, bit_and-lt, digit-pow_self, digit-pow_ne, pow-lt,
  digit-zero, digit-le-one, Lowest, trailing_zeros, trailing_zeros-Lowest,
}
use native.Mathlib.Nat.{pow-suc}
use chod_os.Base.Words.{not64}
use chod_os.Process.Userproc.{UserProc}
use chod_os.Signal.{
  Kernel, Delivered, nothing, ignored, exits, handled, sig_dfl, sig_ign, no_action,
  ignored_by_default, current_proc, put_proc, run_handler, take_action, deliver_pending_signals,
}

-- Signal `i + 1` is pending, and it is not blocked.
abbrev pub Deliverable : UserProc → ℕ → Type 0
Deliverable p i = (digit p.pending_sigs i ≡ 1) × (digit p.sig_mask i ≡ 0)

digit-unmasked :
    (pending mask i : ℕ)
    → mask < 2 ^ 64
    → i < 64
    → digit (bit_and pending (not64 mask)) i ≡ min (digit pending i) (1 - digit mask i)
digit-unmasked pending mask i h k =
    omega (arith, digit-bit_and pending (not64 mask) i, digit-complement 64 mask i h k)

-- What the action on file for signal `i + 1` makes of it; `p` no longer has it pending.
abbrev pub action_outcome : Kernel → UserProc → ℕ → ℕ → Delivered × Kernel
action_outcome k p i frame_rsp =
    let act = get_or p.sig_handlers i no_action in
    if act.handler == sig_dfl
    then (
      if ignored_by_default (i + 1) then ignored (i + 1) else exits (128 + (i + 1)),
      put_proc k p,
    )
    else (if act.handler == sig_ign
        then (ignored (i + 1), put_proc k p)
        else (handled (i + 1), run_handler k p i act frame_rsp))

pub record Taken (k : Kernel) (p : UserProc) (frame_rsp i : ℕ) : Type 0 where
  pub inside : i < 32
  pub deliverable : Deliverable p i
  pub lowest : (j : ℕ) → j < i → ¬ Deliverable p j
  pub left : ℕ
  pub others : (j : ℕ) → j < 64 → digit left j ≡ (if i == j then 0 else digit p.pending_sigs j)
  pub outcome :
      deliver_pending_signals k frame_rsp
      ≡ action_outcome k (record p { pending_sigs = left }) i frame_rsp

take_action-outcome :
    (k : Kernel) (p : UserProc) (i frame_rsp : ℕ)
    → i < length p.sig_handlers
    → take_action k p i frame_rsp ≡ action_outcome k p i frame_rsp
unfolding take_action
take_action-outcome k p i frame_rsp h =
    let inside : leb (length p.sig_handlers) i ≡ false = ground arith in rw (inside, take_action)

-- A pending word below 2^32 has no digit from 32 on.
digit-high : (n w i : ℕ) → w < 2 ^ n → n ≤ i → digit w i ≡ 0
digit-high zero w i h k = ap (λ v. digit v i) {x = w} {y = 0} (omega arith) ∙ digit-zero i
digit-high (suc n) w zero h k = absurd (omega arith)
digit-high (suc n) w (suc i) h k = digit-high n (w / 2) i (omega (arith, pow-suc 2 n)) (omega arith)

module _ (k : Kernel) (p : UserProc) (frame_rsp : ℕ) (runs : current_proc k ≡ some p)
    (known : p.pending_sigs < 2 ^ 32) (masks : p.sig_mask < 2 ^ 64)
    (handlers : length p.sig_handlers ≡ 32) where
  word : ℕ
  word = bit_and p.pending_sigs (not64 p.sig_mask)

  sig_idx : ℕ
  sig_idx = trailing_zeros 64 word

  none_left : word ≡ 0 → (i : ℕ) → i < 64 → ¬ Deliverable p i
  unfolding word
  none_left e i h (pending, open_) = absurd (
      omega (
        arith,
        digit-unmasked p.pending_sigs p.sig_mask i masks h,
        ap (λ w. digit w i) e,
        digit-zero i,
      ))

  word-lt : word < 2 ^ 64
  unfolding word
  word-lt = bit_and-lt 64 p.pending_sigs (not64 p.sig_mask) (omega arith)

  taken : word ≢ 0 → Taken k p frame_rsp sig_idx
  unfolding word sig_idx deliver_pending_signals
  taken some_left = record {
    inside = below_32 (dec_lt (trailing_zeros 64 word) 32);
    deliverable = (
      omega (arith, at_place, digit-le-one p.pending_sigs sig_idx),
      omega (arith, at_place, digit-le-one p.sig_mask sig_idx),
    );
    lowest = λ j h (pending, unblocked). omega (
      arith,
      low.below j h,
      digit-unmasked p.pending_sigs p.sig_mask j masks (omega (arith, low.inside, h)),
      pending,
      unblocked,
    );
    left = bit_and p.pending_sigs (not64 (2 ^ sig_idx));
    others = λ j h. cleared j h (ℕ_discrete sig_idx j);
    outcome =
        rw (runs, not_zero, deliver_pending_signals)
          (take_action-outcome k _ sig_idx frame_rsp
            (omega (arith, handlers, below_32 (dec_lt (trailing_zeros 64 word) 32))));
  }
    where
      low : Lowest 64 word
      low = trailing_zeros-Lowest 64 word word-lt some_left

      at_place : min (digit p.pending_sigs sig_idx) (1 - digit p.sig_mask sig_idx) ≡ 1
      at_place =
          omega (arith, low.one, digit-unmasked p.pending_sigs p.sig_mask sig_idx masks low.inside)

      below_32 : Dec (sig_idx < 32) → sig_idx < 32
      below_32 (yes h) = h
      below_32 (no h) =
          absurd (omega (arith, at_place, digit-high 32 p.pending_sigs sig_idx known (omega arith)))

      not_zero : (word == 0) ≡ false
      not_zero = ground (arith, some_left)

      cleared :
          (j : ℕ)
          → j < 64
          → Dec (sig_idx ≡ j)
          → digit (bit_and p.pending_sigs (not64 (2 ^ sig_idx))) j
            ≡ (if sig_idx == j then 0 else digit p.pending_sigs j)
      cleared j h (yes e) = ground (
        arith,
        digit-unmasked p.pending_sigs (2 ^ sig_idx) j (pow-lt sig_idx 64 low.inside) h,
        digit-pow_self sig_idx,
        ap (λ i. digit (2 ^ sig_idx) i) e,
      )
      cleared j h (no ne) = ground (
        arith,
        digit-unmasked p.pending_sigs (2 ^ sig_idx) j (pow-lt sig_idx 64 low.inside) h,
        digit-pow_ne sig_idx j ne,
        digit-le-one p.pending_sigs j,
      )

-- At the end of a system call, either every pending signal of the process is blocked and nothing
-- happens, or the pending signal with the lowest number that is not blocked is taken: it alone stops
-- being pending, and the action on file decides: the default ends the process with status 128 plus
-- the number, or ignores SIGCHLD, SIGCONT and SIGWINCH; a handler is run. The signals pending are
-- those that the kernel knows, and the table of handlers has its 32 entries.
pub deliver_pending_signals_lem :
    (k : Kernel) (p : UserProc) (frame_rsp : ℕ)
    → current_proc k ≡ some p
    → p.pending_sigs < 2 ^ 32
    → p.sig_mask < 2 ^ 64
    → length p.sig_handlers ≡ 32
    → (((i : ℕ) → i < 64 → ¬ Deliverable p i)
        × (deliver_pending_signals k frame_rsp ≡ (nothing, k)))
      ⊎ ((i : ℕ) × Taken k p frame_rsp i)
unfolding word sig_idx deliver_pending_signals
deliver_pending_signals_lem k p frame_rsp runs known masks handlers =
    elim (ℕ_discrete (word k p frame_rsp runs known masks handlers) 0) [
      | yes e ↦
          let zero_word : (word k p frame_rsp runs known masks handlers == 0) ≡ true =
            (==_iff _ 0).1 e in
          inl (
            none_left k p frame_rsp runs known masks handlers e,
            rw (runs, zero_word, deliver_pending_signals),
          )
      | no ne ↦ inr (_, taken k p frame_rsp runs known masks handlers ne)
    ]
