-- ===== src/Signal/Return.antt =====
-- The way into a handler and back: `install_sigframe` and `sys_rt_sigreturn` of signal.rs.
use chod_os.Base.{
  ℕ, zero, suc, ◌+◌, ◌-◌, ◌*◌, ◌≤◌, ◌<◌, ◌≡◌, ◌≢◌, refl, ap, ◌∙◌, arith, inl, inr, ◌⊎◌, get_or,
}
use chod_os.Base.Words.{u64, sub64}
use chod_os.Base.Cells.{
  Memory, load64, load64-store64, load64-store64_apart, load64-store_words, load64-lt, load64_eq,
}
use chod_os.Signal.{sigframe, saved_words, install_sigframe, restored_words, restore_frame}

-- The interrupt frame and the signal frame, with the return address below it, do not meet.
abbrev pub FramesApart : ℕ → ℕ → Type 0
FramesApart frame_rsp sf = (frame_rsp + 112 ≤ sf - 8) ⊎ (sf + 120 ≤ frame_rsp)

-- Offset `o` is that of a word of the interrupt frame.
frame-apart :
    (frame_rsp sf o b : ℕ)
    → FramesApart frame_rsp sf
    → o ≤ 104
    → sf ≤ b
    → b + 8 ≤ sf + 120
    → (b + 8 ≤ frame_rsp + o) ⊎ (frame_rsp + o + 8 ≤ b)
frame-apart frame_rsp sf o b (inl below) h p q = inr (omega arith)
frame-apart frame_rsp sf o b (inr above) h p q = inl (omega arith)

-- What `install_sigframe` saved can be read at its place in the signal frame.
install_sigframe-saved :
    (mem : Memory) (frame_rsp signum handler new_mask i : ℕ)
    → 8 ≤ sigframe mem frame_rsp
    → FramesApart frame_rsp (sigframe mem frame_rsp)
    → i < 13
    → load64
        (install_sigframe mem frame_rsp signum handler new_mask)
        (sigframe mem frame_rsp + 16 + 8 * i)
      ≡ u64 (get_or (saved_words mem frame_rsp new_mask) i 0)
unfolding install_sigframe
install_sigframe-saved mem frame_rsp signum handler new_mask i high apart h =
    let sf = sigframe mem frame_rsp in
    let b : ℕ = sf + 16 + 8 * i in
    let clear =
      λ (o : ℕ) (q : o ≤ 104). frame-apart frame_rsp sf o b apart q (omega arith) (omega arith) in
    load64-store64_apart _ (frame_rsp + 96) _ b (clear 96 (omega arith))
    ∙ load64-store64_apart _ (frame_rsp + 72) _ b (clear 72 (omega arith))
    ∙ load64-store64_apart _ (frame_rsp + 48) _ b (clear 48 (omega arith))
    ∙ load64-store64_apart _ (frame_rsp + 40) _ b (clear 40 (omega arith))
    ∙ load64-store64_apart _ (frame_rsp + 32) _ b (clear 32 (omega arith))
    ∙ load64-store64_apart _ (sub64 sf 8) _ b (inr (omega arith))
    ∙ load64-store_words _ (sf + 16) (saved_words mem frame_rsp new_mask) i b h refl

-- A word of the interrupt frame after `sys_rt_sigreturn`, whose signal frame is at `sf`.
pub restore_frame-words :
    (mem : Memory) (frame_rsp i : ℕ)
    → i < 10
    → load64 (restore_frame mem frame_rsp) (frame_rsp + 8 * i)
      ≡ u64 (get_or (restored_words mem (load64 mem (frame_rsp + 96))) i 0)
unfolding restore_frame
restore_frame-words mem frame_rsp i h =
    load64-store64_apart _ (frame_rsp + 96) _ _ (inl (omega arith))
    ∙ load64-store64_apart _ (frame_rsp + 88) _ _ (inl (omega arith))
    ∙ load64-store_words mem frame_rsp (restored_words mem (load64 mem (frame_rsp + 96))) i _ h refl

restore_frame-rflags :
    (mem : Memory) (frame_rsp : ℕ)
    → load64 (restore_frame mem frame_rsp) (frame_rsp + 88)
      ≡ u64 (load64 mem (load64 mem (frame_rsp + 96) + 24))
unfolding restore_frame
restore_frame-rflags mem frame_rsp =
    load64-store64_apart _ (frame_rsp + 96) _ _ (inl (omega arith))
    ∙ load64-store64 _ (frame_rsp + 88) _

restore_frame-rsp :
    (mem : Memory) (frame_rsp : ℕ)
    → load64 (restore_frame mem frame_rsp) (frame_rsp + 96)
      ≡ u64 (load64 mem (load64 mem (frame_rsp + 96) + 32))
unfolding restore_frame
restore_frame-rsp mem frame_rsp = load64-store64 _ (frame_rsp + 96) _

-- The handler ran and came back: the signal frame is as it was installed, and the stack pointer of
-- the interrupt frame, now at `frame_rsp'`, points at it.
pub record CameBack (mem : Memory) (frame_rsp signum handler new_mask : ℕ) (mem' : Memory)
    (frame_rsp' : ℕ) : Type 0 where
  pub points : load64 mem' (frame_rsp' + 96) ≡ sigframe mem frame_rsp
  pub kept :
      (q : ℕ)
      → sigframe mem frame_rsp ≤ q
      → q < sigframe mem frame_rsp + 120
      → mem' q ≡ install_sigframe mem frame_rsp signum handler new_mask q

module _ (mem : Memory) (frame_rsp signum handler new_mask : ℕ) (mem' : Memory) (frame_rsp' : ℕ)
    (high : 8 ≤ sigframe mem frame_rsp) (apart : FramesApart frame_rsp (sigframe mem frame_rsp))
    (back : CameBack mem frame_rsp signum handler new_mask mem' frame_rsp') where
  found :
      (i o : ℕ)
      → i < 13
      → o ≡ 16 + 8 * i
      → load64 mem' (load64 mem' (frame_rsp' + 96) + o)
        ≡ u64 (get_or (saved_words mem frame_rsp new_mask) i 0)
  found i o h e =
      ap (λ a. load64 mem' a) {x = load64 mem' (frame_rsp' + 96) + o}
        {y = sigframe mem frame_rsp + 16 + 8 * i} (omega (arith, back.points))
      ∙ load64_eq mem' (install_sigframe mem frame_rsp signum handler new_mask) _
          (λ q p r. back.kept q (omega arith) (omega arith))
      ∙ install_sigframe-saved mem frame_rsp signum handler new_mask i high apart h

  pub mask_found : load64 mem' (load64 mem' (frame_rsp' + 96) + 112) ≡ u64 new_mask
  mask_found = found 12 112 (omega arith) (omega arith)

  -- Twice a word is a word.
  word : (a b c : ℕ) → a ≡ u64 b → b ≡ u64 (load64 mem c) → a ≡ load64 mem c
  word a b c p q = omega (arith, p, q, load64-lt mem c)

  at_word :
      (i j o : ℕ)
      → i < 10
      → j < 13
      → o ≡ 16 + 8 * j
      → get_or (restored_words mem' (load64 mem' (frame_rsp' + 96))) i 0
        ≡ load64 mem' (load64 mem' (frame_rsp' + 96) + o)
      → get_or (saved_words mem frame_rsp new_mask) j 0 ≡ load64 mem (frame_rsp + 8 * i)
      → load64 (restore_frame mem' frame_rsp') (frame_rsp' + 8 * i) ≡ load64 mem (frame_rsp + 8 * i)
  at_word i j o h k e r s =
      word _ (load64 mem' (load64 mem' (frame_rsp' + 96) + o)) (frame_rsp + 8 * i)
        (restore_frame-words mem' frame_rsp' i h ∙ ap (λ w. u64 w) r)
        (found j o k e ∙ ap (λ w. u64 w) s)

  -- The words of the interrupt frame but that of CS.
  pub registers :
      (i : ℕ)
      → i < 13
      → i ≢ 10
      → load64 (restore_frame mem' frame_rsp') (frame_rsp' + 8 * i) ≡ load64 mem (frame_rsp + 8 * i)
  registers zero h ne = at_word 0 11 104 (omega arith) (omega arith) refl refl refl
  registers (suc zero) h ne = at_word 1 10 96 (omega arith) (omega arith) refl refl refl
  registers (suc (suc zero)) h ne = at_word 2 9 88 (omega arith) (omega arith) refl refl refl
  registers (suc (suc (suc zero))) h ne = at_word 3 8 80 (omega arith) (omega arith) refl refl refl
  registers (suc (suc (suc (suc zero)))) h ne =
      at_word 4 7 72 (omega arith) (omega arith) refl refl refl
  registers (suc (suc (suc (suc (suc zero))))) h ne =
      at_word 5 6 64 (omega arith) (omega arith) refl refl refl
  registers (suc (suc (suc (suc (suc (suc zero)))))) h ne =
      at_word 6 5 56 (omega arith) (omega arith) refl refl refl
  registers (suc (suc (suc (suc (suc (suc (suc zero))))))) h ne =
      at_word 7 4 48 (omega arith) (omega arith) refl refl refl
  registers (suc (suc (suc (suc (suc (suc (suc (suc zero)))))))) h ne =
      at_word 8 3 40 (omega arith) (omega arith) refl refl refl
  registers (suc (suc (suc (suc (suc (suc (suc (suc (suc zero))))))))) h ne =
      at_word 9 0 16 (omega arith) (omega arith) refl refl refl
  registers (suc (suc (suc (suc (suc (suc (suc (suc (suc (suc zero)))))))))) h ne = absurd (ne refl)
  registers (suc (suc (suc (suc (suc (suc (suc (suc (suc (suc (suc zero))))))))))) h ne =
      word _ _ (frame_rsp + 88) (restore_frame-rflags mem' frame_rsp')
        (found 1 24 (omega arith) refl)
  registers (suc (suc (suc (suc (suc (suc (suc (suc (suc (suc (suc (suc zero)))))))))))) h ne =
      word _ _ (frame_rsp + 96) (restore_frame-rsp mem' frame_rsp') (found 2 32 (omega arith) refl)
  registers (suc (suc (suc (suc (suc (suc (suc (suc (suc (suc (suc (suc (suc i))))))))))))) h ne =
      absurd (omega arith)
