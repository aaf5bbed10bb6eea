-- ===== src/Process/Ipc/Switchless.antt =====
-- A message by a shared frame and its doorbell, in process/ipc_cap.rs.
use chod_os.Base.{
  ℕ, zero, suc, ◌+◌, ◌≡◌, ◌≢◌, ◌<◌, ◌≤◌, refl, ap, ◌∙◌, List, [], ◌∷◌, arith, length, get_or, take,
}
use chod_os.Base.Cells.{Memory, poke}
use chod_os.Process.Shared.{copy_to, copy_from}

-- Both windows of a channel lead to the same frame, byte by byte, and its bytes are apart.
pub record IsChannelFrame (phys_of : ℕ → ℕ) (write_va read_va : ℕ) : Type 0 where
  pub same : (i : ℕ) → i < 4096 → phys_of (read_va + i) ≡ phys_of (write_va + i)
  pub apart :
      (i j : ℕ) → i < 4096 → j < 4096 → i ≢ j → phys_of (write_va + i) ≢ phys_of (write_va + j)

module _ (phys_of : ℕ → ℕ) (write_va read_va : ℕ)
    (frame : IsChannelFrame phys_of write_va read_va) where
  -- A byte of the frame after bytes were copied to offset `k`.
  copy_to-before :
      (mem : Memory) (bs : List ℕ) (k j a : ℕ)
      → a ≡ write_va + k
      → k + length bs ≤ 4096
      → j < k
      → copy_to phys_of mem a bs (phys_of (write_va + j)) ≡ mem (phys_of (write_va + j))
  unfolding copy_to
  copy_to-before mem [] k j a e h less = refl
  copy_to-before mem (b ∷ bs) k j a e h less =
      copy_to-before (poke mem (phys_of a) b) bs (k + 1) j (a + 1) (omega arith) (omega arith)
        (omega arith)
      ∙ ground (
        arith,
        ap phys_of e,
        frame.apart j k (omega arith) (omega arith) (λ q. omega (arith, q, less)),
      )

  copy_to-inside :
      (mem : Memory) (bs : List ℕ) (k i a : ℕ)
      → a ≡ write_va + k
      → k + length bs ≤ 4096
      → i < length bs
      → copy_to phys_of mem a bs (phys_of (write_va + (k + i))) ≡ get_or bs i 0
  unfolding copy_to
  copy_to-inside mem [] k i a e h less = absurd (omega arith)
  copy_to-inside mem (b ∷ bs) k zero a e h less =
      ap (λ q. copy_to phys_of (poke mem (phys_of a) b) (a + 1) bs (phys_of (write_va + q)))
        {x = k + 0} {y = k} (omega arith)
      ∙ copy_to-before (poke mem (phys_of a) b) bs (k + 1) k (a + 1) (omega arith) (omega arith)
          (omega arith)
      ∙ ground (arith, ap phys_of e)
  copy_to-inside mem (b ∷ bs) k (suc i) a e h less =
      ap (λ q. copy_to phys_of (poke mem (phys_of a) b) (a + 1) bs (phys_of (write_va + q)))
        {x = k + suc i} {y = k + 1 + i} (omega arith)
      ∙ copy_to-inside (poke mem (phys_of a) b) bs (k + 1) i (a + 1) (omega arith) (omega arith)
          (omega arith)

  copy_from-take :
      (mem : Memory) (bs : List ℕ) (a n : ℕ)
      → n ≤ length bs
      → ((i : ℕ) → i < n → mem (phys_of (a + i)) ≡ get_or bs i 0)
      → copy_from phys_of mem a n ≡ take n bs
  unfolding copy_from
  copy_from-take mem bs a zero h same = refl
  copy_from-take mem [] a (suc n) h same = absurd (omega arith)
  copy_from-take mem (b ∷ bs) a (suc n) h same =
      let head : mem (phys_of a) ≡ b =
        ap (λ q. mem (phys_of q)) {x = a} {y = a + 0} (omega arith) ∙ same 0 (omega arith) in
      let tail = copy_from-take mem bs (a + 1) n (omega arith) (λ i less.
        ap (λ q. mem (phys_of q)) {x = a + 1 + i} {y = a + suc i} (omega arith)
        ∙ same (suc i) (omega arith)) in
      cc (head, tail)

  -- What is copied into one window is copied out of the other.
  pub copy_from-copy_to :
      (mem : Memory) (bs : List ℕ) (n : ℕ)
      → length bs ≤ 4096
      → n ≤ length bs
      → copy_from phys_of (copy_to phys_of mem write_va bs) read_va n ≡ take n bs
  copy_from-copy_to mem bs n h k =
      copy_from-take (copy_to phys_of mem write_va bs) bs read_va n k (λ i less.
        ap (λ q. copy_to phys_of mem write_va bs q) (frame.same i (omega (arith, less, h, k)))
        ∙ ap (λ q. copy_to phys_of mem write_va bs (phys_of (write_va + q))) {x = i} {y = 0 + i}
            (omega arith)
        ∙ copy_to-inside mem bs 0 i write_va (omega arith) (omega (arith, h))
            (omega (arith, less, k)))
