-- ===== src/Paging/Channel.antt =====
-- The frame of a fast channel: `alloc_channel_frame` of paging/mod.rs as what process/ipc_cap.rs needs.
use chod_os.Base.{
  ℕ, ◌+◌, ◌*◌, ◌/◌, ◌%◌, ◌^◌, ◌≡◌, ◌<◌, ◌≤◌, refl, sym, ap, ◌∙◌, true, false, Option, none, some,
  List, [], arith, if◌then◌else◌, inl, inr, Option-cases,
}
use chod_os.Base.Words.{u64}
use chod_os.Memory.Frame.{alloc_frame, Frames, max_frames}
use chod_os.Memory.Frame.Alloc.{Allocated, alloc_frame-Allocated, alloc_frame-none_iff}
use chod_os.Paging.{
  Machine, ◌>>=◌, page_of, present, alloc_channel_frame, ro_channel_base, virt_to_phys,
  get_user_pte, get_kernel_pte, pte_present,
}
use chod_os.Paging.Walk.{walk, indices, pte_of}
use chod_os.Paging.Tree.{IsTree}
use chod_os.Paging.Create.{take_frame-some}
use chod_os.Paging.Leaf.{leaf_of, same_page}
use chod_os.Paging.Find.{IsSmall, pte_for}
use chod_os.Paging.Map.{
  Mapped, maps, map_4k-Mapped, pte_for-add, virt_to_phys_after, get_user_pte_after, address-leaf_of,
  pte_of-leaf_of,
}
use chod_os.Process.Ipc.Switchless.{IsChannelFrame}

-- Where the kernel's tables lead, 0 where they lead nowhere.
abbrev pub kernel_phys_of : Machine → ℕ → ℕ
kernel_phys_of m va = elim (virt_to_phys m.mem m.kernel_cr3 va) [ none ↦ 0 | some p ↦ p ]

-- The window that the boot loader sets up: all frames, one after another, from `hhdm` on, below the place
-- of the channels.
pub record IsWindow (m : Machine) (hhdm : ℕ) : Type 0 where
  pub maps_all :
      (p : ℕ) → p < max_frames * 4096 → virt_to_phys m.mem m.kernel_cr3 (p + hhdm) ≡ some p
  pub upper : 0xFFFF800000000000 ≤ hhdm
  pub below : hhdm + max_frames * 4096 ≤ ro_channel_base

abbrev pub read_va_of : Machine → ℕ
read_va_of m = ro_channel_base + m.ro_channel_slot * 4096

-- What a frame for a channel leaves, at `phys`.
pub record ChannelMapped (m : Machine) (hhdm phys : ℕ) (m' : Machine) : Type 0 where
  pub channel : IsChannelFrame (kernel_phys_of m') (phys + hhdm) (read_va_of m)
  pub aligned : phys % 4096 ≡ 0
  pub pte : get_kernel_pte m' (read_va_of m) ≡ some (phys + 1)
  pub window : IsWindow m' hhdm
  pub slot : m'.ro_channel_slot ≡ u64 (m.ro_channel_slot + 1)

module _ (m : Machine) (hhdm : ℕ) (owner : ℕ → Option (List ℕ)) (tree : IsTree m m.kernel_cr3 owner)
    (w : IsWindow m hhdm) (slots : m.ro_channel_slot < 2 ^ 30) (phys : ℕ) (frames : Frames)
    (a : Allocated m.frames phys frames) where
  taken : Machine
  taken = record m { frames = frames; ro_channel_slot = u64 (m.ro_channel_slot + 1) }

  taken-IsTree : IsTree taken m.kernel_cr3 owner
  unfolding taken
  taken-IsTree = record {
    valid = a.valid;
    top = tree.top;
    aligned = tree.aligned;
    used = λ t p h. ground (arith, a.changed (t / 4096), tree.used t p h);
    child = tree.child;
  }

  module _ (m' : Machine) (owner' : ℕ → Option (List ℕ))
      (d : Mapped taken m.kernel_cr3 owner
        (read_va_of m)
        (pte_for phys pte_present)
        m'
        owner') where
    abbrev pte : ℕ
    pte = u64 (pte_for phys pte_present)

    pte-value : pte ≡ phys + 1
    pte-value =
        let inside = a.inside in
        omega (arith, pte_for-add phys 1 (omega (arith, inside)) (omega arith), a.aligned)

    pte-present : present pte ≡ true
    pte-present = ground (arith, pte-value, a.aligned)

    aligned : m.kernel_cr3 % 4096 ≡ 0
    aligned = tree.aligned m.kernel_cr3 [] tree.top

    leads_to :
        (va : ℕ)
        → virt_to_phys m'.mem m'.kernel_cr3 va ≡ (
            if same_page (read_va_of m) va
            then some (phys + va % 4096)
            else virt_to_phys m.mem m.kernel_cr3 va)
    unfolding taken
    leads_to va =
        let page : page_of pte ≡ phys = omega (arith, pte-value, a.aligned) in
        ap (λ c. virt_to_phys m'.mem c va) d.rest.0
        ∙ virt_to_phys_after m.mem m'.mem m.kernel_cr3 (read_va_of m) pte va aligned (d.walks va)
        ∙ ap (λ o. if same_page (read_va_of m) va then o else virt_to_phys m.mem m.kernel_cr3 va)
            (address-leaf_of pte va pte-present ∙ ap (λ (q : ℕ). some (q + va % 4096)) page)

    in_read :
        (i : ℕ) → i < 4096 → virt_to_phys m'.mem m'.kernel_cr3 (read_va_of m + i) ≡ some (phys + i)
    in_read i less =
        let same : same_page (read_va_of m) (read_va_of m + i) ≡ true = ground (arith, less) in
        let rest : (read_va_of m + i) % 4096 ≡ i = omega (arith, less) in
        leads_to (read_va_of m + i) ∙ rw (same, rest) refl

    in_window :
        (p : ℕ) → p < max_frames * 4096 → virt_to_phys m'.mem m'.kernel_cr3 (p + hhdm) ≡ some p
    in_window p less =
        let upper = w.upper in
        let below = w.below in
        let other : same_page (read_va_of m) (p + hhdm) ≡ false =
          ground (arith, less, upper, below, slots) in
        leads_to (p + hhdm) ∙ rw other (w.maps_all p less)

    in_write :
        (i : ℕ) → i < 4096 → virt_to_phys m'.mem m'.kernel_cr3 (phys + hhdm + i) ≡ some (phys + i)
    in_write i less =
        let inside = a.inside in
        ap (virt_to_phys m'.mem m'.kernel_cr3) {x = phys + hhdm + i} {y = phys + i + hhdm}
          (omega arith)
        ∙ in_window (phys + i) (omega (arith, inside, a.aligned, less))

    kernel_phys :
        (va p : ℕ) → virt_to_phys m'.mem m'.kernel_cr3 va ≡ some p → kernel_phys_of m' va ≡ p
    kernel_phys va p h = rw (h, kernel_phys_of) refl

    mapped-ChannelMapped : ChannelMapped m hhdm phys m'
    unfolding taken
    mapped-ChannelMapped =
        let there =
          λ (i : ℕ) (less : i < 4096). kernel_phys (phys + hhdm + i) (phys + i) (in_write i less) in
        record {
          channel = record {
            same = λ i less.
                kernel_phys (read_va_of m + i) (phys + i) (in_read i less) ∙ sym (there i less);
            apart = λ i j l k ne e. ne (omega (arith, sym (there i l) ∙ e ∙ there j k));
          };
          aligned = a.aligned;
          pte =
              ap (λ c. get_user_pte m'.mem c (read_va_of m)) d.rest.0
              ∙ get_user_pte_after m.mem m'.mem m.kernel_cr3 (read_va_of m) pte (read_va_of m)
                  aligned (d.walks (read_va_of m))
              ∙ ap
                  (λ b.
                    if b
                    then pte_of (leaf_of pte)
                    else get_user_pte m.mem m.kernel_cr3 (read_va_of m))
                  {x = same_page (read_va_of m) (read_va_of m)} {y = true} (ground arith)
              ∙ pte_of-leaf_of pte pte-present
              ∙ ap (λ (q : ℕ). some q) pte-value;
          window = record { maps_all = in_window; upper = w.upper; below = w.below };
          slot = d.rest.1;
        }

-- With four frames left and no large page in the way, a frame for a channel is found: its place in the
-- window and its place among the channels lead to the same bytes, which are apart, and the entry of the
-- second one is present but neither writable nor open to user code. The window stays as it was and the next
-- channel gets the next page. Fewer than 2^30 channels were handed out before.
pub alloc_channel_frame-ChannelMapped :
    (m : Machine) (hhdm : ℕ) (owner : ℕ → Option (List ℕ))
    → IsTree m m.kernel_cr3 owner
    → IsWindow m hhdm
    → m.ro_channel_slot < 2 ^ 30
    → 4 ≤ m.frames.free_frames
    → IsSmall (walk m.mem m.kernel_cr3 (indices (read_va_of m)))
    → (m' : Machine) × (phys : ℕ) × (alloc_channel_frame hhdm m
        ≡ some ((phys + hhdm, read_va_of m, phys), m'))
      × ChannelMapped m hhdm phys m'
unfolding alloc_channel_frame taken
alloc_channel_frame-ChannelMapped m hhdm owner tree w slots enough small =
    elim (Option-cases (alloc_frame m.frames)) [
      | inl none_ ↦
          absurd (omega (arith, (alloc_frame-none_iff m.frames tree.valid).0 none_, enough))
      | inr ((phys, frames), some_) ↦
          let a = alloc_frame-Allocated m.frames frames phys tree.valid some_ in
          let t = taken m hhdm owner tree w slots phys frames a in
          let at : page_of m.kernel_cr3 ≡ m.kernel_cr3 =
            omega (arith, tree.aligned m.kernel_cr3 [] tree.top) in
          elim (map_4k-Mapped t m.kernel_cr3 owner (read_va_of m) phys pte_present
            (taken-IsTree m hhdm owner tree w slots phys frames a)
            (omega (arith, enough, a.counted)) small) [
              | maps m' owner' run d ↦ (
                m',
                phys,
                rw (take_frame-some m phys frames some_, ◌>>=◌, alloc_channel_frame)
                    (rw (at, ◌>>=◌) (rw (run, ◌>>=◌) refl)),
                mapped-ChannelMapped m hhdm owner tree w slots phys frames a m' owner' d,
              )
            ]
    ]
