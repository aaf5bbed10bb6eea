-- ===== src/Paging/Tests.antt =====
-- Runs of paging/mod.rs on the kernel's tables with the window of all frames.
mod User
use chod_os.Base.{
  ℕ, zero, suc, ◌+◌, ◌-◌, ◌*◌, ◌/◌, ◌%◌, ◌^◌, ◌≡◌, ◌≢◌, ◌<◌, ◌≤◌, refl, sym, ap, ◌∙◌, Bool, true,
  false, not, ◌&&◌, Option, none, some, List, [], ◌∷◌, arith, if◌then◌else◌, ◌==◌, ltb, leb,
  replicate, inl, inr, get_or, ℕ_discrete, dec_lt, length, subst, bit_or,
}
use chod_os.Base.Words.{u64}
use chod_os.Base.Cells.{
  Memory, store64, load64, store_words, load64-store_words, load64-store_words_apart, store_bytes,
  load_bytes,
}
use chod_os.Memory.Frame.{max_frames}
use chod_os.Memory.Frame.Tests.{five_free, five_free-IsValid, five_free_used}
use chod_os.Memory.Frame.Count.{IsValid}
use chod_os.Paging.{
  index1, index2, index3, index4, alloc_channel_frame, map_4k, get_user_pte, get_kernel_pte,
  Machine, entry, present, huge, page_of, virt_to_phys,
}
use chod_os.Paging.Bits.{bit_or-shift}
use chod_os.Paging.Entries.{entry_set}
use chod_os.Paging.Walk.{walk, indices, address, virt_to_phys-walk}
use chod_os.Paging.Tree.{IsTree, walk-absent, walk-next, walk-end}
use chod_os.Paging.Leaf.{same_page}
use chod_os.Paging.Find.{IsSmall}
use chod_os.Paging.Map.{map_4k-virt_to_phys}
use chod_os.Paging.Channel.{IsWindow, read_va_of, kernel_phys_of}
use chod_os.Paging.Isolated.{create_channel-alloc_channel_frame}
use chod_os.Process.Ipc.Switchless.{IsChannelFrame}
use chod_os.Process.Vma.{VmaEntry, find_base}
use chod_os.Paging.Space.{alloc_user_pml4}
use chod_os.Paging.UserSpace.{alloc_user_pml4-virt_to_phys}
use chod_os.Process.Channels.{Channels, TraceCall, channel_created, create_channel}

-- Eight large pages of 2^30 bytes are the window, at entry 256 of the first table.
abbrev window : List ℕ
window =
    0x83 ∷ 0x40000083 ∷ 0x80000083 ∷ 0xC0000083 ∷ 0x100000083 ∷ 0x140000083 ∷ 0x180000083
    ∷ 0x1C0000083 ∷ []

boot_mem : Memory
boot_mem = store64 (store_words (λ q. 0) 0x2000 window) (0x1000 + 8 * 256) 0x2003

abbrev boot : Machine
boot = record { frames = five_free; mem = boot_mem; kernel_cr3 = 0x1000; ro_channel_slot = 0 }

abbrev boot_owner : ℕ → Option (List ℕ)
boot_owner t = if 0x1000 == t then some [] else (if 0x2000 == t then some (256 ∷ []) else none)

zeros : (a : ℕ) → load64 (λ q. 0) a ≡ 0
unfolding load64 load_bytes
zeros a = refl

window_value : (i : ℕ) → u64 (get_or window i 0) ≡ (if ltb i 8 then i * 2 ^ 30 + 0x83 else 0)
window_value zero = refl
window_value (suc zero) = refl
window_value (suc (suc zero)) = refl
window_value (suc (suc (suc zero))) = refl
window_value (suc (suc (suc (suc zero)))) = refl
window_value (suc (suc (suc (suc (suc zero))))) = refl
window_value (suc (suc (suc (suc (suc (suc zero)))))) = refl
window_value (suc (suc (suc (suc (suc (suc (suc zero))))))) = refl
window_value (suc (suc (suc (suc (suc (suc (suc (suc i)))))))) = ground arith

window_entry :
    (t i : ℕ)
    → t % 4096 ≡ 0
    → i < 512
    → entry (store_words (λ q. 0) 0x2000 window) t i
      ≡ (if (0x2000 == t) && ltb i 8 then i * 2 ^ 30 + 0x83 else 0)
unfolding entry
window_entry t i ta ii = at (ℕ_discrete 0x2000 t)
  where
    at :
        Dec (0x2000 ≡ t)
        → entry (store_words (λ q. 0) 0x2000 window) t i
          ≡ (if (0x2000 == t) && ltb i 8 then i * 2 ^ 30 + 0x83 else 0)
    at (yes e) = elim (dec_lt i 8) [
      | yes l ↦
          load64-store_words (λ q. 0) 0x2000 window i (t + 8 * i) l (omega (arith, e))
          ∙ window_value i
          ∙ ground (arith, e)
      | no l ↦
          load64-store_words_apart (λ q. 0) 0x2000 window (t + 8 * i) (inr (omega (arith, e, l)))
          ∙ zeros (t + 8 * i)
          ∙ ground (arith, l)
    ]
    at (no ne) =
        load64-store_words_apart (λ q. 0) 0x2000 window (t + 8 * i)
          (elim (dec_lt t 0x2000) [
            | yes l ↦ inl (omega (arith, l, ta, ii))
            | no l ↦ inr (omega (arith, l, ne, ta, ii))
          ])
        ∙ zeros (t + 8 * i)
        ∙ ground (arith, ne)

boot_entry :
    (t i : ℕ)
    → t % 4096 ≡ 0
    → i < 512
    → entry boot_mem t i ≡ (
        if (0x1000 == t) && (256 == i)
        then 0x2003
        else (if (0x2000 == t) && ltb i 8 then i * 2 ^ 30 + 0x83 else 0))
unfolding boot_mem
boot_entry t i ta ii =
    entry_set (store_words (λ q. 0) 0x2000 window) 0x1000 t 256 i refl ta (omega arith) ii 0x2003
    ∙ ap (λ w. if (0x1000 == t) && (256 == i) then 0x2003 else w) (window_entry t i ta ii)

boot_aligned : (t : ℕ) (p : List ℕ) → boot_owner t ≡ some p → (t % 4096 ≡ 0) × (t / 4096 < 8)
boot_aligned t p h = (ground (arith, h), ground (arith, h))

boot-IsTree : IsTree boot 0x1000 boot_owner
boot-IsTree = record {
  valid = five_free-IsValid;
  top = refl;
  aligned = λ t p h. (boot_aligned t p h).0;
  used = λ t p h. five_free_used (t / 4096) (boot_aligned t p h).1;
  child = λ t p i own short less here small.
      let e = boot_entry t i (boot_aligned t p own).0 less in
      ground (arith, own, e, short, here, small);
}

-- Where the window leads.
boot_walk :
    (p : ℕ)
    → p < max_frames * 4096
    → walk boot_mem 0x1000 (indices (p + 0xFFFF800000000000)) ≡ some (p / 2 ^ 30 * 2 ^ 30 + 0x83, 2)
boot_walk p h =
    let va = p + 0xFFFF800000000000 in
    let below = index2 va ∷ index1 va ∷ [] in
    let i4 : index4 va ≡ 256 = omega (arith, h) in
    let i3 : index3 va ≡ p / 2 ^ 30 = omega (arith, h) in
    let e4 : entry boot_mem 0x1000 256 ≡ 0x2003 = boot_entry 0x1000 256 refl (omega arith) in
    let e3 : entry boot_mem 0x2000 (p / 2 ^ 30) ≡ p / 2 ^ 30 * 2 ^ 30 + 0x83 =
      boot_entry 0x2000 (p / 2 ^ 30) refl (omega (arith, h)) ∙ ground (arith, h) in
    let here : present (entry boot_mem 0x2000 (p / 2 ^ 30)) ≡ true = ground (arith, e3) in
    let large : huge (entry boot_mem 0x2000 (p / 2 ^ 30)) ≡ true = ground (arith, e3) in
    ap (λ i. walk boot_mem 0x1000 (i ∷ index3 va ∷ below)) i4
    ∙ walk-next boot_mem 0x1000 256 (index3 va ∷ below) (ap present e4) (ground (arith, e4))
    ∙ ap (λ e. walk boot_mem (page_of e) (index3 va ∷ below)) e4
    ∙ ap (λ i. walk boot_mem 0x2000 (i ∷ below)) i3
    ∙ walk-end boot_mem 0x2000 (p / 2 ^ 30) below here (ground (arith, large))
    ∙ ap (λ (e : ℕ). some (e, 2)) e3

boot_window :
    (p : ℕ) → p < max_frames * 4096 → virt_to_phys boot_mem 0x1000 (p + 0xFFFF800000000000) ≡ some p
boot_window p h =
    let va = p + 0xFFFF800000000000 in
    let low : va % 2 ^ 30 ≡ p % 2 ^ 30 = omega arith in
    let high : (p / 2 ^ 30 * 2 ^ 30 + 0x83) / 2 ^ 30 * 2 ^ 30 ≡ p / 2 ^ 30 * 2 ^ 30 = omega arith in
    virt_to_phys-walk boot_mem 0x1000 va
    ∙ ap (address va) (boot_walk p h)
    ∙ ap (λ (q : ℕ). some q)
        (ap (bit_or ((p / 2 ^ 30 * 2 ^ 30 + 0x83) / 2 ^ 30 * 2 ^ 30)) low
          ∙ ap (λ t. bit_or t (p % 2 ^ 30)) high
          ∙ bit_or-shift 30 (p / 2 ^ 30) (p % 2 ^ 30) (omega arith)
          ∙ omega arith)

boot-IsWindow : IsWindow boot 0xFFFF800000000000
boot-IsWindow = record { maps_all = boot_window; upper = omega arith; below = omega arith }

absent_at : (i j k l : ℕ) → i < 512 → i ≢ 256 → walk boot_mem 0x1000 (i ∷ j ∷ k ∷ l ∷ []) ≡ none
absent_at i j k l h ne =
    walk-absent boot_mem 0x1000 i (j ∷ k ∷ l ∷ []) (ground (arith, boot_entry 0x1000 i refl h, ne))

abbrev is_small :
    (i j k l : ℕ) → i < 512 → i ≢ 256 → IsSmall (walk boot_mem 0x1000 (i ∷ j ∷ k ∷ l ∷ []))
is_small i j k l h ne = subst IsSmall (sym (absent_at i j k l h ne)) tt

map_4k-virt_to_phys_example :
    (m' : Machine) × (owner' : ℕ → Option (List ℕ)) × (map_4k 0x1000 0x400000 0x7000 6 boot
      ≡ some (tt, m'))
    × IsTree m' 0x1000 owner'
    × (virt_to_phys m'.mem 0x1000 0x400123 ≡ (
        if same_page 0x400000 0x400123
        then some (page_of 0x7000 + 0x400123 % 4096)
        else virt_to_phys boot_mem 0x1000 0x400123))
    × (get_user_pte m'.mem 0x1000 0x400123 ≡ (
        if same_page 0x400000 0x400123
        then some ((page_of 0x7000 + 6) / 2 * 2 + 1)
        else get_user_pte boot_mem 0x1000 0x400123))
map_4k-virt_to_phys_example =
    map_4k-virt_to_phys boot 0x1000 boot_owner 0x400000 0x7000 6 0x400123 boot-IsTree (omega arith)
      (is_small 0 0 2 0 (omega arith) (omega arith)) (omega arith) (omega arith)

abbrev channels : Channels
channels = record {
  table = [];
  shared = record {
    buffers = [];
    next_cap_id = 1;
    doorbells = replicate 64 0;
    freed_frames = [];
    mem = boot_mem;
  };
  trace = [];
}

create_channel-alloc_channel_frame_example :
    (m' : Machine) × (phys : ℕ) × (alloc_channel_frame 0xFFFF800000000000 boot
      ≡ some ((phys + 0xFFFF800000000000, read_va_of boot, phys), m'))
    × IsChannelFrame (kernel_phys_of m') (phys + 0xFFFF800000000000) (read_va_of boot)
    × ((create_channel
          (kernel_phys_of m')
          (get_kernel_pte m')
          (record { write_va = phys + 0xFFFF800000000000; read_va = read_va_of boot; phys = phys })
          channels
          3
          4
          64).1.trace
        ≡ channel_created 3 4 1 64 ∷ [])
create_channel-alloc_channel_frame_example =
    create_channel-alloc_channel_frame boot 0xFFFF800000000000 boot_owner channels 3 4 64
      boot-IsTree boot-IsWindow (omega arith) (omega arith)
      (is_small 320 0 0 0 (omega arith) (omega arith))

-- One region of a page that is mapped on demand, with the rights to read and to write.
abbrev region : VmaEntry
region = record { base = 0x400000; pages = 1; prot = 3; lazy = true; valid = true }

alloc_user_pml4-virt_to_phys_example :
    (m' : Machine) × (cr3 : ℕ) × (alloc_user_pml4 boot ≡ some (cr3, m'))
    × (virt_to_phys m'.mem cr3 0xFFFF800000007000 ≡ (
        if ltb (index4 0xFFFF800000007000) 256
        then none
        else virt_to_phys boot_mem 0x1000 0xFFFF800000007000))
    × (virt_to_phys m'.mem 0x1000 0xFFFF800000007000
        ≡ virt_to_phys boot_mem 0x1000 0xFFFF800000007000)
alloc_user_pml4-virt_to_phys_example =
    alloc_user_pml4-virt_to_phys boot boot_owner 0xFFFF800000007000 boot-IsTree (omega arith)
