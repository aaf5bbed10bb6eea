-- ===== src/Paging.antt =====
-- paging/mod.rs: the tables of four levels that lead from virtual addresses to frames, and what builds,
-- reads and changes them. Memory is physical: the window through which the kernel sees it adds a constant,
-- which is left out, and the processor's own copy of the tables (TLB) is not modelled. `expect` on a frame
-- that is not there stops the kernel: the answer is then `none`.
pub mod Space
pub mod Bits
pub mod Entries
pub mod Walk
pub mod Tree
pub mod Create
pub mod Grow
pub mod Leaf
pub mod Find
pub mod Map
pub mod UnmapPage
pub mod Unmap
pub mod Protect
pub mod Demand
pub mod UserSpace
pub mod Channel
pub mod Isolated
pub mod Tests
use chod_os.Base.{
  ℕ, zero, suc, ◌+◌, ◌-◌, ◌*◌, ◌/◌, ◌%◌, ◌^◌, Bool, true, false, not, ◌&&◌, Option, none, some,
  List, [], ◌∷◌, if◌then◌else◌, ◌==◌, ltb, leb, length, min, take, drop, bit_or, bit_and,
}
use chod_os.Base.Words.{u64}
use chod_os.Base.Cells.{Memory, load64, store64, copy_bytes}
use chod_os.Memory.Frame.{Frames, alloc_frame, free_frame}

abbrev pub pte_present : ℕ
pte_present = 1

abbrev pub pte_writable : ℕ
pte_writable = 2

abbrev pub pte_user : ℕ
pte_user = 4

abbrev pub ro_channel_base : ℕ
ro_channel_base = 0xFFFFA00000000000

-- KERNEL_CR3 and RO_CHANNEL_SLOT, beside the memory and its allocator.
pub record Machine : Type 0 where
  pub frames : Frames
  pub mem : Memory
  pub kernel_cr3 : ℕ
  pub ro_channel_slot : ℕ

abbrev pub M : Type 0 → Type 0
M A = Machine → Option (A × Machine)

abbrev pub pure : {A : Type 0} → A → M A
pure a m = some (a, m)

module _ {A B : Type 0} where
  infixl 5 ◌>>=◌ ◌>>◌
  abbrev pub ◌>>=◌ : M A → (A → M B) → M B
  ◌>>=◌ f g m = elim (f m) [ none ↦ none | some (a, m') ↦ g a m' ]

  abbrev pub ◌>>◌ : M A → M B → M B
  f >> g = f >>= λ _. g

-- `e & !0xFFF`, and the indices of an address in the four tables.
abbrev pub page_of : ℕ → ℕ
page_of e = e / 4096 * 4096

abbrev pub index4 : ℕ → ℕ
index4 va = va / 2 ^ 39 % 512

abbrev pub index3 : ℕ → ℕ
index3 va = va / 2 ^ 30 % 512

abbrev pub index2 : ℕ → ℕ
index2 va = va / 2 ^ 21 % 512

abbrev pub index1 : ℕ → ℕ
index1 va = va / 2 ^ 12 % 512

abbrev pub present : ℕ → Bool
present e = not (e % 2 == 0)

-- Bit 7, which makes an entry of the middle levels a large page.
abbrev pub huge : ℕ → Bool
huge e = not (e / 128 % 2 == 0)

unfoldable pub entry : Memory → ℕ → ℕ → ℕ
entry mem table i = load64 mem (table + 8 * i)

unfoldable pub set_entry : ℕ → ℕ → ℕ → M (Unit {0})
set_entry table i v m = some (tt, record m { mem = store64 m.mem (table + 8 * i) v })

-- `write_bytes(p, 0, 4096)`.
unfoldable pub clear : Memory → ℕ → Memory
clear mem p q = if leb p q && ltb q (p + 4096) then 0 else mem q

unfoldable pub take_frame : M ℕ
take_frame m = elim (alloc_frame m.frames) [
  | none ↦ none
  | some (phys, frames) ↦ some (phys, record m { frames = frames })
]

unfoldable pub zero_frame : ℕ → M (Unit {0})
zero_frame phys m = some (tt, record m { mem = clear m.mem phys })

unfoldable pub alloc_table : M ℕ
alloc_table = do phys ← take_frame; zero_frame phys; pure phys

unfoldable pub create_table : ℕ → ℕ → ℕ → M ℕ
create_table table i flags = do
  phys ← alloc_table
  set_entry table i (bit_or phys flags)
  pure (page_of (bit_or phys flags))

unfoldable pub get_or_create : ℕ → ℕ → ℕ → M ℕ
get_or_create table i flags m =
    if present (entry m.mem table i)
    then some (page_of (entry m.mem table i), m)
    else create_table table i flags m

abbrev pub mid_flags : ℕ
mid_flags = 7

unfoldable pub map_4k : ℕ → ℕ → ℕ → ℕ → M (Unit {0})
map_4k pml4 vaddr paddr flags = do
  pdpt ← get_or_create pml4 (index4 vaddr) mid_flags
  pd ← get_or_create pdpt (index3 vaddr) mid_flags
  pt ← get_or_create pd (index2 vaddr) mid_flags
  set_entry pt (index1 vaddr) (bit_or (bit_or (page_of paddr) flags) pte_present)

-- The steps from a table to the next, while the entries are present.
abbrev pub descend : Memory → ℕ → ℕ → Option ℕ
descend mem table i =
    if present (entry mem table i) then some (page_of (entry mem table i)) else none

unfoldable pub virt_to_phys : Memory → ℕ → ℕ → Option ℕ
virt_to_phys mem cr3 vaddr = elim (descend mem (page_of cr3) (index4 vaddr)) [
  | none ↦ none
  | some pdpt ↦
      let pdpte = entry mem pdpt (index3 vaddr) in
      let pd = page_of pdpte in
      let pde = entry mem pd (index2 vaddr) in
      let pte = entry mem (page_of pde) (index1 vaddr) in
      if not (present pdpte)
      then none
      else (if huge pdpte
          then some (bit_or (pdpte / 2 ^ 30 * 2 ^ 30) (vaddr % 2 ^ 30))
          else (if not (present pde)
              then none
              else (if huge pde
                  then some (bit_or (pde / 2 ^ 21 * 2 ^ 21) (vaddr % 2 ^ 21))
                  else (if not (present pte)
                      then none
                      else some (bit_or (page_of pte) (vaddr % 4096))))))
]

-- `get_user_pte`, and with KERNEL_CR3 `get_kernel_pte`.
unfoldable pub get_user_pte : Memory → ℕ → ℕ → Option ℕ
get_user_pte mem cr3 vaddr = elim (descend mem (page_of cr3) (index4 vaddr)) [
  | none ↦ none
  | some pdpt ↦
      let pdpte = entry mem pdpt (index3 vaddr) in
      let pde = entry mem (page_of pdpte) (index2 vaddr) in
      let pte = entry mem (page_of pde) (index1 vaddr) in
      if not (present pdpte)
      then none
      else (if huge pdpte
          then some pdpte
          else (if not (present pde)
              then none
              else (if huge pde then some pde else (if not (present pte) then none else some pte))))
]

abbrev pub get_kernel_pte : Machine → ℕ → Option ℕ
get_kernel_pte m vaddr = get_user_pte m.mem m.kernel_cr3 vaddr

-- The page table of an address, where the three levels above lead to one; large pages are not looked for.
unfoldable pub find_pt : Memory → ℕ → ℕ → Option ℕ
find_pt mem cr3 va = elim (descend mem (page_of cr3) (index4 va)) [
  | none ↦ none
  | some pdpt ↦ elim (descend mem pdpt (index3 va)) [
    | none ↦ none
    | some pd ↦ descend mem pd (index2 va)
  ]
]

unfoldable pub munmap_page : ℕ → ℕ → Machine → Machine
munmap_page cr3 va m = elim (virt_to_phys m.mem cr3 va) [
  | none ↦ m
  | some phys ↦
      let freed = record m { frames = free_frame m.frames (page_of phys) } in
      elim (find_pt m.mem cr3 va) [
        | none ↦ freed
        | some pt ↦ record freed { mem = store64 m.mem (pt + 8 * index1 va) 0 }
      ]
]

-- The pages from `va` on.
unfoldable pub munmap_pages : ℕ → ℕ → ℕ → Machine → Machine
munmap_pages cr3 va zero m = m
munmap_pages cr3 va (suc count) m = munmap_pages cr3 (va + 4096) count (munmap_page cr3 va m)

abbrev pub page_flags : Bool → ℕ
page_flags writable = bit_or pte_user (if writable then pte_writable else 0)

unfoldable pub demand_alloc_page : ℕ → ℕ → Bool → M (Unit {0})
demand_alloc_page cr3 vaddr writable = do
  phys ← take_frame
  zero_frame phys
  map_4k (page_of cr3) vaddr phys (page_flags writable)

-- `phys_bits & !PTE_PRESENT` leaves the page, whose lowest bits are zero.
abbrev pub prot_pte : ℕ → ℕ → ℕ
prot_pte pte prot =
    if prot == 0
    then page_of pte
    else bit_or (page_of pte)
        (bit_or (bit_or pte_present pte_user) (if bit_and prot 2 == 0 then 0 else pte_writable))

unfoldable pub set_page_prot_at : ℕ → ℕ → ℕ → Memory → Memory
set_page_prot_at cr3 va prot mem = elim (find_pt mem cr3 va) [
  | none ↦ mem
  | some pt ↦
      let pte = entry mem pt (index1 va) in
      if present pte then store64 mem (pt + 8 * index1 va) (prot_pte pte prot) else mem
]

unfoldable pub set_page_prot : ℕ → ℕ → ℕ → ℕ → Memory → Memory
set_page_prot cr3 va zero prot mem = mem
set_page_prot cr3 va (suc pages) prot mem =
    set_page_prot cr3 (va + 4096) pages prot (set_page_prot_at cr3 va prot mem)

unfoldable pub pub_map_4k : ℕ → ℕ → ℕ → Bool → M (Unit {0})
pub_map_4k cr3 vaddr phys writable = map_4k (page_of cr3) vaddr phys (page_flags writable)

-- The frame is seen for writing at its own place in the window, `hhdm` on from its address.
unfoldable pub alloc_channel_frame : ℕ → M (ℕ × ℕ × ℕ)
alloc_channel_frame hhdm = do
  phys ← take_frame
  slot ← λ m. some (m.ro_channel_slot, record m { ro_channel_slot = u64 (m.ro_channel_slot + 1) })
  let read_va = ro_channel_base + slot * 4096
  cr3 ← λ m. some (m.kernel_cr3, m)
  map_4k (page_of cr3) read_va phys pte_present
  pure (phys + hhdm, read_va, phys)

-- The page at `read_va` stays mapped.
unfoldable pub free_channel_frame : ℕ → Machine → Machine
free_channel_frame phys m = record m { frames = free_frame m.frames phys }
