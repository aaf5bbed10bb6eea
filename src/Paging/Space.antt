-- ===== src/Paging/Space.antt =====
-- paging/mod.rs: a new address space, and the pages of `mmap_map`.
use chod_os.Base.{
  ℕ, zero, suc, ◌+◌, ◌*◌, ◌/◌, Bool, some, List, if◌then◌else◌, ◌==◌, length, take, drop,
}
use chod_os.Base.Cells.{Memory, store64, copy_bytes}
use chod_os.Paging.{
  M, pure, ◌>>=◌, ◌>>◌, page_of, entry, alloc_table, take_frame, zero_frame, map_4k, page_flags,
}

-- The entries from `i` on.
unfoldable pub copy_entries : ℕ → ℕ → ℕ → ℕ → Memory → Memory
copy_entries from to i zero mem = mem
copy_entries from to i (suc n) mem =
    copy_entries from to (i + 1) n (store64 mem (to + 8 * i) (entry mem from i))

-- The half of the kernel is shared.
unfoldable pub alloc_user_pml4 : M ℕ
alloc_user_pml4 = do
  user_pml4 ← alloc_table
  λ m. some (tt, record m { mem = copy_entries (page_of m.kernel_cr3) user_pml4 256 256 m.mem })
  pure user_pml4

unfoldable pub fill_frame : ℕ → List ℕ → M (Unit {0})
fill_frame phys bytes m = some (tt, record m { mem = copy_bytes m.mem phys bytes })

-- The pages from `vaddr` on, which hold `bytes` and after them zeros.
unfoldable pub map_pages : ℕ → ℕ → ℕ → List ℕ → Bool → M (Unit {0})
map_pages pml4 vaddr zero bytes writable = pure tt
map_pages pml4 vaddr (suc pages) bytes writable = do
  phys ← take_frame
  zero_frame phys
  fill_frame phys (take 4096 bytes)
  map_4k pml4 vaddr phys (page_flags writable)
  map_pages pml4 (vaddr + 4096) pages (drop 4096 bytes) writable

abbrev pages_for : ℕ → ℕ
pages_for len = if (len + 4095) / 4096 == 0 then 1 else (len + 4095) / 4096

unfoldable pub mmap_map : ℕ → ℕ → List ℕ → Bool → M (Unit {0})
mmap_map cr3 vaddr bytes writable =
    map_pages (page_of cr3) vaddr (pages_for (length bytes)) bytes writable
