-- ===== src/Process/Vma/Tests.antt =====
-- A heap of eight pages whose first two pages are mapped again.
use chod_os.Base.{◌≡◌, refl, true, false, some, List, [], ◌∷◌, arith, inl}
use chod_os.Process.Vma.{
  VmaEntry, empty, insert, insert_slot, first_free, find, find_base, try_demand_page,
}
use chod_os.Process.Vma.Coverage.{covered}
use chod_os.Process.Vma.Insert.{insert-covered}

abbrev heap : VmaEntry
heap = record { base = 4096; pages = 8; prot = 3; lazy = true; valid = true }

abbrev table : List VmaEntry
table = heap ∷ empty ∷ empty ∷ []

-- The third page belongs to the part that is kept, and is served on demand.
kept : try_demand_page (insert table 4096 2 1 false) 13000 ≡ some (12288, true)
unfolding try_demand_page insert insert_slot first_free find find_base
kept = refl

table-covered : covered table 13000 ≡ true
unfolding covered
table-covered = refl

insert-covered_example : covered (insert table 4096 2 1 false) 13000 ≡ true
insert-covered_example =
    insert-covered table 4096 2 1 false 1 13000 (omega arith, (omega arith, (omega arith, tt)))
      (omega arith) (omega arith) refl (inl table-covered)
