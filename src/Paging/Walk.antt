-- ===== src/Paging/Walk.antt =====
-- Translation as one recursion over the indices of an address, beside the code's steps written out.
use chod_os.Base.{
  ℕ, zero, suc, ◌*◌, ◌/◌, ◌%◌, ◌^◌, ◌≡◌, Bool, ◌&&◌, ◌||◌, Option, none, some, List, [], ◌∷◌, arith,
  if◌then◌else◌, ◌==◌, ltb, length, bit_or,
}
use chod_os.Base.Cells.{Memory}
use chod_os.Paging.{
  entry, present, huge, page_of, index1, index2, index3, index4, virt_to_phys, get_user_pte,
}

abbrev pub indices : ℕ → List ℕ
indices va = index4 va ∷ index3 va ∷ index2 va ∷ index1 va ∷ []

-- Whether an entry maps a page, where the indices `is` are left. The first level has no large pages.
abbrev pub ends : List ℕ → ℕ → Bool
ends is e = (length is == 0) || (huge e && ltb (length is) 3)

-- The entry that maps a page, and the number of levels below it.
unfoldable pub walk : Memory → ℕ → List ℕ → Option (ℕ × ℕ)
walk mem t [] = none
walk mem t (i ∷ is) =
    let e = entry mem t i in
    let later = walk mem (page_of e) is in
    if present e then (if ends is e then some (e, length is) else later) else none

abbrev pub page_size_of : ℕ → ℕ
page_size_of zero = 4096
page_size_of (suc zero) = 2 ^ 21
page_size_of (suc (suc k)) = 2 ^ 30

abbrev pub address : ℕ → Option (ℕ × ℕ) → Option ℕ
address va none = none
address va (some (e, k)) = some (bit_or (e / page_size_of k * page_size_of k) (va % page_size_of k))

abbrev pub pte_of : Option (ℕ × ℕ) → Option ℕ
pte_of none = none
pte_of (some (e, k)) = some e

pub virt_to_phys-walk :
    (mem : Memory) (cr3 va : ℕ)
    → virt_to_phys mem cr3 va ≡ address va (walk mem (page_of cr3) (indices va))
unfolding virt_to_phys walk
virt_to_phys-walk mem cr3 va = ground arith

pub get_user_pte-walk :
    (mem : Memory) (cr3 va : ℕ)
    → get_user_pte mem cr3 va ≡ pte_of (walk mem (page_of cr3) (indices va))
unfolding get_user_pte walk
get_user_pte-walk mem cr3 va = ground arith
