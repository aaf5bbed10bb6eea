-- ===== src/Paging/Tests/User.antt =====
-- Runs of paging/mod.rs on the tables of a user with one page.
use chod_os.Base.{
  ◌||◌, ℕ, zero, suc, ◌+◌, ◌*◌, ◌/◌, ◌%◌, ◌≡◌, ◌<◌, refl, sym, ap, ◌∙◌, ◌&&◌, Option, none, some,
  List, [], ◌∷◌, arith, if◌then◌else◌, ◌==◌, ltb, leb, subst,
}
use chod_os.Base.Cells.{Memory, store64, load64, store_bytes, load_bytes}
use chod_os.Memory.Frame.{is_free, max_frames}
use chod_os.Memory.Frame.Tests.{five_free, five_free-IsValid, five_free_used}
use chod_os.Paging.{munmap_pages, set_page_prot, get_user_pte, Machine, entry, virt_to_phys}
use chod_os.Paging.Entries.{entry_set}
use chod_os.Paging.Walk.{walk, indices}
use chod_os.Paging.Tree.{IsTree}
use chod_os.Paging.Find.{IsSmall}
use chod_os.Paging.UnmapPage.{IsOrdinary}
use chod_os.Paging.Unmap.{any_leads, munmap_pages-virt_to_phys}
use chod_os.Paging.Protect.{protected_pte, set_page_prot-get_user_pte}

no_entry : (t i : ℕ) → entry (λ q. 0) t i ≡ 0
unfolding entry load64 load_bytes
no_entry t i = refl

-- One page of a user, at 0x5000, that was mapped for address 0 with all rights.
user_mem : Memory
user_mem =
    store64 (store64 (store64 (store64 (λ q. 0) 0x4000 0x5007) 0x3000 0x4007) 0x2000 0x3007) 0x1000
      0x2007

abbrev user : Machine
user = record { frames = five_free; mem = user_mem; kernel_cr3 = 0; ro_channel_slot = 0 }

abbrev user_owner : ℕ → Option (List ℕ)
user_owner t =
    if 0x1000 == t
    then some []
    else (if 0x2000 == t
        then some (0 ∷ [])
        else (if 0x3000 == t
            then some (0 ∷ 0 ∷ [])
            else (if 0x4000 == t then some (0 ∷ 0 ∷ 0 ∷ []) else none)))

-- The first entries of the four tables are those that were stored.
user_entry :
    (t i : ℕ)
    → t % 4096 ≡ 0
    → i < 512
    → entry user_mem t i ≡ (if leb 0x1000 t && ltb t 0x5000 && (i == 0) then t + 0x1007 else 0)
unfolding user_mem
user_entry t i ta ii =
    let m4 = store64 (λ q. 0) 0x4000 0x5007 in
    let m3 = store64 m4 0x3000 0x4007 in
    let m2 = store64 m3 0x2000 0x3007 in
    entry_set m2 0x1000 t 0 i refl ta (omega arith) ii 0x2007
    ∙ ap (λ w. if (0x1000 == t) && (0 == i) then 0x2007 else w)
        (entry_set m3 0x2000 t 0 i refl ta (omega arith) ii 0x3007
          ∙ ap (λ w. if (0x2000 == t) && (0 == i) then 0x3007 else w)
              (entry_set m4 0x3000 t 0 i refl ta (omega arith) ii 0x4007
                ∙ ap (λ w. if (0x3000 == t) && (0 == i) then 0x4007 else w)
                    (entry_set (λ q. 0) 0x4000 t 0 i refl ta (omega arith) ii 0x5007
                      ∙ ap (λ w. if (0x4000 == t) && (0 == i) then 0x5007 else w) (no_entry t i))))
    ∙ ground (arith, ta)

user_aligned : (t : ℕ) (p : List ℕ) → user_owner t ≡ some p → (t % 4096 ≡ 0) × (t / 4096 < 8)
user_aligned t p h = (ground (arith, h), ground (arith, h))

user-IsTree : IsTree user 0x1000 user_owner
user-IsTree = record {
  valid = five_free-IsValid;
  top = refl;
  aligned = λ t p h. (user_aligned t p h).0;
  used = λ t p h. five_free_used (t / 4096) (user_aligned t p h).1;
  child = λ t p i own short less here small.
      let e = user_entry t i (user_aligned t p own).0 less in
      ground (arith, own, e, short, here, small);
}

user_walk : walk user_mem 0x1000 (indices 0) ≡ some (0x5007, 0)
unfolding walk entry user_mem load64 load_bytes store64 store_bytes
user_walk = refl

munmap_pages-virt_to_phys_example :
    let m' = munmap_pages 0x1000 0 1 user in
    IsTree m' 0x1000 user_owner
    × (virt_to_phys m'.mem 0x1000 0x123 ≡ (
        if leb 0 0x123 && ltb 0x123 (0 + 1 * 4096)
        then none
        else virt_to_phys user_mem 0x1000 0x123))
    × (is_free m'.frames.bitmap 5
        ≡ (is_free user.frames.bitmap 5 || (ltb 5 max_frames && any_leads user_mem 0x1000 5 0 1)))
munmap_pages-virt_to_phys_example =
    munmap_pages-virt_to_phys 0x1000 user_owner 1 user 0 0x123 5 user-IsTree only refl (omega arith)
      (omega arith)
  where
    only : (i : ℕ) → i < 1 → IsOrdinary user_owner (walk user_mem 0x1000 (indices (0 + i * 4096)))
    only zero h = subst (IsOrdinary user_owner) (sym user_walk) (refl, refl)
    only (suc i) h = absurd (omega (arith, h))

set_page_prot-get_user_pte_example :
    get_user_pte (set_page_prot 0x1000 0 1 1 user_mem) 0x1000 0x123 ≡ (
      if leb 0 0x123 && ltb 0x123 (0 + 1 * 4096)
      then protected_pte 1 (get_user_pte user_mem 0x1000 0x123)
      else get_user_pte user_mem 0x1000 0x123)
set_page_prot-get_user_pte_example =
    set_page_prot-get_user_pte 0x1000 1 user_owner 1 user 0 0x123 user-IsTree refl (omega arith)
      only (omega arith)
  where
    only : (i : ℕ) → i < 1 → IsSmall (walk user_mem 0x1000 (indices (0 + i * 4096)))
    only zero h = subst IsSmall (sym user_walk) refl
    only (suc i) h = absurd (omega (arith, h))
