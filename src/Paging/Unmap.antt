-- ===== src/Paging/Unmap.antt =====
-- `munmap_pages`: the pages lead nowhere, their frames are free, and the other pages are as before.
use chod_os.Base.{
  ℕ, zero, suc, ◌+◌, ◌*◌, ◌%◌, ◌^◌, ◌≡◌, ◌<◌, ◌≤◌, refl, sym, ap, ◌∙◌, Bool, false, ◌&&◌, ◌||◌,
  Option, none, List, [], arith, if◌then◌else◌, ltb, leb, inl, inr, Bool-cases, subst,
}
use chod_os.Base.Cells.{Memory}
use chod_os.Memory.Frame.{is_free, max_frames}
use chod_os.Paging.{Machine, page_of, virt_to_phys, munmap_page, munmap_pages}
use chod_os.Paging.Walk.{walk, indices, address, virt_to_phys-walk}
use chod_os.Paging.Tree.{IsTree}
use chod_os.Paging.Leaf.{same_page, same_page-indices}
use chod_os.Paging.UnmapPage.{leads_into, IsOrdinary, Unmapped, munmap_page-Unmapped}

-- Whether `va'` is in one of the `count` pages from `va` on.
abbrev in_pages : ℕ → ℕ → ℕ → Bool
in_pages va zero va' = false
in_pages va (suc count) va' = same_page va va' || in_pages (va + 4096) count va'

in_pages-range :
    (va count va' : ℕ)
    → va % 4096 ≡ 0
    → va + count * 4096 ≤ 2 ^ 48
    → va' < 2 ^ 48
    → in_pages va count va' ≡ (leb va va' && ltb va' (va + count * 4096))
in_pages-range va zero va' h k l = ground (arith, h, k, l)
in_pages-range va (suc count) va' h k l =
    ground
      (arith, h, k, l, in_pages-range (va + 4096) count va' (omega (arith, h)) (omega (arith, k)) l)

-- Whether one of the `count` pages from `va` on is in frame `f`.
abbrev pub any_leads : Memory → ℕ → ℕ → ℕ → ℕ → Bool
any_leads mem root f va zero = false
any_leads mem root f va (suc count) =
    leads_into f (walk mem root (indices va)) || any_leads mem root f (va + 4096) count

record AllUnmapped (m : Machine) (root : ℕ) (owner : ℕ → Option (List ℕ)) (va count : ℕ)
    (m' : Machine) : Type 0 where
  tree : IsTree m' root owner
  walks :
      (va' : ℕ)
      → walk m'.mem root (indices va')
        ≡ (if in_pages va count va' then none else walk m.mem root (indices va'))
  free :
      (f : ℕ)
      → is_free m'.frames.bitmap f
        ≡ (is_free m.frames.bitmap f || (ltb f max_frames && any_leads m.mem root f va count))

-- The pages behind, seen after the page of `va` was unmapped.
any_leads-after :
    {m m1 : Machine} {root va : ℕ} {owner : ℕ → Option (List ℕ)}
    → Unmapped m root owner va m1
    → (f va' count : ℕ)
    → (leads_into f (walk m.mem root (indices va)) || any_leads m1.mem root f va' count)
      ≡ (leads_into f (walk m.mem root (indices va)) || any_leads m.mem root f va' count)
any_leads-after u f va' zero = refl
any_leads-after {m} {m1} {root} {va} u f va' (suc count) =
    let rest = any_leads-after u f (va' + 4096) count in
    elim (Bool-cases (same_page va va')) [
      | inl same ↦
          let gone : walk m1.mem root (indices va') ≡ none = u.walks va' ∙ rw same refl in
          let here = ap (walk m.mem root) (same_page-indices va va' (ground (arith, same))) in
          ground (arith, rest, ap (leads_into f) gone, ap (leads_into f) here)
      | inr other ↦
          let kept : walk m1.mem root (indices va') ≡ walk m.mem root (indices va') =
            u.walks va' ∙ rw other refl in
          ground (arith, rest, ap (leads_into f) kept)
    ]

-- One page, and then the others.
AllUnmapped-suc :
    {m m1 m' : Machine} {root va count : ℕ} {owner : ℕ → Option (List ℕ)}
    → Unmapped m root owner va m1
    → AllUnmapped m1 root owner (va + 4096) count m'
    → AllUnmapped m root owner va (suc count) m'
AllUnmapped-suc {m} {m1} {m'} {root} {va} {count} u rest = record {
  tree = rest.tree;
  walks = λ va'. rest.walks va' ∙ ground (arith, u.walks va');
  free = λ f. ground (arith, rest.free f, u.free f, any_leads-after u f (va + 4096) count);
}

munmap_pages-AllUnmapped :
    (root : ℕ) (owner : ℕ → Option (List ℕ)) (count : ℕ) (m : Machine) (va : ℕ)
    → IsTree m root owner
    → ((i : ℕ) → i < count → IsOrdinary owner (walk m.mem root (indices (va + i * 4096))))
    → AllUnmapped m root owner va count (munmap_pages root va count m)
unfolding munmap_pages
munmap_pages-AllUnmapped root owner zero m va tree ordinary = record {
  tree = tree;
  walks = λ va'. refl;
  free = λ f. ground arith;
}
munmap_pages-AllUnmapped root owner (suc count) m va tree ordinary =
    let o : IsOrdinary owner (walk m.mem root (indices va)) =
      subst (λ a. IsOrdinary owner (walk m.mem root (indices a))) {x = va + 0 * 4096} {y = va}
        (omega arith) (ordinary 0 (omega arith)) in
    let u = munmap_page-Unmapped m root owner va tree o in
    AllUnmapped-suc u (
      munmap_pages-AllUnmapped root owner count (munmap_page root va m) (va + 4096) u.tree
        (λ i less.
          let a = va + 4096 + i * 4096 in
          let before : IsOrdinary owner (walk m.mem root (indices a)) =
            subst (λ b. IsOrdinary owner (walk m.mem root (indices b))) {x = va + suc i * 4096}
              {y = a} (omega arith) (ordinary (suc i) (omega (arith, less))) in
          elim (Bool-cases (same_page va a)) [
            | inl same ↦
                let gone : walk (munmap_page root va m).mem root (indices a) ≡ none =
                  u.walks a ∙ rw same refl in
                subst (IsOrdinary owner) (sym gone) tt
            | inr other ↦
                let kept : walk (munmap_page root va m).mem root (indices a)
                    ≡ walk m.mem root (indices a) =
                  u.walks a ∙ rw other refl in
                subst (IsOrdinary owner) (sym kept) before
          ]))

-- After `munmap_pages` the pages of the range lead nowhere and every address outside it leads where it led;
-- the frames that are free are those that were free before and those, of the frames that the allocator
-- keeps, which a page of the range led to. The range starts at a page and ends below 2^48; each of its
-- pages is a small one whose frame is no table of the tree, or is not mapped. No table stands at two places,
-- before and after.
pub munmap_pages-virt_to_phys :
    (root : ℕ) (owner : ℕ → Option (List ℕ)) (count : ℕ) (m : Machine) (va va' f : ℕ)
    → IsTree m root owner
    → ((i : ℕ) → i < count → IsOrdinary owner (walk m.mem root (indices (va + i * 4096))))
    → va % 4096 ≡ 0
    → va + count * 4096 ≤ 2 ^ 48
    → va' < 2 ^ 48
    → let m' = munmap_pages root va count m in
      IsTree m' root owner
      × (virt_to_phys m'.mem root va' ≡ (
          if leb va va' && ltb va' (va + count * 4096) then none else virt_to_phys m.mem root va'))
      × (is_free m'.frames.bitmap f
          ≡ (is_free m.frames.bitmap f || (ltb f max_frames && any_leads m.mem root f va count)))
munmap_pages-virt_to_phys root owner count m va va' f tree ordinary start end low =
    let all = munmap_pages-AllUnmapped root owner count m va tree ordinary in
    let m' = munmap_pages root va count m in
    let at : page_of root ≡ root = omega (arith, tree.aligned root [] tree.top) in
    (
      all.tree,
      virt_to_phys-walk m'.mem root va'
          ∙ ap (λ t. address va' (walk m'.mem t (indices va'))) at
          ∙ ap (address va') (
              all.walks va'
              ∙ ap (λ b. if b then none else walk m.mem root (indices va'))
                  (in_pages-range va count va' start end low))
          ∙ elim (Bool-cases (leb va va' && ltb va' (va + count * 4096))) [
            | inl b ↦ rw b refl
            | inr b ↦ rw b (
                ap (λ t. address va' (walk m.mem t (indices va'))) (sym at)
                ∙ sym (virt_to_phys-walk m.mem root va'))
          ],
      all.free f,
    )
