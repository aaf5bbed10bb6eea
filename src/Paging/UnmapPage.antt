-- ===== src/Paging/UnmapPage.antt =====
-- `munmap_pages`, one page of it.
use chod_os.Base.{
  ℕ, ◌+◌, ◌/◌, ◌%◌, ◌^◌, ◌≡◌, ◌≢◌, refl, ap, ◌∙◌, Option, none, some, List, [], arith,
  if◌then◌else◌, Bool, false, ◌&&◌, ◌||◌, ◌==◌, ltb, sym, inl, inr, Option-cases, ℕ_discrete, subst,
  dec_lt,
}
use chod_os.Memory.Frame.{is_free, free_frame, max_frames}
use chod_os.Memory.Frame.Alloc.{free_frame-Freed, free_frame_outside}
use chod_os.Paging.{Machine, page_of, virt_to_phys, find_pt, munmap_page}
use chod_os.Paging.Walk.{walk, indices, address, virt_to_phys-walk}
use chod_os.Paging.Tree.{IsTree}
use chod_os.Paging.Leaf.{
  Reaches, leads, walk-Leads, leaf_set, same_page, same_page-indices, set_leaf-IsTree,
  set_leaf-walk,
}
use chod_os.Paging.Map.{address-leaf_of}

-- Nothing, or a small page whose frame is no table of the tree.
abbrev pub IsOrdinary : (ℕ → Option (List ℕ)) → Option (ℕ × ℕ) → Type 0
IsOrdinary owner none = Unit
IsOrdinary owner (some (e, k)) = (k ≡ 0) × (owner (page_of e) ≡ none)

-- Whether what a walk found is in frame `f`.
abbrev pub leads_into : ℕ → Option (ℕ × ℕ) → Bool
leads_into f none = false
leads_into f (some (e, k)) = e / 4096 == f

-- What unmapping the page of `va` leaves.
pub record Unmapped (m : Machine) (root : ℕ) (owner : ℕ → Option (List ℕ)) (va : ℕ) (m' : Machine)
    : Type 0 where
  pub tree : IsTree m' root owner
  pub walks :
      (va' : ℕ)
      → walk m'.mem root (indices va')
        ≡ (if same_page va va' then none else walk m.mem root (indices va'))
  pub free :
      (f : ℕ)
      → is_free m'.frames.bitmap f ≡ (
          is_free m.frames.bitmap f
          || (ltb f max_frames && leads_into f (walk m.mem root (indices va))))

module _ (m : Machine) (root : ℕ) (owner : ℕ → Option (List ℕ)) (va : ℕ)
    (tree : IsTree m root owner) where
  at_root : page_of root ≡ root
  at_root = omega (arith, tree.aligned root [] tree.top)

  munmap_page-none : walk m.mem root (indices va) ≡ none → munmap_page root va m ≡ m
  unfolding munmap_page
  munmap_page-none h =
      rw
        (
          virt_to_phys-walk m.mem root va
              ∙ ap (λ t. address va (walk m.mem t (indices va))) at_root
              ∙ ap (address va) h,
          munmap_page,
        )
        refl

  none-Unmapped : walk m.mem root (indices va) ≡ none → Unmapped m root owner va m
  none-Unmapped h = record {
    tree = tree;
    walks = λ va'. elim (ℕ_discrete (va / 4096 % 2 ^ 36) (va' / 4096 % 2 ^ 36)) [
      | yes e ↦ ap (walk m.mem root) (same_page-indices va va' e) ∙ h ∙ ground (arith, e)
      | no ne ↦ ground (arith, ne)
    ];
    free = λ f. ground (arith, ap (leads_into f) h);
  }

  module _ (e pt : ℕ) (r : Reaches m.mem root va pt) (found : find_pt m.mem root va ≡ some pt)
      (ordinary : owner (page_of e) ≡ none)
      (leads_to : walk m.mem root (indices va) ≡ some (e, 0)) where
    after : Machine
    after = record (leaf_set m root va pt owner tree r 0) {
      frames = free_frame m.frames (page_of e);
    }

    munmap_page-some :
        virt_to_phys m.mem root va ≡ some (page_of e + va % 4096) → munmap_page root va m ≡ after
    unfolding munmap_page after
    munmap_page-some h =
        let page : page_of (page_of e + va % 4096) ≡ page_of e = omega arith in
        rw (h, munmap_page) (rw (found) (rw page refl))

    after-Unmapped : Unmapped m root owner va after
    unfolding after
    after-Unmapped =
        let f = free_frame-Freed m.frames (page_of e) tree.valid in
        let t0 = set_leaf-IsTree m root va pt owner tree r 0 in
        record {
          tree = record {
            valid = f.valid;
            top = tree.top;
            aligned = tree.aligned;
            used = λ t p h. f.others (t / 4096) (apart t p h) ∙ tree.used t p h;
            child = t0.child;
          };
          walks = set_leaf-walk m root va pt owner tree r 0;
          free = λ q.
              freed q
              ∙ ap (λ w. is_free m.frames.bitmap q || (ltb q max_frames && leads_into q w))
                  (sym leads_to);
        }
      where
        apart : (t : ℕ) (p : List ℕ) → owner t ≡ some p → t / 4096 ≢ page_of e / 4096
        apart t p h q =
            let e' : t ≡ page_of e = omega (arith, q, tree.aligned t p h) in
            cc (ap owner e', h, ordinary)

        freed :
            (q : ℕ)
            → is_free (free_frame m.frames (page_of e)).bitmap q
              ≡ (is_free m.frames.bitmap q || (ltb q max_frames && (e / 4096 == q)))
        freed q =
            let f = free_frame-Freed m.frames (page_of e) tree.valid in
            elim (ℕ_discrete q (page_of e / 4096)) [
              | no ne ↦ f.others q ne ∙ ground (arith, ne)
              | yes here ↦ elim (dec_lt q max_frames) [
                | yes l ↦
                    ap (is_free (free_frame m.frames (page_of e)).bitmap) here
                    ∙ f.free (omega (arith, here, l))
                    ∙ ground (arith, here, l)
                | no l ↦
                    ap (λ s. is_free s.bitmap q)
                      (free_frame_outside m.frames (page_of e) (omega (arith, here, l)))
                    ∙ ground (arith, l)
              ]
            ]

pub munmap_page-Unmapped :
    (m : Machine) (root : ℕ) (owner : ℕ → Option (List ℕ)) (va : ℕ)
    → IsTree m root owner
    → IsOrdinary owner (walk m.mem root (indices va))
    → Unmapped m root owner va (munmap_page root va m)
munmap_page-Unmapped m root owner va tree ordinary =
    elim (Option-cases (walk m.mem root (indices va))) [
      | inl h ↦ rw (munmap_page-none m root owner va tree h) (none-Unmapped m root owner va tree h)
      | inr ((e, k), h) ↦
          let (zero_k, apart) = subst (IsOrdinary owner) h ordinary in
          let h0 : walk m.mem root (indices va) ≡ some (e, 0) =
            h ∙ ap (λ (j : ℕ). some (e, j)) zero_k in
          elim (walk-Leads m.mem root va e (tree.aligned root [] tree.top) h0) [
            | leads pt found r at here ↦
                let phys : virt_to_phys m.mem root va ≡ some (page_of e + va % 4096) =
                  virt_to_phys-walk m.mem root va
                  ∙ ap (λ t. address va (walk m.mem t (indices va))) (at_root m root owner va tree)
                  ∙ ap (address va) (h0 ∙ rw here refl)
                  ∙ address-leaf_of e va here in
                rw (munmap_page-some m root owner va tree e pt r found apart h0 phys)
                  (after-Unmapped m root owner va tree e pt r found apart h0)
          ]
    ]
