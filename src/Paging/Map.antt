-- ===== src/Paging/Map.antt =====
-- `map_4k`: after it the page is mapped, and every other page as before.
use chod_os.Base.{
  ℕ, ◌+◌, ◌*◌, ◌/◌, ◌%◌, ◌^◌, ◌≡◌, ◌<◌, ◌≤◌, refl, sym, ap, ◌∙◌, true, false, Option, none, some,
  List, [], arith, if◌then◌else◌, inl, inr, Bool-cases, bit_or,
}
use chod_os.Base.Cells.{store64_outside, Memory}
use chod_os.Base.Words.{u64}
use chod_os.Memory.Frame.{is_free}
use chod_os.Paging.{
  index1, Machine, present, page_of, set_entry, map_4k, virt_to_phys, get_user_pte,
}
use chod_os.Paging.Bits.{bit_or-page, bit_or-one}
use chod_os.Paging.Walk.{walk, indices, address, pte_of, virt_to_phys-walk, get_user_pte-walk}
use chod_os.Paging.Tree.{outside_tables, IsTree}
use chod_os.Paging.Leaf.{
  owner-pt, leaf_of, same_page, set_leaf-IsTree, set_leaf-walk, indices-AreIndices, leaf_set,
}
use chod_os.Paging.Find.{IsSmall, pte_for, finds, map_4k-Found}

-- What `map_4k` leaves: a tree, in which `va` leads to `pte` and every other page where it led.
pub record Mapped (m : Machine) (root : ℕ) (owner : ℕ → Option (List ℕ)) (va pte : ℕ) (m' : Machine)
    (owner' : ℕ → Option (List ℕ)) : Type 0 where
  pub tree : IsTree m' root owner'
  pub walks :
      (va' : ℕ)
      → walk m'.mem root (indices va')
        ≡ (if same_page va va' then leaf_of (u64 pte) else walk m.mem root (indices va'))
  pub frames : m.frames.free_frames ≤ m'.frames.free_frames + 3
  pub others : (f : ℕ) → is_free m.frames.bitmap f ≡ false → is_free m'.frames.bitmap f ≡ false
  pub kept : (t : ℕ) (p : List ℕ) → owner t ≡ some p → owner' t ≡ some p
  pub unowned :
      (t : ℕ) → is_free m.frames.bitmap (t / 4096) ≡ false → owner t ≡ none → owner' t ≡ none
  pub bytes :
      (q : ℕ)
      → is_free m.frames.bitmap (q / 4096) ≡ false
      → owner (page_of q) ≡ none
      → m'.mem q ≡ m.mem q
  pub rest : (m'.kernel_cr3 ≡ m.kernel_cr3) × (m'.ro_channel_slot ≡ m.ro_channel_slot)

pub data Maps (m : Machine) (root : ℕ) (owner : ℕ → Option (List ℕ)) (va paddr flags : ℕ)
    : Type 0 where
  maps :
      (m' : Machine) (owner' : ℕ → Option (List ℕ))
      → map_4k root va paddr flags m ≡ some (tt, m')
      → Mapped m root owner va (pte_for paddr flags) m' owner'
      → Maps m root owner va paddr flags

pub map_4k-Mapped :
    (m : Machine) (root : ℕ) (owner : ℕ → Option (List ℕ)) (va paddr flags : ℕ)
    → IsTree m root owner
    → 3 ≤ m.frames.free_frames
    → IsSmall (walk m.mem root (indices va))
    → Maps m root owner va paddr flags
unfolding set_entry
map_4k-Mapped m root owner va paddr flags tree enough small =
    elim (map_4k-Found m root owner va paddr flags tree enough small) [
      | finds pt m3 ow3 run f ↦
          let pte = pte_for paddr flags in
          maps (leaf_set m3 root va pt ow3 f.tree f.reaches pte) ow3 run (record {
            tree = set_leaf-IsTree m3 root va pt ow3 f.tree f.reaches pte;
            walks = λ va'.
                set_leaf-walk m3 root va pt ow3 f.tree f.reaches pte va'
                ∙ ap (λ w. if same_page va va' then leaf_of (u64 pte) else w)
                    (f.walks (indices va') (indices-AreIndices va') refl);
            frames = f.frames;
            others = f.others;
            kept = f.kept;
            unowned = f.unowned;
            bytes = λ q u o.
                let page : is_free m.frames.bitmap (page_of q / 4096) ≡ false =
                  ap (is_free m.frames.bitmap) {x = page_of q / 4096} {y = q / 4096} (omega arith)
                  ∙ u in
                store64_outside m3.mem (pt + 8 * index1 va) pte q (
                  outside_tables f.tree pt (index1 va) q _
                    (owner-pt m3 root va pt ow3 f.tree f.reaches) (omega arith)
                    (f.unowned (page_of q) page o))
                ∙ f.bytes q u o;
            rest = f.rest;
          })
    ]

pub pte_for-add :
    (paddr flags : ℕ)
    → paddr < 2 ^ 64
    → flags < 4096
    → u64 (pte_for paddr flags) ≡ (page_of paddr + flags) / 2 * 2 + 1
pte_for-add paddr flags h k =
    let whole = bit_or-page (page_of paddr) flags (omega arith) k in
    omega (arith, ap (λ (t : ℕ). t / 2 * 2) whole, bit_or-one (bit_or (page_of paddr) flags), h, k)

-- What both readers of the tables say after the entry of one page became `pte`.
module _ (mem mem' : Memory) (root va pte va' : ℕ) (aligned : root % 4096 ≡ 0)
    (walks : walk mem' root (indices va')
      ≡ (if same_page va va' then leaf_of pte else walk mem root (indices va'))) where
  at_root : page_of root ≡ root
  at_root = omega (arith, aligned)

  pub virt_to_phys_after :
      virt_to_phys mem' root va'
      ≡ (if same_page va va' then address va' (leaf_of pte) else virt_to_phys mem root va')
  virt_to_phys_after =
      virt_to_phys-walk mem' root va'
      ∙ ap (λ t. address va' (walk mem' t (indices va'))) at_root
      ∙ ap (address va') walks
      ∙ elim (Bool-cases (same_page va va')) [
        | inl e ↦ rw e refl
        | inr e ↦ rw e (
            ap (λ t. address va' (walk mem t (indices va'))) (sym at_root)
            ∙ sym (virt_to_phys-walk mem root va'))
      ]

  pub get_user_pte_after :
      get_user_pte mem' root va'
      ≡ (if same_page va va' then pte_of (leaf_of pte) else get_user_pte mem root va')
  get_user_pte_after =
      get_user_pte-walk mem' root va'
      ∙ ap (λ t. pte_of (walk mem' t (indices va'))) at_root
      ∙ ap pte_of walks
      ∙ elim (Bool-cases (same_page va va')) [
        | inl e ↦ rw e refl
        | inr e ↦ rw e (
            ap (λ t. pte_of (walk mem t (indices va'))) (sym at_root)
            ∙ sym (get_user_pte-walk mem root va'))
      ]

-- An entry that is present, seen by both.
pub address-leaf_of :
    (pte va : ℕ) → present pte ≡ true → address va (leaf_of pte) ≡ some (page_of pte + va % 4096)
address-leaf_of pte va h =
    rw h
      (ap (λ (q : ℕ). some q) (bit_or-page (page_of pte) (va % 4096) (omega arith) (omega arith)))

pub pte_of-leaf_of : (pte : ℕ) → present pte ≡ true → pte_of (leaf_of pte) ≡ some pte
pte_of-leaf_of pte h = rw h refl

-- With three frames left and no large page in the way, mapping a page succeeds: afterwards every address
-- of that page leads to its place in the frame, with the flags that were asked for and `present`, and every
-- other address leads where it led. No table stands at two places of the tree, before and after.
pub map_4k-virt_to_phys :
    (m : Machine) (root : ℕ) (owner : ℕ → Option (List ℕ)) (va paddr flags va' : ℕ)
    → IsTree m root owner
    → 3 ≤ m.frames.free_frames
    → IsSmall (walk m.mem root (indices va))
    → paddr < 2 ^ 64
    → flags < 4096
    → (m' : Machine) × (owner' : ℕ → Option (List ℕ)) × (map_4k root va paddr flags m
        ≡ some (tt, m'))
      × IsTree m' root owner'
      × (virt_to_phys m'.mem root va' ≡ (
          if same_page va va'
          then some (page_of paddr + va' % 4096)
          else virt_to_phys m.mem root va'))
      × (get_user_pte m'.mem root va' ≡ (
          if same_page va va'
          then some ((page_of paddr + flags) / 2 * 2 + 1)
          else get_user_pte m.mem root va'))
map_4k-virt_to_phys m root owner va paddr flags va' tree enough small h k =
    elim (map_4k-Mapped m root owner va paddr flags tree enough small) [
      | maps m' owner' run d ↦
          let pte = u64 (pte_for paddr flags) in
          let value = pte_for-add paddr flags h k in
          let here : present pte ≡ true = ground (arith, value) in
          let aligned = tree.aligned root [] tree.top in
          (
            m',
            owner',
            run,
            d.tree,
            virt_to_phys_after m.mem m'.mem root va pte va' aligned (d.walks va')
                ∙ ap (λ o. if same_page va va' then o else virt_to_phys m.mem root va')
                    (address-leaf_of pte va' here
                      ∙ ap (λ (q : ℕ). some (q + va' % 4096)) (omega (arith, value, k))),
            get_user_pte_after m.mem m'.mem root va pte va' aligned (d.walks va')
                ∙ ap (λ o. if same_page va va' then o else get_user_pte m.mem root va')
                    (pte_of-leaf_of pte here ∙ ap (λ (q : ℕ). some q) value),
          )
    ]
