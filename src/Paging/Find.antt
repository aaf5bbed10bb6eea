-- ===== src/Paging/Find.antt =====
-- `map_4k`: the three steps to the page table of an address.
use chod_os.Base.{
  ℕ, ◌+◌, ◌/◌, ◌≡◌, ◌<◌, ◌≤◌, refl, sym, ap, ◌∙◌, true, false, ◌&&◌, Option, none, some, List, [],
  ◌∷◌, arith, ltb, length, inl, inr, Bool-cases, bit_or, subst,
}
use chod_os.Base.Cells.{Memory}
use chod_os.Memory.Frame.{is_free}
use chod_os.Paging.{
  Machine, ◌>>=◌, entry, present, huge, page_of, index1, index2, index3, index4, set_entry, map_4k,
  pte_present,
}
use chod_os.Paging.Walk.{walk, indices}
use chod_os.Paging.Tree.{IsTree, AreIndices, walk-next, walk-end, not-ends}
use chod_os.Paging.Create.{Opened}
use chod_os.Paging.Grow.{opens, get_or_create-Opened}
use chod_os.Paging.Leaf.{Reaches, indices-AreIndices}

-- What is found is no large page.
abbrev pub IsSmall : Option (ℕ × ℕ) → Type 0
IsSmall none = Unit
IsSmall (some (e, k)) = k ≡ 0

-- Where a walk finds no large page, an entry on its way is none.
plain_at :
    (mem : Memory) (t i : ℕ) (p is : List ℕ)
    → length p + length (i ∷ is) ≡ 4
    → 1 ≤ length is
    → IsSmall (walk mem t (i ∷ is))
    → present (entry mem t i) ≡ true
    → huge (entry mem t i) && ltb 0 (length p) ≡ false
plain_at mem t i p is size more small here =
    elim (Bool-cases (huge (entry mem t i) && ltb 0 (length p))) [
      | inr no_ ↦ no_
      | inl large ↦
          let found = walk-end mem t i is here (ground (arith, large, size)) in
          absurd (omega (arith, more, subst IsSmall found small))
    ]

module _ {m m' : Machine} {root tb t' i : ℕ} {owner owner' : ℕ → Option (List ℕ)} {pb : List ℕ}
    (o : Opened m root owner tb pb i t' m' owner') where
  Opened-walk :
      (is : List ℕ)
      → length pb < 3
      → length pb + length (i ∷ is) ≡ 4
      → walk m'.mem tb (i ∷ is) ≡ walk m'.mem t' is
  Opened-walk is short size =
      walk-next m'.mem tb i is o.here (not-ends pb is (entry m'.mem tb i) i size short o.small)
      ∙ ap (λ q. walk m'.mem q is) o.next

abbrev pub pte_for : ℕ → ℕ → ℕ
pte_for paddr flags = bit_or (bit_or (page_of paddr) flags) pte_present

-- The three steps to the page table of `va`.
pub record Found (m : Machine) (root : ℕ) (owner : ℕ → Option (List ℕ)) (va pt : ℕ) (m' : Machine)
    (owner' : ℕ → Option (List ℕ)) : Type 0 where
  pub tree : IsTree m' root owner'
  pub reaches : Reaches m'.mem root va pt
  pub walks :
      (is : List ℕ) → AreIndices is → length is ≡ 4 → walk m'.mem root is ≡ walk m.mem root is
  pub frames : m.frames.free_frames ≤ m'.frames.free_frames + 3
  pub others : (f : ℕ) → is_free m.frames.bitmap f ≡ false → is_free m'.frames.bitmap f ≡ false
  pub kept : (t : ℕ) (p : List ℕ) → owner t ≡ some p → owner' t ≡ some p
  pub unowned :
      (t : ℕ) → is_free m.frames.bitmap (t / 4096) ≡ false → owner t ≡ none → owner' t ≡ none
  pub bytes :
      (q : ℕ)
      → is_free m.frames.bitmap (q / 4096) ≡ false
      → owner (page_of q) ≡ none
      → m'.mem q ≡ m.mem q
  pub rest : (m'.kernel_cr3 ≡ m.kernel_cr3) × (m'.ro_channel_slot ≡ m.ro_channel_slot)

-- The walk to `va` after each of the first two steps.
walk_one :
    {m m1 : Machine} {root t1 : ℕ} {owner ow1 : ℕ → Option (List ℕ)} (va : ℕ)
    → Opened m root owner root [] (index4 va) t1 m1 ow1
    → walk m1.mem t1 (index3 va ∷ index2 va ∷ index1 va ∷ []) ≡ walk m.mem root (indices va)
walk_one va o =
    sym (Opened-walk o (index3 va ∷ index2 va ∷ index1 va ∷ []) (omega arith) refl)
    ∙ o.walks (indices va) (indices-AreIndices va) refl

module _ {m m1 m2 : Machine} {root t1 t2 : ℕ} {owner ow1 ow2 : ℕ → Option (List ℕ)} (va : ℕ)
    (o1 : Opened m root owner root [] (index4 va) t1 m1 ow1)
    (o2 : Opened m1 root ow1 t1 (index4 va ∷ []) (index3 va) t2 m2 ow2) where
  walk_two : walk m2.mem t2 (index2 va ∷ index1 va ∷ []) ≡ walk m.mem root (indices va)
  walk_two =
      let is3 = index3 va ∷ index2 va ∷ index1 va ∷ [] in
      let e4 = o2.entries root (index4 va) [] o1.tree.top (omega arith) o1.here in
      sym (Opened-walk o2 (index2 va ∷ index1 va ∷ []) (omega arith) refl)
      ∙ ap (λ q. walk m2.mem q is3) (sym (ap page_of e4 ∙ o1.next))
      ∙ sym (walk-next m2.mem root (index4 va) is3 (ap present e4 ∙ o1.here) (ground arith))
      ∙ o2.walks (indices va) (indices-AreIndices va) refl
      ∙ o1.walks (indices va) (indices-AreIndices va) refl

  page_used :
      (q : ℕ)
      → is_free m.frames.bitmap (q / 4096) ≡ false
      → is_free m.frames.bitmap (page_of q / 4096) ≡ false
  page_used q h =
      ap (is_free m.frames.bitmap) {x = page_of q / 4096} {y = q / 4096} (omega arith) ∙ h

  Opened-Found :
      {m3 : Machine} {pt : ℕ} {ow3 : ℕ → Option (List ℕ)}
      → Opened m2 root ow2 t2 (index3 va ∷ index4 va ∷ []) (index2 va) pt m3 ow3
      → Found m root owner va pt m3 ow3
  Opened-Found o3 =
      let e4 = o2.entries root (index4 va) [] o1.tree.top (omega arith) o1.here in
      let f4 =
        o3.entries root (index4 va) [] o2.tree.top (omega arith) (ap present e4 ∙ o1.here) ∙ e4 in
      let f3 =
        o3.entries t1 (index3 va) (index4 va ∷ []) (o2.kept t1 _ o1.mine) (omega arith) o2.here in
      record {
        tree = o3.tree;
        reaches = record {
          pdpt = t1;
          pd = t2;
          present4 = ap present f4 ∙ o1.here;
          next4 = ap page_of f4 ∙ o1.next;
          present3 = ap present f3 ∙ o2.here;
          small3 = ap huge f3 ∙ ground (arith, o2.small);
          next3 = ap page_of f3 ∙ o2.next;
          present2 = o3.here;
          small2 = ground (arith, o3.small);
          next2 = o3.next;
        };
        walks = λ is b four. o3.walks is b four ∙ o2.walks is b four ∙ o1.walks is b four;
        frames = omega (arith, o1.frames, o2.frames, o3.frames);
        others = λ f h. o3.others f (o2.others f (o1.others f h));
        kept = λ t p h. o3.kept t p (o2.kept t p (o1.kept t p h));
        unowned = λ t h o.
            o3.unowned t (o2.others _ (o1.others _ h))
              (o2.unowned t (o1.others _ h) (o1.unowned t h o));
        bytes = λ q u o.
            let u0 = page_used q u in
            o3.bytes q (o2.others _ (o1.others _ u))
              (o2.unowned (page_of q) (o1.others _ u0) (o1.unowned (page_of q) u0 o))
            ∙ o2.bytes q (o1.others _ u) (o1.unowned (page_of q) u0 o)
            ∙ o1.bytes q u o;
        rest = (o3.rest.0 ∙ o2.rest.0 ∙ o1.rest.0, o3.rest.1 ∙ o2.rest.1 ∙ o1.rest.1);
      }

pub data Finds (m : Machine) (root : ℕ) (owner : ℕ → Option (List ℕ)) (va paddr flags : ℕ)
    : Type 0 where
  finds :
      (pt : ℕ) (m' : Machine) (owner' : ℕ → Option (List ℕ))
      → map_4k root va paddr flags m ≡ set_entry pt (index1 va) (pte_for paddr flags) m'
      → Found m root owner va pt m' owner'
      → Finds m root owner va paddr flags

pub map_4k-Found :
    (m : Machine) (root : ℕ) (owner : ℕ → Option (List ℕ)) (va paddr flags : ℕ)
    → IsTree m root owner
    → 3 ≤ m.frames.free_frames
    → IsSmall (walk m.mem root (indices va))
    → Finds m root owner va paddr flags
unfolding map_4k
map_4k-Found m root owner va paddr flags tree enough small =
    elim (get_or_create-Opened m root owner root [] (index4 va) tree tree.top (omega arith)
      (omega arith) (λ h. ground arith) (omega (arith, enough))) [
        | opens t1 m1 ow1 run1 o1 ↦
            elim (get_or_create-Opened m1 root ow1 t1 (index4 va ∷ []) (index3 va) o1.tree o1.mine
              (omega arith) (omega arith)
              (plain_at m1.mem t1 (index3 va) (index4 va ∷ []) (index2 va ∷ index1 va ∷ []) refl
                (omega arith) (subst IsSmall (sym (walk_one va o1)) small))
              (omega (arith, enough, o1.frames))) [
                | opens t2 m2 ow2 run2 o2 ↦
                    elim (get_or_create-Opened m2 root ow2 t2 (index3 va ∷ index4 va ∷ [])
                      (index2 va) o2.tree o2.mine (omega arith) (omega arith)
                      (plain_at m2.mem t2 (index2 va) (index3 va ∷ index4 va ∷ []) (index1 va ∷ [])
                        refl (omega arith) (subst IsSmall (sym (walk_two va o1 o2)) small))
                      (omega (arith, enough, o1.frames, o2.frames))) [
                        | opens t3 m3 ow3 run3 o3 ↦
                            finds t3 m3 ow3
                              (rw (run1, map_4k, ◌>>=◌) (rw (run2, ◌>>=◌) (rw (run3, ◌>>=◌) refl)))
                              (Opened-Found va o1 o2 o3)
                      ]
              ]
      ]
