-- ===== src/Paging/Leaf.antt =====
-- The entry of one page: how a walk gets to it, and what a write of it changes.
use chod_os.Base.{
  ℕ, ◌+◌, ◌*◌, ◌/◌, ◌%◌, ◌^◌, ◌≡◌, ◌≢◌, ◌<◌, ◌≤◌, refl, sym, ap, ◌∙◌, Bool, true, false, ◌&&◌,
  Option, none, some, List, [], ◌∷◌, arith, if◌then◌else◌, ◌==◌, ltb, length, inl, inr, Bool-cases,
  ℕ_discrete,
}
use chod_os.Base.Cells.{Memory, store64}
use chod_os.Base.Words.{u64}
use chod_os.Paging.{Machine, entry, present, huge, page_of, index1, index2, index3, index4, find_pt}
use chod_os.Paging.Entries.{entry_set}
use chod_os.Paging.Walk.{walk, ends, indices}
use chod_os.Paging.Tree.{IsTree, AreIndices, walk-absent, walk-next, walk-end, walk_eq, onto}

-- Addresses of one page: the bits above the 48th are not looked at.
abbrev pub same_page : ℕ → ℕ → Bool
same_page va va' = va / 4096 % 2 ^ 36 == va' / 4096 % 2 ^ 36

-- The tables on the way to the entry of `va`, which is in `pt`.
pub record Reaches (mem : Memory) (root va pt : ℕ) : Type 0 where
  pub pdpt : ℕ
  pub pd : ℕ
  pub present4 : present (entry mem root (index4 va)) ≡ true
  pub next4 : page_of (entry mem root (index4 va)) ≡ pdpt
  pub present3 : present (entry mem pdpt (index3 va)) ≡ true
  pub small3 : huge (entry mem pdpt (index3 va)) ≡ false
  pub next3 : page_of (entry mem pdpt (index3 va)) ≡ pd
  pub present2 : present (entry mem pd (index2 va)) ≡ true
  pub small2 : huge (entry mem pd (index2 va)) ≡ false
  pub next2 : page_of (entry mem pd (index2 va)) ≡ pt

-- What a walk finds at an entry of the last level.
abbrev pub leaf_of : ℕ → Option (ℕ × ℕ)
leaf_of e = if present e then some (e, 0) else none

pub walk-leaf : (mem : Memory) (pt i : ℕ) → walk mem pt (i ∷ []) ≡ leaf_of (entry mem pt i)
unfolding walk
walk-leaf mem pt i = ground arith

pub Reaches-walk :
    (mem : Memory) (root va pt : ℕ)
    → Reaches mem root va pt
    → walk mem root (indices va) ≡ leaf_of (entry mem pt (index1 va))
Reaches-walk mem root va pt r =
    walk-next mem root (index4 va) (index3 va ∷ index2 va ∷ index1 va ∷ []) r.present4
      (ground arith)
    ∙ ap (λ t. walk mem t (index3 va ∷ index2 va ∷ index1 va ∷ [])) r.next4
    ∙ walk-next mem r.pdpt (index3 va) (index2 va ∷ index1 va ∷ []) r.present3
        (ground (arith, r.small3))
    ∙ ap (λ t. walk mem t (index2 va ∷ index1 va ∷ [])) r.next3
    ∙ walk-next mem r.pd (index2 va) (index1 va ∷ []) r.present2 (ground (arith, r.small2))
    ∙ ap (λ t. walk mem t (index1 va ∷ [])) r.next2
    ∙ walk-leaf mem pt (index1 va)

pub indices-AreIndices : (va : ℕ) → AreIndices (indices va)
indices-AreIndices va = (omega arith, (omega arith, (omega arith, (omega arith, tt))))

pub same_page-indices :
    (va va' : ℕ) → va / 4096 % 2 ^ 36 ≡ va' / 4096 % 2 ^ 36 → indices va' ≡ indices va
same_page-indices va va' e =
    let e4 : index4 va' ≡ index4 va = omega (arith, e) in
    let e3 : index3 va' ≡ index3 va = omega (arith, e) in
    let e2 : index2 va' ≡ index2 va = omega (arith, e) in
    let e1 : index1 va' ≡ index1 va = omega (arith, e) in cc (e4, e3, e2, e1)

-- A walk that ends at the last level went through the page table.
pub data Leads (mem : Memory) (root va e : ℕ) : Type 0 where
  leads :
      (pt : ℕ)
      → find_pt mem root va ≡ some pt
      → Reaches mem root va pt
      → entry mem pt (index1 va) ≡ e
      → present e ≡ true
      → Leads mem root va e

walk-on :
    (mem : Memory) (t i e : ℕ) (is : List ℕ)
    → 1 ≤ length is
    → walk mem t (i ∷ is) ≡ some (e, 0)
    → (present (entry mem t i) ≡ true)
      × (ends is (entry mem t i) ≡ false)
      × (walk mem (page_of (entry mem t i)) is ≡ some (e, 0))
walk-on mem t i e is more h = elim (Bool-cases (present (entry mem t i))) [
  | inr absent ↦ absurd (ground (arith, h, walk-absent mem t i is absent))
  | inl here ↦ elim (Bool-cases (ends is (entry mem t i))) [
    | inl done ↦ absurd (ground (arith, h, walk-end mem t i is here done, more))
    | inr on ↦ (here, on, sym (walk-next mem t i is here on) ∙ h)
  ]
]

pub walk-Leads :
    (mem : Memory) (root va e : ℕ)
    → root % 4096 ≡ 0
    → walk mem root (indices va) ≡ some (e, 0)
    → Leads mem root va e
unfolding find_pt
walk-Leads mem root va e aligned h =
    let (h4, _, w3) =
      walk-on mem root (index4 va) e (index3 va ∷ index2 va ∷ index1 va ∷ []) (omega arith) h in
    let pdpt = page_of (entry mem root (index4 va)) in
    let (h3, on3, w2) =
      walk-on mem pdpt (index3 va) e (index2 va ∷ index1 va ∷ []) (omega arith) w3 in
    let pd = page_of (entry mem pdpt (index3 va)) in
    let (h2, on2, w1) = walk-on mem pd (index2 va) e (index1 va ∷ []) (omega arith) w2 in
    let pt = page_of (entry mem pd (index2 va)) in
    let found = sym (walk-leaf mem pt (index1 va)) ∙ w1 in
    let at : page_of root ≡ root = omega (arith, aligned) in
    leads pt (rw (at, h4, find_pt) (rw (h3) (rw h2 refl)))
      (record {
        pdpt = pdpt;
        pd = pd;
        present4 = h4;
        next4 = refl;
        present3 = h3;
        small3 = ground (arith, on3);
        next3 = refl;
        present2 = h2;
        small2 = ground (arith, on2);
        next2 = refl;
      })
      (ground (arith, found)) (ground (arith, found))

module _ (m : Machine) (root va pt : ℕ) (owner : ℕ → Option (List ℕ)) (tree : IsTree m root owner)
    (r : Reaches m.mem root va pt) where
  pub owner-pdpt : owner r.pdpt ≡ some (index4 va ∷ [])
  owner-pdpt =
      ap owner (sym r.next4)
      ∙ tree.child root [] (index4 va) tree.top (omega arith) (omega arith) r.present4
          (ground arith)

  pub owner-pd : owner r.pd ≡ some (index3 va ∷ index4 va ∷ [])
  owner-pd =
      ap owner (sym r.next3)
      ∙ tree.child r.pdpt _ (index3 va) owner-pdpt (omega arith) (omega arith) r.present3
          (ground (arith, r.small3))

  pub owner-pt : owner pt ≡ some (index2 va ∷ index3 va ∷ index4 va ∷ [])
  owner-pt =
      ap owner (sym r.next2)
      ∙ tree.child r.pd _ (index2 va) owner-pd (omega arith) (omega arith) r.present2
          (ground (arith, r.small2))

  abbrev pub leaf_set : ℕ → Machine
  leaf_set v = record m { mem = store64 m.mem (pt + 8 * index1 va) v }

  kept :
      (v t j : ℕ) (p : List ℕ)
      → owner t ≡ some p
      → j < 512
      → (pt == t) && (index1 va == j) ≡ false
      → entry (leaf_set v).mem t j ≡ entry m.mem t j
  kept v t j p own less miss =
      entry_set m.mem pt t (index1 va) j (tree.aligned pt _ owner-pt) (tree.aligned t p own)
        (omega arith) less v
      ∙ ground (arith, miss)

  -- A table above the last level is another one.
  kept_above :
      (v t j : ℕ) (p : List ℕ)
      → owner t ≡ some p
      → length p < 3
      → j < 512
      → entry (leaf_set v).mem t j ≡ entry m.mem t j
  kept_above v t j p own short less = kept v t j p own less (elim (ℕ_discrete pt t) [
    | no ne ↦ ground (arith, ne)
    | yes e ↦
        absurd
          (omega (arith, short, ap length (same_owner (sym own ∙ ap owner (sym e) ∙ owner-pt))))
  ])
    where
      same_owner : {p q : List ℕ} → some p ≡ some q → p ≡ q
      same_owner e = cc

  pub set_leaf-IsTree : (v : ℕ) → IsTree (leaf_set v) root owner
  set_leaf-IsTree v = record {
    valid = tree.valid;
    top = tree.top;
    aligned = tree.aligned;
    used = tree.used;
    child = λ t p j own short less pres small.
        let e = kept_above v t j p own short less in
        ap (λ q. owner (page_of q)) e
        ∙ tree.child t p j own short less (ap present (sym e) ∙ pres)
            (ap (λ q. huge q && ltb 0 (length p)) (sym e) ∙ small);
  }

  pub set_leaf-Reaches : (v : ℕ) → Reaches (leaf_set v).mem root va pt
  set_leaf-Reaches v =
      let e4 = kept_above v root (index4 va) [] tree.top (omega arith) (omega arith) in
      let e3 = kept_above v r.pdpt (index3 va) _ owner-pdpt (omega arith) (omega arith) in
      let e2 = kept_above v r.pd (index2 va) _ owner-pd (omega arith) (omega arith) in
      record {
        pdpt = r.pdpt;
        pd = r.pd;
        present4 = ap present e4 ∙ r.present4;
        next4 = ap page_of e4 ∙ r.next4;
        present3 = ap present e3 ∙ r.present3;
        small3 = ap huge e3 ∙ r.small3;
        next3 = ap page_of e3 ∙ r.next3;
        present2 = ap present e2 ∙ r.present2;
        small2 = ap huge e2 ∙ r.small2;
        next2 = ap page_of e2 ∙ r.next2;
      }

  -- Only the one page is found otherwise.
  pub set_leaf-walk :
      (v va' : ℕ)
      → walk (leaf_set v).mem root (indices va')
        ≡ (if same_page va va' then leaf_of (u64 v) else walk m.mem root (indices va'))
  set_leaf-walk v va' = elim (ℕ_discrete (va / 4096 % 2 ^ 36) (va' / 4096 % 2 ^ 36)) [
    | yes e ↦
        let found : entry (leaf_set v).mem pt (index1 va) ≡ u64 v =
          entry_set m.mem pt pt (index1 va) (index1 va) (tree.aligned pt _ owner-pt)
            (tree.aligned pt _ owner-pt) (omega arith) (omega arith) v
          ∙ ground arith in
        ap (walk (leaf_set v).mem root) (same_page-indices va va' e)
        ∙ Reaches-walk (leaf_set v).mem root va pt (set_leaf-Reaches v)
        ∙ ground (arith, e, found)
    | no ne ↦
        walk_eq m (leaf_set v).mem root owner tree pt (index1 va) (onto (indices va') []) (kept v)
          (there ne) root [] (indices va') tree.top (omega arith) (indices-AreIndices va') refl
        ∙ ground (arith, ne)
  ]
    where
      owner_path :
          (t j : ℕ) (p : List ℕ)
          → (pt == t) && (index1 va == j) ≡ true
          → owner t ≡ some p
          → p ≡ index2 va ∷ index3 va ∷ index4 va ∷ []
      owner_path t j p hit own =
          let e : pt ≡ t = ground (arith, hit) in cc (own, ap owner e, owner-pt)

      there :
          va / 4096 % 2 ^ 36 ≢ va' / 4096 % 2 ^ 36
          → (t j : ℕ) (p is : List ℕ) → (pt == t) && (index1 va == j) ≡ true
          → owner t ≡ some p
          → length p + length (j ∷ is) ≡ 4
          → AreIndices is
          → onto is (j ∷ p) ≡ onto (indices va') []
          → walk (leaf_set v).mem t (j ∷ is) ≡ walk m.mem t (j ∷ is)
      there ne t j p [] hit own size below path =
          let place : p ≡ index2 va ∷ index3 va ∷ index4 va ∷ [] = owner_path t j p hit own in
          let e4 : index4 va ≡ index4 va' = cc (path, place) in
          let e3 : index3 va ≡ index3 va' = cc (path, place) in
          let e2 : index2 va ≡ index2 va' = cc (path, place) in
          let e1 : j ≡ index1 va' = cc path in
          let e0 : index1 va ≡ j = ground (arith, hit) in
          absurd (ne (omega (arith, e4, e3, e2, e1, e0)))
      there ne t j p (k ∷ is) hit own size below path =
          absurd (omega (arith, size, ap length (owner_path t j p hit own)))
