-- ===== src/Paging/Protect.antt =====
-- `set_page_prot`: the rights of the pages of a range.
use chod_os.Base.{
  ℕ, zero, suc, ◌+◌, ◌*◌, ◌/◌, ◌%◌, ◌^◌, ◌≡◌, ◌<◌, ◌≤◌, refl, sym, ap, ◌∙◌, Bool, true, false, ◌&&◌,
  Option, none, some, List, [], arith, if◌then◌else◌, ◌==◌, ltb, leb, inl, inr, Bool-cases,
  Option-cases, ℕ_discrete, bit_or, bit_and, subst,
}
use chod_os.Base.Cells.{store64}
use chod_os.Base.Words.{u64}
use chod_os.Paging.{
  Machine, entry, present, page_of, index1, find_pt, set_page_prot, set_page_prot_at, prot_pte,
  get_user_pte,
}
use chod_os.Paging.Bits.{bit_or-page}
use chod_os.Paging.Entries.{entry-lt}
use chod_os.Paging.Walk.{walk, indices, pte_of, get_user_pte-walk}
use chod_os.Paging.Tree.{IsTree}
use chod_os.Paging.Leaf.{
  leads, walk-Leads, leaf_of, same_page, same_page-indices, set_leaf-IsTree, set_leaf-walk,
}
use chod_os.Paging.Find.{IsSmall}

-- What a mapped page becomes.
abbrev pub protected : ℕ → Option (ℕ × ℕ) → Option (ℕ × ℕ)
protected prot none = none
protected prot (some (e, k)) =
    if prot == 0 then none else some (page_of e + (if bit_and prot 2 == 0 then 5 else 7), 0)

prot_pte-leaf_of :
    (e prot : ℕ) → e < 2 ^ 64 → leaf_of (u64 (prot_pte e prot)) ≡ protected prot (some (e, 0))
prot_pte-leaf_of e prot h = elim (Bool-cases (prot == 0)) [
  | inl b ↦
      let there : present (u64 (page_of e)) ≡ false = ground (arith, h) in rw b (rw there refl)
  | inr b ↦ elim (Bool-cases (bit_and prot 2 == 0)) [
    | inl c ↦ rw (b, c) (with_flags 5 (omega arith) (omega arith))
    | inr c ↦ rw (b, c) (with_flags 7 (omega arith) (omega arith))
  ]
]
  where
    with_flags :
        (f : ℕ) → f < 8 → f % 2 ≡ 1 → leaf_of (u64 (bit_or (page_of e) f)) ≡ some (page_of e + f, 0)
    with_flags f small odd =
        let value : u64 (bit_or (page_of e) f) ≡ page_of e + f =
          omega (arith, bit_or-page (page_of e) f (omega arith) (omega (arith, small)), h, small) in
        let there : present (page_of e + f) ≡ true = ground (arith, odd) in rw value (rw there refl)

module _ (m : Machine) (root va prot : ℕ) (owner : ℕ → Option (List ℕ))
    (tree : IsTree m root owner) where
  after : Machine
  after = record m { mem = set_page_prot_at root va prot m.mem }

  at_root : page_of root ≡ root
  at_root = omega (arith, tree.aligned root [] tree.top)

  prot_at-none : walk m.mem root (indices va) ≡ none → set_page_prot_at root va prot m.mem ≡ m.mem
  unfolding set_page_prot_at find_pt walk
  prot_at-none h = ground (arith, h, at_root)

  prot_at-some :
      (pt e : ℕ)
      → find_pt m.mem root va ≡ some pt
      → entry m.mem pt (index1 va) ≡ e
      → present e ≡ true
      → set_page_prot_at root va prot m.mem ≡ store64 m.mem (pt + 8 * index1 va) (prot_pte e prot)
  unfolding set_page_prot_at
  prot_at-some pt e found at here =
      let there : present (entry m.mem pt (index1 va)) ≡ true = ap present at ∙ here in
      rw (found, set_page_prot_at)
        (rw there (ap (λ q. store64 m.mem (pt + 8 * index1 va) (prot_pte q prot)) at))

  -- One page.
  prot_at-walk :
      IsSmall (walk m.mem root (indices va))
      → IsTree after root owner
        × ((va' : ℕ)
            → walk after.mem root (indices va') ≡ (
                if same_page va va'
                then protected prot (walk m.mem root (indices va))
                else walk m.mem root (indices va')))
  unfolding after
  prot_at-walk small = elim (Option-cases (walk m.mem root (indices va))) [
    | inl h ↦ rw (prot_at-none h) (
      tree,
      λ va'. elim (ℕ_discrete (va / 4096 % 2 ^ 36) (va' / 4096 % 2 ^ 36)) [
        | yes e ↦ ap (walk m.mem root) (same_page-indices va va' e) ∙ h ∙ ground (arith, e, h)
        | no ne ↦ ground (arith, ne)
      ],
    )
    | inr ((e, k), h) ↦
        let zero_k : k ≡ 0 = subst IsSmall h small in
        let h0 : walk m.mem root (indices va) ≡ some (e, 0) =
          h ∙ ap (λ (j : ℕ). some (e, j)) zero_k in
        elim (walk-Leads m.mem root va e (tree.aligned root [] tree.top) h0) [
          | leads pt found r at here ↦ rw (prot_at-some pt e found at here) (
            set_leaf-IsTree m root va pt owner tree r (prot_pte e prot),
            λ va'.
                set_leaf-walk m root va pt owner tree r (prot_pte e prot) va'
                ∙ ap (λ w. if same_page va va' then w else walk m.mem root (indices va'))
                    (prot_pte-leaf_of e prot
                        (subst (λ q. q < 2 ^ 64) at (entry-lt m.mem pt (index1 va)))
                      ∙ ap (protected prot) (sym h0)),
          )
        ]
  ]

-- The pages of a range below 2^48 are different ones.
not_same :
    (va i : ℕ)
    → va % 4096 ≡ 0
    → va + 4096 + i * 4096 < 2 ^ 48
    → same_page va (va + 4096 + i * 4096) ≡ false
not_same va i h k = ground (arith, h, k)

abbrev in_range : ℕ → ℕ → ℕ → Bool
in_range va count va' = leb va va' && ltb va' (va + count * 4096)

in_range-same :
    (va count va' : ℕ)
    → va % 4096 ≡ 0
    → va + suc count * 4096 ≤ 2 ^ 48
    → va' < 2 ^ 48
    → same_page va va' ≡ true
    → (in_range va (suc count) va' ≡ true) × (in_range (va + 4096) count va' ≡ false)
in_range-same va count va' h k l e = (ground (arith, h, k, l, e), ground (arith, h, k, l, e))

in_range-other :
    (va count va' : ℕ)
    → va % 4096 ≡ 0
    → va + suc count * 4096 ≤ 2 ^ 48
    → va' < 2 ^ 48
    → same_page va va' ≡ false
    → in_range (va + 4096) count va' ≡ in_range va (suc count) va'
in_range-other va count va' h k l e = ground (arith, h, k, l, e)

set_page_prot-walk :
    (root prot : ℕ) (owner : ℕ → Option (List ℕ)) (count : ℕ) (m : Machine) (va : ℕ)
    → IsTree m root owner
    → va % 4096 ≡ 0
    → va + count * 4096 ≤ 2 ^ 48
    → ((i : ℕ) → i < count → IsSmall (walk m.mem root (indices (va + i * 4096))))
    → let m' = record m { mem = set_page_prot root va count prot m.mem } in
      IsTree m' root owner
      × ((va' : ℕ)
          → va' < 2 ^ 48
          → walk m'.mem root (indices va') ≡ (
              if in_range va count va'
              then protected prot (walk m.mem root (indices va'))
              else walk m.mem root (indices va')))
unfolding set_page_prot after
set_page_prot-walk root prot owner zero m va tree start end small =
    (tree, λ va' low. ground (arith, low))
set_page_prot-walk root prot owner (suc count) m va tree start end small =
    let small0 : IsSmall (walk m.mem root (indices va)) =
      subst (λ a. IsSmall (walk m.mem root (indices a))) {x = va + 0 * 4096} {y = va} (omega arith)
        (small 0 (omega arith)) in
    let (tree1, walks1) = prot_at-walk m root va prot owner tree small0 in
    let m1 = record m { mem = set_page_prot_at root va prot m.mem } in
    let (tree', walks') =
      set_page_prot-walk root prot owner count m1 (va + 4096) tree1 (omega (arith, start))
        (omega (arith, end))
        (λ i less.
          let a = va + 4096 + i * 4096 in
          let kept : walk m1.mem root (indices a) ≡ walk m.mem root (indices a) =
            walks1 a ∙ rw (not_same va i start (omega (arith, end, less))) refl in
          let before : IsSmall (walk m.mem root (indices a)) =
            subst (λ b. IsSmall (walk m.mem root (indices b))) {x = va + suc i * 4096} {y = a}
              (omega arith) (small (suc i) (omega (arith, less))) in
          subst IsSmall (sym kept) before) in
    (
      tree',
      λ va' low. walks' va' low ∙ elim (Bool-cases (same_page va va')) [
        | inl e ↦
            let (whole, rest) = in_range-same va count va' start end low e in
            let at = same_page-indices va va' (ground (arith, e)) in
            rw (rest, whole)
              (walks1 va' ∙ rw e (ap (λ is. protected prot (walk m.mem root is)) (sym at)))
        | inr e ↦
            let kept : walk m1.mem root (indices va') ≡ walk m.mem root (indices va') =
              walks1 va' ∙ rw e refl in
            ap (λ w. if in_range (va + 4096) count va' then protected prot w else w) kept
            ∙ ap
                (λ b.
                  if b
                  then protected prot (walk m.mem root (indices va'))
                  else walk m.mem root (indices va'))
                (in_range-other va count va' start end low e)
      ],
    )

-- What a reader of the entries sees.
abbrev pub protected_pte : ℕ → Option ℕ → Option ℕ
protected_pte prot none = none
protected_pte prot (some e) =
    if prot == 0 then none else some (page_of e + (if bit_and prot 2 == 0 then 5 else 7))

protected-pte_of :
    (prot : ℕ) (w : Option (ℕ × ℕ)) → pte_of (protected prot w) ≡ protected_pte prot (pte_of w)
protected-pte_of prot none = refl
protected-pte_of prot (some (e, k)) = ground arith

-- After `set_page_prot` every mapped page of the range has its frame as before, is present, open to user
-- code, and can be written if that was asked for and only then; with no rights asked for it is no longer
-- present. Pages that were not mapped are not, and every entry outside the range is as before. The range
-- starts at a page, ends below 2^48 and has no large pages.
pub set_page_prot-get_user_pte :
    (root prot : ℕ) (owner : ℕ → Option (List ℕ)) (count : ℕ) (m : Machine) (va va' : ℕ)
    → IsTree m root owner
    → va % 4096 ≡ 0
    → va + count * 4096 ≤ 2 ^ 48
    → ((i : ℕ) → i < count → IsSmall (walk m.mem root (indices (va + i * 4096))))
    → va' < 2 ^ 48
    → let mem' = set_page_prot root va count prot m.mem in
      get_user_pte mem' root va' ≡ (
        if leb va va' && ltb va' (va + count * 4096)
        then protected_pte prot (get_user_pte m.mem root va')
        else get_user_pte m.mem root va')
set_page_prot-get_user_pte root prot owner count m va va' tree start end small low =
    let mem' = set_page_prot root va count prot m.mem in
    let at : page_of root ≡ root = omega (arith, tree.aligned root [] tree.top) in
    let old : get_user_pte m.mem root va' ≡ pte_of (walk m.mem root (indices va')) =
      get_user_pte-walk m.mem root va' ∙ ap (λ t. pte_of (walk m.mem t (indices va'))) at in
    get_user_pte-walk mem' root va'
    ∙ ap (λ t. pte_of (walk mem' t (indices va'))) at
    ∙ ap pte_of ((set_page_prot-walk root prot owner count m va tree start end small).1 va' low)
    ∙ elim (Bool-cases (in_range va count va')) [
      | inl b ↦ rw b (
          protected-pte_of prot (walk m.mem root (indices va')) ∙ ap (protected_pte prot) (sym old))
      | inr b ↦ rw b (sym old)
    ]
