-- ===== src/Vfs/Walk.antt =====
-- Walks along a path of vfs/mod.rs, and what a change of one node does to them.
use chod_os.Base.{
  ℕ, ◌≡◌, ◌≢◌, ◌<◌, refl, sym, ap, ◌∙◌, Option, none, some, List, [], ◌∷◌, ◌++◌, arith,
  if◌then◌else◌, Bool-cases, Option-cases, inl, inr, ◌⊎◌, length, get_or-set_self, get_or-set_ne,
  ℕ_discrete,
}
use chod_os.Vfs.Path.{parts_of, eq_str, eq_str-eq, root_path, parts_of-root}
use chod_os.Vfs.Tmpfs.{name_cases}
use chod_os.Vfs.{Vfs, VfsNode, child, walk, lookup, node_at, put_node}

pub node_at-put_node :
    (fs : Vfs) (r : ℕ) (n : VfsNode) → r < length fs.nodes → node_at (put_node fs r n) r ≡ n
unfolding node_at put_node
node_at-put_node fs r n h = get_or-set_self fs.nodes r n _ h

pub node_at-put_node_ne :
    (fs : Vfs) (r s : ℕ) (n : VfsNode) → r ≢ s → node_at (put_node fs r n) s ≡ node_at fs s
unfolding node_at put_node
node_at-put_node_ne fs r s n ne = get_or-set_ne fs.nodes r s n _ ne

-- `lookup` is a walk from the root along the parts, also for the root itself.
pub lookup-walk :
    (fs : Vfs) (path : List ℕ) (root : ℕ)
    → fs.root ≡ some root
    → lookup fs path ≡ walk fs root (parts_of path)
unfolding lookup walk
lookup-walk fs path root e =
    ap
      (λ (o : Option ℕ). elim o [
        | none ↦ none
        | some r ↦ if eq_str path root_path then some r else walk fs r (parts_of path)
      ])
      e
    ∙ elim (Bool-cases (eq_str path root_path)) [
      | inr other ↦ rw other refl
      | inl top ↦ rw top (
          ap (λ parts. walk fs root parts)
            (sym (ap parts_of (eq_str-eq path root_path top) ∙ parts_of-root)))
    ]

pub lookup-rootless : (fs : Vfs) (path : List ℕ) → fs.root ≡ none → lookup fs path ≡ none
unfolding lookup
lookup-rootless fs path e =
    ap
      (λ (o : Option ℕ). elim o [
        | none ↦ none
        | some r ↦ if eq_str path root_path then some r else walk fs r (parts_of path)
      ])
      e

pub walk-cons :
    (fs : Vfs) (c : ℕ) (p : List ℕ) (ps : List (List ℕ)) (next : ℕ)
    → child (node_at fs c) p ≡ some next
    → walk fs c (p ∷ ps) ≡ walk fs next ps
unfolding walk
walk-cons fs c p ps next found = rw (found, walk) refl

pub walk-one :
    (fs : Vfs) (c : ℕ) (name : List ℕ) → walk fs c (name ∷ []) ≡ child (node_at fs c) name
unfolding walk
walk-one fs c name = elim (Option-cases (child (node_at fs c) name)) [
  | inl missing ↦ rw (missing, walk) refl
  | inr (next, found) ↦ walk-cons fs c name [] next found ∙ sym found
]

pub some_injective : (c m : ℕ) → some c ≡ some m → c ≡ m
some_injective c m e = cc e

-- The first step of a walk that arrives.
pub walk-step :
    (fs : Vfs) (c : ℕ) (p : List ℕ) (ps : List (List ℕ)) (m : ℕ)
    → walk fs c (p ∷ ps) ≡ some m
    → (next : ℕ) × (child (node_at fs c) p ≡ some next) × (walk fs next ps ≡ some m)
unfolding walk
walk-step fs c p ps m e = elim (Option-cases (child (node_at fs c) p)) [
  | inl missing ↦ absurd (ground (arith, e, missing))
  | inr (next, found) ↦ (next, found, sym (walk-cons fs c p ps next found) ∙ e)
]

pub walk-append :
    (fs : Vfs) (c : ℕ) (ps qs : List (List ℕ)) (m : ℕ)
    → walk fs c ps ≡ some m
    → walk fs c (ps ++ qs) ≡ walk fs m qs
unfolding walk
walk-append fs c [] qs m e = ap (λ k. walk fs k qs) (some_injective c m e)
walk-append fs c (p ∷ ps) qs m e =
    let (next, found, rest) = walk-step fs c p ps m e in
    walk-cons fs c p (ps ++ qs) next found ∙ walk-append fs next ps qs m rest

-- A walk that arrives has its last step from where the others lead.
pub walk-last :
    (fs : Vfs) (c : ℕ) (ps : List (List ℕ)) (name : List ℕ) (m : ℕ)
    → walk fs c (ps ++ name ∷ []) ≡ some m
    → (p : ℕ) × (walk fs c ps ≡ some p) × (child (node_at fs p) name ≡ some m)
unfolding walk
walk-last fs c [] name m e =
    let (next, found, rest) = walk-step fs c name [] m e in (c, refl, found ∙ rest)
walk-last fs c (q ∷ ps) name m e =
    let (next, found, rest) = walk-step fs c q (ps ++ name ∷ []) m e in
    let (p, arrives, last) = walk-last fs next ps name m rest in
    (p, walk-cons fs c q ps next found ∙ arrives, last)

-- A change that keeps what every name leads to keeps every walk.
pub walk-same :
    (fs fs' : Vfs)
    → ((r : ℕ) (name : List ℕ) → child (node_at fs' r) name ≡ child (node_at fs r) name)
    → (c : ℕ) (ps : List (List ℕ)) → walk fs' c ps ≡ walk fs c ps
unfolding walk
walk-same fs fs' same c [] = refl
walk-same fs fs' same c (p ∷ ps) = elim (Option-cases (child (node_at fs c) p)) [
  | inl missing ↦ rw (same c p ∙ missing, walk) (rw (missing, walk) refl)
  | inr (next, found) ↦
      walk-cons fs' c p ps next (same c p ∙ found)
      ∙ walk-same fs fs' same next ps
      ∙ sym (walk-cons fs c p ps next found)
]

-- A change that loses only the step by `name` from `p`, which led to a node without children, keeps
-- the walks that arrive, but for those with that step at their end.
pub walk-but :
    (fs fs' : Vfs) (p : ℕ) (name : List ℕ) (t : ℕ)
    → child (node_at fs p) name ≡ some t
    → ((n : List ℕ) → child (node_at fs t) n ≡ none)
    → ((r m : ℕ) (n : List ℕ)
        → (r ≢ p) ⊎ (n ≢ name)
        → child (node_at fs r) n ≡ some m
        → child (node_at fs' r) n ≡ some m)
    → (c : ℕ) (ps : List (List ℕ)) (m : ℕ) → walk fs c ps ≡ some m
    → (walk fs' c ps ≡ some m)
      ⊎ ((qs : List (List ℕ)) × (ps ≡ qs ++ name ∷ []) × (walk fs c qs ≡ some p) × (m ≡ t))
unfolding walk
walk-but fs fs' p name t leads leaf keeps c [] m e = inl e
walk-but fs fs' p name t leads leaf keeps c (q ∷ ps) m e =
    let (next, found, rest) = walk-step fs c q ps m e in
    let ih = walk-but fs fs' p name t leads leaf keeps next ps m rest in
    elim (ℕ_discrete c p) [
      | no elsewhere ↦ on next found (inl elsewhere) ih
      | yes here ↦ elim (name_cases q name) [
        | inr other ↦ on next found (inr other) ih
        | inl same ↦
            let at_t : next ≡ t = some_injective next t (
              sym found
              ∙ ap (λ r. child (node_at fs r) q) here
              ∙ ap (λ n. child (node_at fs p) n) same
              ∙ leads) in
            let (none_left, arrived) = at_leaf ps (ap (λ r. walk fs r ps) (sym at_t) ∙ rest) in
            inr (
              [],
              ap (λ v. q ∷ v) none_left ∙ ap (λ n. n ∷ []) same,
              ap (λ r. some r) here,
              arrived,
            )
      ]
    ]
  where
    at_leaf : (ps : List (List ℕ)) → walk fs t ps ≡ some m → (ps ≡ []) × (m ≡ t)
    at_leaf [] arrives = (refl, some_injective m t (sym arrives))
    at_leaf (n ∷ ns) arrives =
        let (next, found, rest) = walk-step fs t n ns m arrives in
        absurd (ground (arith, found, leaf n))

    on :
        (next : ℕ)
        → child (node_at fs c) q ≡ some next
        → (c ≢ p) ⊎ (q ≢ name)
        → (walk fs' next ps ≡ some m)
          ⊎ ((qs : List (List ℕ)) × (ps ≡ qs ++ name ∷ []) × (walk fs next qs ≡ some p) × (m ≡ t))
        → (walk fs' c (q ∷ ps) ≡ some m)
          ⊎ ((qs : List (List ℕ)) × (q ∷ ps ≡ qs ++ name ∷ []) × (walk fs c qs ≡ some p) × (m ≡ t))
    on next found apart ih = elim ih [
      | inl arrives ↦ inl (walk-cons fs' c q ps next (keeps c next q apart found) ∙ arrives)
      | inr (qs, parts, arrives, last) ↦
          inr (q ∷ qs, ap (λ v. q ∷ v) parts, walk-cons fs c q qs next found ∙ arrives, last)
    ]

-- A change that only adds names keeps the walks that arrive.
pub walk-more :
    (fs fs' : Vfs)
    → ((r m : ℕ) (name : List ℕ)
        → child (node_at fs r) name ≡ some m
        → child (node_at fs' r) name ≡ some m)
    → (c : ℕ) (ps : List (List ℕ)) (m : ℕ) → walk fs c ps ≡ some m
    → walk fs' c ps ≡ some m
unfolding walk
walk-more fs fs' more c [] m e = e
walk-more fs fs' more c (p ∷ ps) m e =
    let (next, found, rest) = walk-step fs c p ps m e in
    walk-cons fs' c p ps next (more c next p found) ∙ walk-more fs fs' more next ps m rest
