-- ===== src/Vfs/Change.antt =====
-- What every change of a directory of vfs/mod.rs comes to: one name dropped, or one name added.
use chod_os.Base.{
  ℕ, ◌≡◌, ◌≢◌, ◌<◌, refl, sym, ap, ◌∙◌, none, some, List, [], ◌∷◌, ◌++◌, arith, inl, inr, ◌⊎◌,
  length, ℕ_discrete,
}
use chod_os.Vfs.Path.{parts_of}
use chod_os.Vfs.Tmpfs.{
  Children, find, put, without, name_cases, find-put_self, find-put_ne, find-without_self,
  find-without_ne,
}
use chod_os.Vfs.{Vfs, VfsMeta, dir, child, walk, lookup, node_at, put_node}
use chod_os.Vfs.Walk.{
  lookup-walk, walk-cons, walk-append, walk-but, walk-more, node_at-put_node, node_at-put_node_ne,
}
use chod_os.Vfs.Valid.{lookup-root}

-- Place `(r, k)` is another than `(p, name)`.
abbrev pub Elsewhere : ℕ → List ℕ → ℕ → List ℕ → Type 0
Elsewhere p name r k = (r ≢ p) ⊎ (k ≢ name)

-- A path that ends with the name `name` in directory `p`.
abbrev pub EndsIn : Vfs → List ℕ → ℕ → List ℕ → Type 0
EndsIn fs path p name =
    (root : ℕ) × (qs : List (List ℕ)) × (fs.root ≡ some root)
    × (parts_of path ≡ qs ++ name ∷ [])
    × (walk fs root qs ≡ some p)

-- Name `name` of directory `p`, which led to a node `t` with nothing below it, leads nowhere now.
pub record Dropped (fs fs' : Vfs) (p : ℕ) (name : List ℕ) (t : ℕ) : Type 0 where
  pub roots : fs'.root ≡ fs.root
  pub leads : child (node_at fs p) name ≡ some t
  pub leaf : (n : List ℕ) → child (node_at fs t) n ≡ none
  pub gone : child (node_at fs' p) name ≡ none
  pub others :
      (r : ℕ) (n : List ℕ) → Elsewhere p name r n → child (node_at fs' r) n ≡ child (node_at fs r) n

-- Name `name` of directory `p`, which led nowhere, leads to node `t` now.
pub record Added (fs fs' : Vfs) (p : ℕ) (name : List ℕ) (t : ℕ) : Type 0 where
  pub roots : fs'.root ≡ fs.root
  pub free : child (node_at fs p) name ≡ none
  pub leads : child (node_at fs' p) name ≡ some t
  pub others :
      (r : ℕ) (n : List ℕ) → Elsewhere p name r n → child (node_at fs' r) n ≡ child (node_at fs r) n

module _ (fs fs' : Vfs) (p : ℕ) (name : List ℕ) (t : ℕ) where
  Dropped-walk :
      Dropped fs fs' p name t
      → (root : ℕ) (ps : List (List ℕ)) (m : ℕ) → walk fs root ps ≡ some m
      → (walk fs' root ps ≡ some m)
        ⊎ ((qs : List (List ℕ)) × (ps ≡ qs ++ name ∷ []) × (walk fs root qs ≡ some p) × (m ≡ t))
  Dropped-walk d root ps m e =
      walk-but fs fs' p name t d.leads d.leaf (λ r k n apart c. d.others r n apart ∙ c) root ps m e

  -- The directory has a child, and the node removed has none.
  pub Dropped-apart : Dropped fs fs' p name t → p ≢ t
  Dropped-apart d e = ground (arith, d.leads, d.leaf name, ap (λ r. child (node_at fs r) name) e)

  Dropped-parent :
      Dropped fs fs' p name t
      → (root : ℕ) (ps : List (List ℕ)) → walk fs root ps ≡ some p
      → walk fs' root ps ≡ some p
  Dropped-parent d root ps e = elim (Dropped-walk d root ps p e) [
    | inl kept ↦ kept
    | inr (qs, parts, arrives, last) ↦ absurd (Dropped-apart d last)
  ]

  Dropped-last :
      Dropped fs fs' p name t
      → (root : ℕ) (ps : List (List ℕ)) → walk fs root ps ≡ some p
      → walk fs' root (ps ++ name ∷ []) ≡ none
  unfolding walk
  Dropped-last d root ps e =
      walk-append fs' root ps (name ∷ []) p (Dropped-parent d root ps e) ∙ rw (d.gone, walk) refl

  -- A path keeps leading where it led, or it ends with the name dropped, in the same directory.
  pub Dropped-entry :
      Dropped fs fs' p name t
      → (path : List ℕ) (m : ℕ) → lookup fs path ≡ some m
      → (lookup fs' path ≡ some m) ⊎ ((lookup fs' path ≡ none) × (m ≡ t) × EndsIn fs path p name)
  Dropped-entry d path m e =
      let (root, found, walks) = lookup-root fs path m e in
      let start = lookup-walk fs' path root (d.roots ∙ found) in
      elim (Dropped-walk d root (parts_of path) m walks) [
        | inl kept ↦ inl (start ∙ kept)
        | inr (qs, parts, arrives, last) ↦ inr (
          start ∙ ap (λ v. walk fs' root v) parts ∙ Dropped-last d root qs arrives,
          last,
          (root, qs, found, parts, arrives),
        )
      ]

  pub Dropped-lookup :
      Dropped fs fs' p name t
      → (path : List ℕ) (m : ℕ) → lookup fs path ≡ some m
      → (lookup fs' path ≡ some m) ⊎ ((lookup fs' path ≡ none) × (m ≡ t))
  Dropped-lookup d path m e = elim (Dropped-entry d path m e) [
    | inl kept ↦ inl kept
    | inr (lost, last, ends) ↦ inr (lost, last)
  ]

  pub Dropped-path :
      Dropped fs fs' p name t
      → (path parent : List ℕ) → parts_of path ≡ parts_of parent ++ name ∷ []
      → lookup fs parent ≡ some p
      → (lookup fs path ≡ some t) × (lookup fs' parent ≡ some p) × (lookup fs' path ≡ none)
  unfolding walk
  Dropped-path d path parent parts e =
      let (root, found, walks) = lookup-root fs parent p e in
      (
        lookup-walk fs path root found
            ∙ ap (λ v. walk fs root v) parts
            ∙ walk-append fs root (parts_of parent) (name ∷ []) p walks
            ∙ walk-cons fs p name [] t d.leads,
        lookup-walk fs' parent root (d.roots ∙ found)
            ∙ Dropped-parent d root (parts_of parent) walks,
        lookup-walk fs' path root (d.roots ∙ found)
            ∙ ap (λ v. walk fs' root v) parts
            ∙ Dropped-last d root (parts_of parent) walks,
      )

  Added-more :
      Added fs fs' p name t
      → (r m : ℕ) (n : List ℕ) → child (node_at fs r) n ≡ some m
      → child (node_at fs' r) n ≡ some m
  Added-more a r m n e = elim (ℕ_discrete r p) [
    | no ne ↦ a.others r n (inl ne) ∙ e
    | yes here ↦ elim (name_cases n name) [
      | inr ne ↦ a.others r n (inr ne) ∙ e
      | inl same ↦ absurd (
          ground (
            arith,
            e,
            a.free,
            ap (λ q. child (node_at fs q) n) here,
            ap (λ k. child (node_at fs p) k) same,
          ))
    ]
  ]

  pub Added-lookup :
      Added fs fs' p name t
      → (path : List ℕ) (m : ℕ) → lookup fs path ≡ some m
      → lookup fs' path ≡ some m
  Added-lookup a path m e =
      let (root, found, walks) = lookup-root fs path m e in
      lookup-walk fs' path root (a.roots ∙ found)
      ∙ walk-more fs fs' (Added-more a) root (parts_of path) m walks

  pub Added-path :
      Added fs fs' p name t
      → (path parent : List ℕ) → parts_of path ≡ parts_of parent ++ name ∷ []
      → lookup fs parent ≡ some p
      → (lookup fs path ≡ none) × (lookup fs' path ≡ some t)
  unfolding walk
  Added-path a path parent parts e =
      let (root, found, walks) = lookup-root fs parent p e in
      (
        lookup-walk fs path root found
            ∙ ap (λ v. walk fs root v) parts
            ∙ walk-append fs root (parts_of parent) (name ∷ []) p walks
            ∙ rw (a.free, walk) refl,
        lookup-walk fs' path root (a.roots ∙ found)
            ∙ ap (λ v. walk fs' root v) parts
            ∙ walk-append fs' root (parts_of parent) (name ∷ []) p
                (walk-more fs fs' (Added-more a) root (parts_of parent) p walks)
            ∙ walk-cons fs' p name [] t a.leads,
      )

-- The two changes as `put_node` makes them.
module _ (fs : Vfs) (p : ℕ) (children : Children) (meta : VfsMeta) (name : List ℕ) (t : ℕ)
    (is : node_at fs p ≡ dir children meta) (inside : p < length fs.nodes) where
  child-put_node :
      (cs : Children) (r : ℕ) (n : List ℕ)
      → (r ≡ p)
      → child (node_at (put_node fs p (dir cs meta)) r) n ≡ find cs n
  unfolding child
  child-put_node cs r n e =
      ap (λ q. child (node_at (put_node fs p (dir cs meta)) q) n) e
      ∙ ap (λ k. child k n) (node_at-put_node fs p (dir cs meta) inside)

  child_is : (r : ℕ) (n : List ℕ) → r ≡ p → child (node_at fs r) n ≡ find children n
  unfolding child
  child_is r n e = ap (λ q. child (node_at fs q) n) e ∙ ap (λ k. child k n) is

  pub without-Dropped :
      find children name ≡ some t
      → ((n : List ℕ) → child (node_at fs t) n ≡ none)
      → Dropped fs (put_node fs p (dir (without children name) meta)) p name t
  unfolding put_node
  without-Dropped found leaf = record {
    roots = refl;
    leads = child_is p name refl ∙ found;
    leaf = leaf;
    gone = child-put_node (without children name) p name refl ∙ find-without_self children name;
    others = λ r n apart. other r n apart (ℕ_discrete r p);
  }
    where
      other :
          (r : ℕ) (n : List ℕ)
          → Elsewhere p name r n
          → Dec (r ≡ p)
          → child (node_at (put_node fs p (dir (without children name) meta)) r) n
            ≡ child (node_at fs r) n
      other r n apart (no ne) =
          ap (λ k. child k n)
            (node_at-put_node_ne fs p r (dir (without children name) meta) (λ e. ne (sym e)))
      other r n (inl ne) (yes e) = absurd (ne e)
      other r n (inr ne) (yes e) =
          child-put_node (without children name) r n e
          ∙ find-without_ne children name n (λ q. ne (sym q))
          ∙ sym (child_is r n e)

  pub put-Added :
      find children name ≡ none → Added fs (put_node fs p (dir (put children name t) meta)) p name t
  unfolding put_node
  put-Added missing = record {
    roots = refl;
    free = child_is p name refl ∙ missing;
    leads = child-put_node (put children name t) p name refl ∙ find-put_self children name t;
    others = λ r n apart. other r n apart (ℕ_discrete r p);
  }
    where
      other :
          (r : ℕ) (n : List ℕ)
          → Elsewhere p name r n
          → Dec (r ≡ p)
          → child (node_at (put_node fs p (dir (put children name t) meta)) r) n
            ≡ child (node_at fs r) n
      other r n apart (no ne) =
          ap (λ k. child k n)
            (node_at-put_node_ne fs p r (dir (put children name t) meta) (λ e. ne (sym e)))
      other r n (inl ne) (yes e) = absurd (ne e)
      other r n (inr ne) (yes e) =
          child-put_node (put children name t) r n e
          ∙ find-put_ne children name t n (λ q. ne (sym q))
          ∙ sym (child_is r n e)
