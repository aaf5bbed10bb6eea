-- ===== src/Vfs/Valid.antt =====
-- The store of nodes of vfs/mod.rs is closed: every name leads to a node of the store.
use chod_os.Base.{
  ℕ, zero, suc, ◌≡◌, ◌<◌, ◌≤◌, refl, sym, ap, ◌∙◌, none, some, List, [], ◌∷◌, ◌++◌, arith,
  Option-cases, inl, inr, length, get_or, subst, length-set, ℕ_discrete, dec_lt,
}
use chod_os.Vfs.Path.{parts_of}
use chod_os.Vfs.{Vfs, VfsNode, FileNode, file, child, walk, lookup, node_at, put_node}
use chod_os.Vfs.Tmpfs.{find}
use chod_os.Vfs.Walk.{
  lookup-walk, walk-append, walk-one, lookup-rootless, walk-step, some_injective, node_at-put_node,
  node_at-put_node_ne, walk-same,
}

-- Every name of node `n` leads to one of the first `size` nodes.
abbrev pub Inside : ℕ → VfsNode → Type 0
Inside size n = (name : List ℕ) (m : ℕ) → child n name ≡ some m → m < size

pub record IsValid (fs : Vfs) : Type 0 where
  pub root : (r : ℕ) → fs.root ≡ some r → r < length fs.nodes
  pub children : (r : ℕ) → Inside (length fs.nodes) (node_at fs r)

get_or_outside : {A : Type 0} (xs : List A) (i : ℕ) (d : A) → length xs ≤ i → get_or xs i d ≡ d
get_or_outside [] i d h = refl
get_or_outside (x ∷ xs) zero d h = absurd (omega arith)
get_or_outside (x ∷ xs) (suc i) d h = get_or_outside xs i d (omega arith)

-- There is nothing below a number that is no node.
pub child_outside :
    (fs : Vfs) (r : ℕ) (name : List ℕ) → length fs.nodes ≤ r → child (node_at fs r) name ≡ none
unfolding node_at child find
child_outside fs r name h = ap (λ n. child n name) (get_or_outside fs.nodes r _ h)

pub inside_child :
    (fs : Vfs) (r m : ℕ) (name : List ℕ) → child (node_at fs r) name ≡ some m → r < length fs.nodes
inside_child fs r m name e = elim (dec_lt r (length fs.nodes)) [
  | yes h ↦ h
  | no h ↦ absurd (ground (arith, e, child_outside fs r name (omega arith)))
]

pub inside_file : (fs : Vfs) (r : ℕ) (f : FileNode) → node_at fs r ≡ file f → r < length fs.nodes
unfolding node_at
inside_file fs r f e = elim (dec_lt r (length fs.nodes)) [
  | yes h ↦ h
  | no h ↦ cc (sym e ∙ get_or_outside fs.nodes r _ (omega arith))
]

walk_inside :
    (fs : Vfs)
    → IsValid fs
    → (c : ℕ) (ps : List (List ℕ)) (m : ℕ) → c < length fs.nodes
    → walk fs c ps ≡ some m
    → m < length fs.nodes
unfolding walk
walk_inside fs v c [] m h e = subst (λ k. k < length fs.nodes) (some_injective c m e) h
walk_inside fs v c (p ∷ ps) m h e =
    let (next, found, rest) = walk-step fs c p ps m e in
    walk_inside fs v next ps m (v.children c p next found) rest

-- A path that is found has a root to start from.
pub lookup-root :
    (fs : Vfs) (path : List ℕ) (m : ℕ)
    → lookup fs path ≡ some m
    → (root : ℕ) × (fs.root ≡ some root) × (walk fs root (parts_of path) ≡ some m)
lookup-root fs path m e = elim (Option-cases fs.root) [
  | inr (root, found) ↦ (root, found, sym (lookup-walk fs path root found) ∙ e)
  | inl missing ↦ absurd (ground (arith, e, lookup-rootless fs path missing))
]

pub lookup_inside :
    (fs : Vfs) (path : List ℕ) (m : ℕ) → IsValid fs → lookup fs path ≡ some m → m < length fs.nodes
lookup_inside fs path m v e =
    let (root, found, walks) = lookup-root fs path m e in
    walk_inside fs v root (parts_of path) m (v.root root found) walks

-- The last step of a path is a look into its parent.
pub lookup-last :
    (fs : Vfs) (path parent name : List ℕ) (p : ℕ)
    → parts_of path ≡ parts_of parent ++ name ∷ []
    → lookup fs parent ≡ some p
    → lookup fs path ≡ child (node_at fs p) name
lookup-last fs path parent name p parts e =
    let (root, found, walks) = lookup-root fs parent p e in
    lookup-walk fs path root found
    ∙ ap (λ ps. walk fs root ps) parts
    ∙ walk-append fs root (parts_of parent) (name ∷ []) p walks
    ∙ walk-one fs p name

-- What every name leads to is the same, and so is the root.
pub lookup-same :
    (fs fs' : Vfs)
    → fs'.root ≡ fs.root
    → ((r : ℕ) (name : List ℕ) → child (node_at fs' r) name ≡ child (node_at fs r) name)
    → (path : List ℕ) → lookup fs' path ≡ lookup fs path
lookup-same fs fs' roots same path = elim (Option-cases fs.root) [
  | inl missing ↦ lookup-rootless fs' path (roots ∙ missing) ∙ sym (lookup-rootless fs path missing)
  | inr (root, found) ↦
      lookup-walk fs' path root (roots ∙ found)
      ∙ walk-same fs fs' same root (parts_of path)
      ∙ sym (lookup-walk fs path root found)
]

-- A node in the place of another, whose names lead into the store.
pub put_node-IsValid :
    (fs : Vfs) (r : ℕ) (n : VfsNode)
    → IsValid fs
    → r < length fs.nodes
    → Inside (length fs.nodes) n
    → IsValid (put_node fs r n)
unfolding put_node
put_node-IsValid fs r n v h inside = record {
  root = λ q e. omega (arith, v.root q e, length-set fs.nodes r n);
  children =
      λ q name m e. omega (arith, length-set fs.nodes r n, stays q name m e (ℕ_discrete r q));
}
  where
    stays :
        (q : ℕ) (name : List ℕ) (m : ℕ)
        → child (node_at (put_node fs r n) q) name ≡ some m
        → Dec (r ≡ q)
        → m < length fs.nodes
    stays q name m e (yes same) = inside name m (
        ap (λ k. child k name)
          (sym (node_at-put_node fs r n h) ∙ ap (λ k. node_at (put_node fs r n) k) same)
        ∙ e)
    stays q name m e (no other) =
        v.children q name m (ap (λ k. child k name) (sym (node_at-put_node_ne fs r q n other)) ∙ e)
