-- ===== src/Vfs/Create.antt =====
-- `create_file` and `mkdir` of vfs/mod.rs.
use chod_os.Base.{
  ℕ, zero, suc, ◌+◌, ◌≡◌, ◌<◌, refl, sym, ap, ◌∙◌, Option, none, some, List, [], ◌∷◌, ◌++◌, arith,
  Option-cases, inl, inr, ◌⊎◌, length, length-append, get_or, ℕ_discrete, dec_lt,
}
use chod_os.Base.Words.{u64}
use chod_os.Vfs.Path.{parts_of, split_parent, split_parent-parts}
use chod_os.Vfs.Tmpfs.{Children, find, put, name_cases, find-put_self, find-put_ne}
use chod_os.Vfs.{
  create_file, mkdir, file, Vfs, VfsNode, VfsMeta, dir, child, lookup, node_at, put_node, add_node,
  create,
}
use chod_os.Vfs.Walk.{node_at-put_node_ne, some_injective}
use chod_os.Vfs.Valid.{
  IsValid, Inside, lookup_inside, put_node-IsValid, child_outside, lookup-same, lookup-last,
}
use chod_os.Vfs.Change.{Added-lookup, Added-path, put-Added}
use chod_os.Vfs.Remove.{child-node_at}

-- The store with one more node, which no name leads to yet.
abbrev pub grown : Vfs → VfsNode → Vfs
grown fs n = record fs { nodes = fs.nodes ++ n ∷ []; ino_seq = u64 (fs.ino_seq + 1) }

get_or-append :
    {A : Type 0} (xs : List A) (x : A) (i : ℕ) (d : A)
    → i < length xs
    → get_or (xs ++ x ∷ []) i d ≡ get_or xs i d
get_or-append [] x i d h = absurd (omega arith)
get_or-append (y ∷ xs) x zero d h = refl
get_or-append (y ∷ xs) x (suc i) d h = get_or-append xs x i d (omega arith)

get_or-append_last : {A : Type 0} (xs : List A) (x d : A) → get_or (xs ++ x ∷ []) (length xs) d ≡ x
get_or-append_last [] x d = refl
get_or-append_last (y ∷ xs) x d = get_or-append_last xs x d

node_at-grown :
    (fs : Vfs) (n : VfsNode) (r : ℕ) → r < length fs.nodes → node_at (grown fs n) r ≡ node_at fs r
unfolding node_at
node_at-grown fs n r h = get_or-append fs.nodes n r _ h

node_at-grown_last : (fs : Vfs) (n : VfsNode) → node_at (grown fs n) (length fs.nodes) ≡ n
unfolding node_at
node_at-grown_last fs n = get_or-append_last fs.nodes n _

length-grown : (fs : Vfs) (n : VfsNode) → length (grown fs n).nodes ≡ length fs.nodes + 1
length-grown fs n = length-append fs.nodes (n ∷ [])

child-grown :
    (fs : Vfs) (n : VfsNode)
    → ((k : List ℕ) → child n k ≡ none)
    → (r : ℕ) (k : List ℕ) → child (node_at (grown fs n) r) k ≡ child (node_at fs r) k
child-grown fs n empty r k = elim (dec_lt r (length fs.nodes)) [
  | yes h ↦ ap (λ x. child x k) (node_at-grown fs n r h)
  | no h ↦ elim (ℕ_discrete r (length fs.nodes)) [
    | yes last ↦
        ap (λ q. child (node_at (grown fs n) q) k) last
        ∙ ap (λ x. child x k) (node_at-grown_last fs n)
        ∙ empty k
        ∙ sym (child_outside fs r k (omega arith))
    | no ne ↦
        child_outside (grown fs n) r k (omega (arith, length-grown fs n, ne))
        ∙ sym (child_outside fs r k (omega arith))
  ]
]

grown-IsValid :
    (fs : Vfs) (n : VfsNode) → ((k : List ℕ) → child n k ≡ none) → IsValid fs → IsValid (grown fs n)
grown-IsValid fs n empty v = record {
  root = λ r e. omega (arith, v.root r e, length-grown fs n);
  children = λ r k m e.
      omega (arith, length-grown fs n, v.children r k m (sym (child-grown fs n empty r k) ∙ e));
}

pub put-Inside :
    (fs : Vfs) (size p : ℕ) (children : Children) (meta : VfsMeta) (name : List ℕ) (t : ℕ)
    → ((k : List ℕ) (m : ℕ) → child (node_at fs p) k ≡ some m → m < size)
    → node_at fs p ≡ dir children meta
    → t < size
    → Inside size (dir (put children name t) meta)
unfolding child
put-Inside fs size p children meta name t inside is h k m e = elim (name_cases name k) [
  | inl same ↦ omega (
    arith,
    h,
    some_injective t m
        (sym (find-put_self children name t) ∙ ap (λ n. find (put children name t) n) same ∙ e),
  )
  | inr ne ↦
      inside k m
        (child-node_at fs p children meta k is ∙ sym (find-put_ne children name t k ne) ∙ e)
]

-- What the creation of a node at `path` does, where `other` led to `m`.
pub record Created (new : ℕ → VfsNode) (fs fs' : Vfs) (made : Option ℕ) (path other : List ℕ)
    (m : ℕ) : Type 0 where
  pub node : ℕ
  pub answer : made ≡ some node
  pub found : lookup fs' path ≡ some node
  pub fresh :
      (lookup fs path ≡ some node) ⊎ ((lookup fs path ≡ none) × (node_at fs' node ≡ new fs.ino_seq))
  pub closed : IsValid fs'
  pub others : lookup fs' other ≡ some m

module _ (new : ℕ → VfsNode) (fs : Vfs) (path parent_path name : List ℕ) (p : ℕ)
    (children : Children) (meta : VfsMeta) (other : List ℕ) (m : ℕ)
    (empty : (i : ℕ) (k : List ℕ) → child (new i) k ≡ none) (v : IsValid fs)
    (parts : parts_of path ≡ parts_of parent_path ++ name ∷ [])
    (parent : lookup fs parent_path ≡ some p) (is : node_at fs p ≡ dir children meta)
    (leads : lookup fs other ≡ some m) where
  inside : p < length fs.nodes
  inside = lookup_inside fs parent_path p v parent

  kept : (t : ℕ) → find children name ≡ some t → Created new fs fs (some t) path other m
  kept t named =
      let arrives : lookup fs path ≡ some t =
        lookup-last fs path parent_path name p parts parent
        ∙ child-node_at fs p children meta name is
        ∙ named in
      record {
        node = t;
        answer = refl;
        found = arrives;
        fresh = inl arrives;
        closed = v;
        others = leads;
      }

  larger : Vfs
  larger = grown fs (new fs.ino_seq)

  same : (q : List ℕ) → lookup larger q ≡ lookup fs q
  unfolding larger
  same q = lookup-same fs larger refl (child-grown fs (new fs.ino_seq) (empty fs.ino_seq)) q

  is_larger : node_at larger p ≡ dir children meta
  unfolding larger
  is_larger = node_at-grown fs (new fs.ino_seq) p inside ∙ is

  made :
      find children name ≡ none
      → Created new fs
          (put_node larger p (dir (put children name (length fs.nodes)) meta))
          (some (length fs.nodes))
          path
          other
          m
  unfolding larger
  made missing =
      let t = length fs.nodes in
      let fs' = put_node larger p (dir (put children name t) meta) in
      let size = length-grown fs (new fs.ino_seq) in
      let v' = grown-IsValid fs (new fs.ino_seq) (empty fs.ino_seq) v in
      let h : p < length larger.nodes = omega (arith, size, inside) in
      let a = put-Added larger p children meta name t is_larger h missing in
      let (before, after) =
        Added-path larger fs' p name t a path parent_path parts (same parent_path ∙ parent) in
      record {
        node = t;
        answer = refl;
        found = after;
        fresh = inr (
          sym (same path) ∙ before,
          node_at-put_node_ne larger p t _ (λ e. omega (arith, inside, e))
              ∙ node_at-grown_last fs (new fs.ino_seq),
        );
        closed = put_node-IsValid larger p _ v' h (
            put-Inside larger (length larger.nodes) p children meta name t (v'.children p) is_larger
              (omega (arith, size)));
        others = Added-lookup larger fs' p name t a other m (same other ∙ leads);
      }

-- Both functions, for nodes with nothing below them.
create_lem :
    (new : ℕ → VfsNode) (fs : Vfs) (path parent_path name : List ℕ) (p : ℕ) (children : Children)
    (meta : VfsMeta) (other : List ℕ) (m : ℕ)
    → ((i : ℕ) (k : List ℕ) → child (new i) k ≡ none)
    → IsValid fs
    → split_parent path ≡ some (parent_path, name)
    → lookup fs parent_path ≡ some p
    → node_at fs p ≡ dir children meta
    → lookup fs other ≡ some m
    → let (made, fs') = create new fs path in Created new fs fs' made path other m
unfolding create add_node put_node larger
create_lem new fs path parent_path name p children meta other m empty v splits parent is leads =
    let parts = split_parent-parts path parent_path name splits in
    elim (Option-cases (find children name)) [
      | inr (t, named) ↦
          rw (splits, parent, is, named, create, add_node)
            (kept new fs path parent_path name p children meta other m empty v parts parent is leads
              t named)
      | inl missing ↦
          rw (splits, parent, is, missing, create, add_node)
            (made new fs path parent_path name p children meta other m empty v parts parent is leads
              missing)
    ]

-- An empty file, to be read by all and written by its owner, and an empty directory, open to all and to be
-- written by its owner, both of the first user and group.
abbrev pub empty_file : ℕ → VfsNode
empty_file ino =
    file (record {
      content = [];
      meta = record { ino = ino; mode = 420; uid = 0; gid = 0; nlink = 1 };
    })

abbrev pub empty_dir : ℕ → VfsNode
empty_dir ino = dir [] (record { ino = ino; mode = 493; uid = 0; gid = 0; nlink = 2 })

-- With a parent directory that is there, `create_file` and `mkdir` answer with a node that the path leads
-- to afterwards: the one it led to before, or where it led nowhere a new one, which is an empty file
-- (mode 644, one link) and an empty directory (mode 755, two links) with the next inode number. Every
-- other path leads where it led, and the store stays closed, as it is before.
pub create_file_lem :
    (fs : Vfs) (path parent_path name : List ℕ) (p : ℕ) (children : Children) (meta : VfsMeta)
    (other : List ℕ) (m : ℕ)
    → IsValid fs
    → split_parent path ≡ some (parent_path, name)
    → lookup fs parent_path ≡ some p
    → node_at fs p ≡ dir children meta
    → lookup fs other ≡ some m
    → (let (made, fs') = create_file fs path in Created empty_file fs fs' made path other m)
      × (let (made, fs') = mkdir fs path in Created empty_dir fs fs' made path other m)
unfolding create_file mkdir child find
create_file_lem fs path parent_path name p children meta other m v splits parent is leads = (
  create_lem empty_file fs path parent_path name p children meta other m (λ i k. refl) v splits
      parent is leads,
  create_lem empty_dir fs path parent_path name p children meta other m (λ i k. refl) v splits
      parent is leads,
)
