-- ===== src/Vfs/Remove.antt =====
-- `remove_entry` of vfs/mod.rs, which is unlink and rmdir.
use chod_os.Base.{
  ℕ, ◌≡◌, refl, sym, ap, ◌∙◌, Bool, true, false, none, some, List, [], ◌∷◌, ◌++◌, arith, Bool-cases,
  Option-cases, inl, inr, ◌⊎◌, length,
}
use chod_os.Syscall.Errno.{Result, val, err}
use chod_os.Vfs.Path.{parts_of, split_parent_cases}
use chod_os.Vfs.Tmpfs.{
  Children, find, without, has_none, find-has_none, name_cases, find-without_self, find-without_ne,
}
use chod_os.Vfs.{
  Vfs, VfsNode, VfsMeta, FileNode, file, dir, child, lookup, node_at, put_node, refusal, remove_at,
  remove_entry,
}
use chod_os.Vfs.Valid.{lookup-root, IsValid, Inside, lookup_inside, put_node-IsValid}
use chod_os.Vfs.Walk.{node_at-put_node_ne}
use chod_os.Vfs.Change.{EndsIn, Dropped-entry, Dropped-apart, Dropped-path, without-Dropped}

refusal-leaf :
    (n : VfsNode) (allow_dir : Bool) → refusal n allow_dir ≡ none → (k : List ℕ) → child n k ≡ none
unfolding child
refusal-leaf (file f) allow_dir e k = refl
refusal-leaf (dir children meta) allow_dir e k = elim (Bool-cases (has_none children)) [
  | inl empty ↦ find-has_none children k empty
  | inr more ↦ ground (arith, e, more)
]

-- Every branch of the code that changes nothing answers with an error.
abbrev pub IsError : Result → Type 0
IsError (val n) = ⊥
IsError (err e) = Unit

refusal-IsError :
    (n : VfsNode) (allow_dir : Bool) (r : Result) → refusal n allow_dir ≡ some r → IsError r
refusal-IsError (file f) allow_dir r e = cc e
refusal-IsError (dir children meta) allow_dir (err n) e = tt
refusal-IsError (dir children meta) true (val n) e = elim (Bool-cases (has_none children)) [
  | inl empty ↦ ground (arith, e, empty)
  | inr more ↦ ground (arith, e, more)
]
refusal-IsError (dir children meta) false (val n) e = ground (arith, e)

pub child-node_at :
    (fs : Vfs) (p : ℕ) (children : Children) (meta : VfsMeta) (k : List ℕ)
    → node_at fs p ≡ dir children meta
    → child (node_at fs p) k ≡ find children k
unfolding child
child-node_at fs p children meta k is = ap (λ n. child n k) is

pub without-Inside :
    (fs : Vfs) (p : ℕ) (children : Children) (meta : VfsMeta) (name : List ℕ)
    → IsValid fs
    → node_at fs p ≡ dir children meta
    → Inside (length fs.nodes) (dir (without children name) meta)
unfolding child
without-Inside fs p children meta name v is k m e = elim (name_cases name k) [
  | inl same ↦ absurd (
      ground
        (arith, e, find-without_self children name, ap (λ n. find (without children name) n) same))
  | inr ne ↦
      v.children p k m
        (child-node_at fs p children meta k is ∙ sym (find-without_ne children name k ne) ∙ e)
]

-- What a removal that succeeds does to the paths `path` and `other`: one entry of one directory is dropped,
-- and the node it led to stays as it is.
pub record Removed (fs fs' : Vfs) (path other : List ℕ) (m : ℕ) : Type 0 where
  pub target : ℕ
  pub parent : ℕ
  pub name : List ℕ
  pub entry : EndsIn fs path parent name
  pub found : lookup fs path ≡ some target
  pub gone : lookup fs' path ≡ none
  pub kept : node_at fs' target ≡ node_at fs target
  pub closed : IsValid fs'
  pub others :
      (lookup fs' other ≡ some m)
      ⊎ ((lookup fs' other ≡ none) × (m ≡ target) × EndsIn fs other parent name)

removed :
    (fs : Vfs) (path parent_path name : List ℕ) (p t : ℕ) (children : Children) (meta : VfsMeta)
    (other : List ℕ) (m : ℕ)
    → IsValid fs
    → parts_of path ≡ parts_of parent_path ++ name ∷ []
    → lookup fs parent_path ≡ some p
    → node_at fs p ≡ dir children meta
    → find children name ≡ some t
    → ((n : List ℕ) → child (node_at fs t) n ≡ none)
    → lookup fs other ≡ some m
    → Removed fs (put_node fs p (dir (without children name) meta)) path other m
removed fs path parent_path name p t children meta other m v parts found is named leaf leads =
    let fs' = put_node fs p (dir (without children name) meta) in
    let inside = lookup_inside fs parent_path p v found in
    let d = without-Dropped fs p children meta name t is inside named leaf in
    let (before, parent, after) = Dropped-path fs fs' p name t d path parent_path parts found in
    let (root, at, walks) = lookup-root fs parent_path p found in
    record {
      target = t;
      parent = p;
      name = name;
      entry = (root, parts_of parent_path, at, parts, walks);
      found = before;
      gone = after;
      kept =
          node_at-put_node_ne fs p t (dir (without children name) meta)
            (Dropped-apart fs fs' p name t d);
      closed =
          put_node-IsValid fs p (dir (without children name) meta) v inside
            (without-Inside fs p children meta name v is);
      others = Dropped-entry fs fs' p name t d other m leads;
    }

node_cases :
    (n : VfsNode)
    → ((f : FileNode) × (n ≡ file f))
      ⊎ ((children : Children) × (meta : VfsMeta) × (n ≡ dir children meta))
node_cases (file f) = inl (f, refl)
node_cases (dir children meta) = inr (children, meta, refl)

remove_at_lem :
    (fs : Vfs) (path parent_path name : List ℕ) (p : ℕ) (allow_dir : Bool) (other : List ℕ) (m : ℕ)
    → IsValid fs
    → parts_of path ≡ parts_of parent_path ++ name ∷ []
    → lookup fs parent_path ≡ some p
    → lookup fs other ≡ some m
    → let (r, fs') = remove_at fs p name allow_dir in
      (IsError r × (fs' ≡ fs)) ⊎ ((r ≡ val 0) × Removed fs fs' path other m)
unfolding remove_at
remove_at_lem fs path parent_path name p allow_dir other m v parts found leads =
    elim (node_cases (node_at fs p)) [
      | inl (f, is) ↦ rw (is, remove_at) (inl (tt, refl))
      | inr (children, meta, is) ↦ elim (Option-cases (find children name)) [
        | inl missing ↦ rw (is, missing, remove_at) (inl (tt, refl))
        | inr (t, named) ↦ elim (Option-cases (refusal (node_at fs t) allow_dir)) [
          | inr (r, refused) ↦
              rw (is, named, refused, remove_at)
                (inl (refusal-IsError (node_at fs t) allow_dir r refused, refl))
          | inl allowed ↦
              rw (is, named, allowed, remove_at)
                (inr (
                  refl,
                  removed fs path parent_path name p t children meta other m v parts found is named
                      (refusal-leaf (node_at fs t) allow_dir allowed) leads,
                ))
        ]
      ]
    ]

-- The call either answers with an error and changes nothing, or answers 0, and then the path leads
-- nowhere, the node it led to is as it was, and every other path leads where it led, unless it too ends
-- with the removed name in the same directory, when it leads nowhere: so a removed file stays under its
-- names in other directories and its other names in this one. The store is closed before and after.
pub remove_entry_lem :
    (fs : Vfs) (path : List ℕ) (allow_dir : Bool) (other : List ℕ) (m : ℕ)
    → IsValid fs
    → lookup fs other ≡ some m
    → let (r, fs') = remove_entry fs path allow_dir in
      (IsError r × (fs' ≡ fs)) ⊎ ((r ≡ val 0) × Removed fs fs' path other m)
unfolding remove_entry
remove_entry_lem fs path allow_dir other m v leads = elim (split_parent_cases path) [
  | inl nameless ↦ rw (nameless, remove_entry) (inl (tt, refl))
  | inr (parent_path, name, splits, parts) ↦ elim (Option-cases (lookup fs parent_path)) [
    | inl missing ↦ rw (splits, missing, remove_entry) (inl (tt, refl))
    | inr (p, found) ↦
        rw (splits, found, remove_entry)
          (remove_at_lem fs path parent_path name p allow_dir other m v parts found leads)
  ]
]
