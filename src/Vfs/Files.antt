-- ===== src/Vfs/Files.antt =====
-- Reading and writing files of vfs/mod.rs by any of their names.
use chod_os.Base.{
  ℕ, ◌≡◌, refl, sym, ap, ◌∙◌, Bool, true, false, Option, none, some, List, arith, if◌then◌else◌,
  ◌==◌, ==_iff, Option-cases, inl, inr, ℕ_discrete,
}
use chod_os.Vfs.{
  Vfs, VfsNode, FileNode, file, child, lookup, node_at, put_node, content_of, read_file, edit_file,
}
use chod_os.Vfs.Walk.{node_at-put_node, node_at-put_node_ne}
use chod_os.Vfs.Valid.{IsValid, inside_file, lookup-same, put_node-IsValid}

-- A file in the place of a file.
pub child-put_node_same :
    (fs : Vfs) (n : ℕ) (f g : FileNode)
    → node_at fs n ≡ file f
    → (r : ℕ) (name : List ℕ)
    → child (node_at (put_node fs n (file g)) r) name ≡ child (node_at fs r) name
unfolding child
child-put_node_same fs n f g e r name = elim (ℕ_discrete n r) [
  | no ne ↦ ap (λ k. child k name) (node_at-put_node_ne fs n r (file g) ne)
  | yes same ↦
      ap (λ q. child (node_at (put_node fs n (file g)) q) name) (sym same)
      ∙ ap (λ k. child k name) (node_at-put_node fs n (file g) (inside_file fs n f e))
      ∙ ap (λ k. child k name) (sym e)
      ∙ ap (λ q. child (node_at fs q) name) same
]

pub put_node-IsValid_same :
    (fs : Vfs) (n : ℕ) (f g : FileNode)
    → node_at fs n ≡ file f
    → IsValid fs
    → IsValid (put_node fs n (file g))
unfolding child
put_node-IsValid_same fs n f g e v =
    put_node-IsValid fs n (file g) v (inside_file fs n f e) (λ name m c. cc c)

edit_file_eq :
    (change : List ℕ → List ℕ) (fs : Vfs) (path : List ℕ) (n : ℕ) (f : FileNode)
    → lookup fs path ≡ some n
    → node_at fs n ≡ file f
    → edit_file change fs path
      ≡ (true, put_node fs n (file (record f { content = change f.content })))
unfolding edit_file
edit_file_eq change fs path n f found is = rw (found, edit_file) (rw is refl)

pub put_node-root : (fs : Vfs) (n : ℕ) (k : VfsNode) → (put_node fs n k).root ≡ fs.root
unfolding put_node
put_node-root fs n k = refl

pub read_file-some :
    (fs : Vfs) (path : List ℕ) (m : ℕ)
    → lookup fs path ≡ some m
    → read_file fs path ≡ content_of (node_at fs m)
unfolding read_file
read_file-some fs path m e = rw (e, read_file) refl

pub read_file-none : (fs : Vfs) (path : List ℕ) → lookup fs path ≡ none → read_file fs path ≡ none
unfolding read_file
read_file-none fs path e = rw (e, read_file) refl

-- Whether a path leads to node `n`.
abbrev pub leads_to : Option ℕ → ℕ → Bool
leads_to none n = false
leads_to (some m) n = m == n

read-put_file :
    (fs : Vfs) (n : ℕ) (f g : FileNode) (other : List ℕ)
    → node_at fs n ≡ file f
    → read_file (put_node fs n (file g)) other
      ≡ (if leads_to (lookup fs other) n then some g.content else read_file fs other)
read-put_file fs n f g other is =
    let fs' = put_node fs n (file g) in
    let same : lookup fs' other ≡ lookup fs other =
      lookup-same fs fs' (put_node-root fs n (file g)) (child-put_node_same fs n f g is) other in
    elim (Option-cases (lookup fs other)) [
      | inl missing ↦
          read_file-none fs' other (same ∙ missing)
          ∙ sym (rw missing (read_file-none fs other missing))
      | inr (m, leads) ↦ read_file-some fs' other m (same ∙ leads) ∙ elim (ℕ_discrete m n) [
        | yes here ↦
            let hit : (m == n) ≡ true = (==_iff m n).1 here in
            ap (λ k. content_of (node_at fs' k)) here
            ∙ ap content_of (node_at-put_node fs n (file g) (inside_file fs n f is))
            ∙ rw (leads, hit) refl
        | no elsewhere ↦
            let miss : (m == n) ≡ false = ground (arith, elsewhere) in
            ap content_of (node_at-put_node_ne fs n m (file g) (λ e. elsewhere (sym e)))
            ∙ rw (leads, miss) (sym (read_file-some fs other m leads))
      ]
    ]

-- Changing the bytes of the file at a path succeeds, keeps the store closed and every path as it was,
-- and what is read afterwards by any path that leads to that file, a hard link too, is what was
-- changed, while every other path reads what it read before.
pub edit_file-read_file :
    (change : List ℕ → List ℕ) (fs : Vfs) (path : List ℕ) (n : ℕ) (f : FileNode) (other : List ℕ)
    → IsValid fs
    → lookup fs path ≡ some n
    → node_at fs n ≡ file f
    → let (done, fs') = edit_file change fs path in
      (done ≡ true)
      × IsValid fs'
      × (lookup fs' other ≡ lookup fs other)
      × (read_file fs' other
          ≡ (if leads_to (lookup fs other) n then some (change f.content) else read_file fs other))
edit_file-read_file change fs path n f other v found is =
    let new : FileNode = record f { content = change f.content } in
    rw (edit_file_eq change fs path n f found is) (
      refl,
      put_node-IsValid_same fs n f new is v,
      lookup-same fs _ (put_node-root fs n (file new)) (child-put_node_same fs n f new is) other,
      read-put_file fs n f new other is,
    )
