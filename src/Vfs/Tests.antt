-- ===== src/Vfs/Tests.antt =====
-- A tree with the directories /a and /b, the file /a/f and the file /g.
use chod_os.Base.{
  ℕ, zero, suc, ◌≡◌, ◌<◌, refl, Bool, true, false, none, some, List, [], ◌∷◌, ◌++◌, arith, ◌⊎◌,
  if◌then◌else◌,
}
use chod_os.Base.Text.{codes}
use chod_os.Syscall.Errno.{val, enoent}
use chod_os.Vfs.Path.{eq_str, split_parent, trim_end, trim_start, rfind, split, nonempty, parts_of}
use chod_os.Vfs.Tmpfs.{Children, find, find-All, put, lt_str}
use chod_os.Vfs.{
  create_file, mkdir, Vfs, VfsMeta, FileNode, file, dir, child, walk, lookup, node_at, read_file,
  new_meta, edit_file, remove_entry, rename, create, add_node, mkdir,
}
use chod_os.Vfs.Attributes.{link_vfs}
use chod_os.Vfs.Init.{init, make_dirs, standard_dirs}
use chod_os.Vfs.Valid.{IsValid}
use chod_os.Vfs.Files.{leads_to, edit_file-read_file}
use chod_os.Vfs.Remove.{IsError, Removed, remove_entry_lem}
use chod_os.Vfs.Create.{Created, empty_file, empty_dir, create_file_lem}
use chod_os.Vfs.Rename.{Moved, rename_lem, rename-loses}
use chod_os.Vfs.Link.{Linked, link_vfs_lem}

abbrev meta : VfsMeta
meta = new_meta 3 493 2

abbrev text : FileNode
text = record { content = 104 ∷ 105 ∷ []; meta = new_meta 5 420 1 }

abbrev top : Children
top = (codes "a", 1) ∷ (codes "b", 2) ∷ (codes "g", 4) ∷ []

abbrev tree : Vfs
tree = record {
  nodes = dir top meta ∷ dir ((codes "f", 3) ∷ []) meta ∷ dir [] meta ∷ file text ∷ file text ∷ [];
  root = some 0;
  ino_seq = 7;
}

tree-IsValid : IsValid tree
unfolding node_at child find
tree-IsValid = record { root = λ r e. ground (arith, e); children = inside }
  where
    inside : (r : ℕ) (name : List ℕ) (m : ℕ) → child (node_at tree r) name ≡ some m → m < 5
    inside zero name m e = find-All 5 top name m (omega arith, (omega arith, (omega arith, tt))) e
    inside (suc zero) name m e = find-All 5 ((codes "f", 3) ∷ []) name m (omega arith, tt) e
    inside (suc (suc zero)) name m e = cc e
    inside (suc (suc (suc zero))) name m e = cc e
    inside (suc (suc (suc (suc zero)))) name m e = cc e
    inside (suc (suc (suc (suc (suc r))))) name m e = cc e

-- The standard directories are all there after `init`.
found_all : Vfs → List (List ℕ) → Bool
found_all fs [] = true
found_all fs (d ∷ ds) = elim (lookup fs d) [ none ↦ false | some n ↦ found_all fs ds ]

init-found_all : found_all init standard_dirs ≡ true
unfolding found_all init make_dirs mkdir create add_node lookup walk child node_at find put lt_str
    eq_str split_parent parts_of trim_end trim_start rfind split nonempty
init-found_all = refl

f-found : lookup tree (codes "/a/f") ≡ some 3
unfolding lookup walk child node_at find eq_str parts_of trim_start split nonempty
f-found = refl

g-found : lookup tree (codes "/g") ≡ some 4
unfolding lookup walk child node_at find eq_str parts_of trim_start split nonempty
g-found = refl

a-found : lookup tree (codes "/a") ≡ some 1
unfolding lookup walk child node_at find eq_str parts_of trim_start split nonempty
a-found = refl

b-found : lookup tree (codes "/b") ≡ some 2
unfolding lookup walk child node_at find eq_str parts_of trim_start split nonempty
b-found = refl

f-splits : split_parent (codes "/a/f") ≡ some (codes "/a", codes "f")
unfolding split_parent trim_end rfind
f-splits = refl

h-splits : split_parent (codes "/b/h") ≡ some (codes "/b", codes "h")
unfolding split_parent trim_end rfind
h-splits = refl

gh-splits : split_parent (codes "/g/h") ≡ some (codes "/g", codes "h")
unfolding split_parent trim_end rfind
gh-splits = refl

edit_file-read_file_example :
    let (done, fs') = edit_file (λ old. old ++ (33 ∷ [])) tree (codes "/a/f") in
    (done ≡ true)
    × IsValid fs'
    × (lookup fs' (codes "/g") ≡ lookup tree (codes "/g"))
    × (read_file fs' (codes "/g") ≡ (
        if leads_to (lookup tree (codes "/g")) 3
        then some (104 ∷ 105 ∷ 33 ∷ [])
        else read_file tree (codes "/g")))
unfolding node_at
edit_file-read_file_example =
    edit_file-read_file (λ old. old ++ (33 ∷ [])) tree (codes "/a/f") 3 text (codes "/g")
      tree-IsValid f-found refl

remove_entry_lem_example :
    let (r, fs') = remove_entry tree (codes "/a/f") false in
    (IsError r × (fs' ≡ tree)) ⊎ ((r ≡ val 0) × Removed tree fs' (codes "/a/f") (codes "/g") 4)
remove_entry_lem_example =
    remove_entry_lem tree (codes "/a/f") false (codes "/g") 4 tree-IsValid g-found

create_file_lem_example :
    (let (made, fs') = create_file tree (codes "/b/h") in
      Created empty_file tree fs' made (codes "/b/h") (codes "/g") 4)
    × (let (made, fs') = mkdir tree (codes "/b/h") in
        Created empty_dir tree fs' made (codes "/b/h") (codes "/g") 4)
unfolding node_at child
create_file_lem_example =
    create_file_lem tree (codes "/b/h") (codes "/b") (codes "h") 2 [] meta (codes "/g") 4
      tree-IsValid h-splits b-found refl g-found

rename_lem_example :
    let (r, fs') = rename tree (codes "/a/f") (codes "/b/h") in
    (r ≡ val 0) × Moved tree fs' (codes "/a/f") (codes "/b/h") 3 (codes "/g") 4
unfolding node_at child find eq_str
rename_lem_example =
    rename_lem tree (codes "/a/f") (codes "/a") (codes "f") (codes "/b/h") (codes "/b") (codes "h")
      1 2 3 ((codes "f", 3) ∷ []) [] meta meta (codes "/g") 4 tree-IsValid f-splits h-splits a-found
      b-found refl refl refl refl (λ k. refl) (λ e. omega (arith, e)) g-found

rename-loses_example :
    let (r, fs') = rename tree (codes "/a/f") (codes "/g/h") in
    (r ≡ enoent) × (lookup tree (codes "/a/f") ≡ some 3) × (lookup fs' (codes "/a/f") ≡ none)
unfolding node_at child find eq_str
rename-loses_example =
    rename-loses tree (codes "/a/f") (codes "/a") (codes "f") (codes "/g/h") (codes "/g")
      (codes "h") 1 4 3 ((codes "f", 3) ∷ []) meta text tree-IsValid f-splits gh-splits a-found
      g-found refl refl refl (λ k. refl)

link_vfs_lem_example :
    let (r, fs') = link_vfs tree (codes "/a/f") (codes "/b/h") in
    (r ≡ val 0) × Linked tree fs' (codes "/a/f") (codes "/b/h") 3 text (codes "/g") 4
unfolding node_at find
link_vfs_lem_example =
    link_vfs_lem tree (codes "/a/f") (codes "/b/h") (codes "/b") (codes "h") 3 2 text [] meta
      (codes "/g") 4 tree-IsValid f-found refl h-splits b-found refl refl g-found
