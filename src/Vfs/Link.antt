-- ===== src/Vfs/Link.antt =====
-- Hard links of vfs/mod.rs.
use chod_os.Base.{ℕ, ◌+◌, ◌≡◌, ◌≢◌, refl, sym, ap, ◌∙◌, none, some, List, length}
use chod_os.Base.Words.{u32}
use chod_os.Syscall.Errno.{val}
use chod_os.Vfs.Path.{split_parent, split_parent-parts}
use chod_os.Vfs.Tmpfs.{Children, find, put}
use chod_os.Vfs.{Vfs, VfsMeta, FileNode, file, dir, lookup, node_at, put_node}
use chod_os.Vfs.Attributes.{link_vfs, link_at}
use chod_os.Vfs.Walk.{node_at-put_node, node_at-put_node_ne}
use chod_os.Vfs.Valid.{IsValid, lookup_inside, inside_file, lookup-same, put_node-IsValid}
use chod_os.Vfs.Change.{Added-lookup, Added-path, put-Added}
use chod_os.Vfs.Create.{put-Inside}
use chod_os.Vfs.Files.{child-put_node_same, put_node-IsValid_same, put_node-root}

-- What a new link to file `n` does to the old path, the new one and `other`, which led to `m`.
pub record Linked (fs fs' : Vfs) (old_path new_path : List ℕ) (n : ℕ) (f : FileNode)
    (other : List ℕ) (m : ℕ) : Type 0 where
  pub old : lookup fs' old_path ≡ some n
  pub new : lookup fs' new_path ≡ some n
  pub counted :
      node_at fs' n ≡ file (record f { meta = record f.meta { nlink = u32 (f.meta.nlink + 1) } })
  pub closed : IsValid fs'
  pub others : lookup fs' other ≡ some m

-- A hard link from a file to a name that is not in use answers 0; afterwards both paths lead to the
-- one file, which counts one link more and is otherwise as it was, and every other path leads where it
-- led. The store is closed before and after, and the parent of the new path is a directory.
pub link_vfs_lem :
    (fs : Vfs) (old_path new_path new_parent name : List ℕ) (n p : ℕ) (f : FileNode)
    (children : Children) (meta : VfsMeta) (other : List ℕ) (m : ℕ)
    → IsValid fs
    → lookup fs old_path ≡ some n
    → node_at fs n ≡ file f
    → split_parent new_path ≡ some (new_parent, name)
    → lookup fs new_parent ≡ some p
    → node_at fs p ≡ dir children meta
    → find children name ≡ none
    → lookup fs other ≡ some m
    → let (r, fs') = link_vfs fs old_path new_path in
      (r ≡ val 0) × Linked fs fs' old_path new_path n f other m
unfolding link_vfs link_at
link_vfs_lem fs old_path new_path new_parent name n p f children meta other m v found is splits
      parent is_dir missing leads =
    let new_parts = split_parent-parts new_path new_parent name splits in
    let inside = lookup_inside fs new_parent p v parent in
    let fs1 = put_node fs p (dir (put children name n) meta) in
    let a = put-Added fs p children meta name n is_dir inside missing in
    let apart : p ≢ n = λ e. cc (sym is_dir ∙ ap (λ r. node_at fs r) e ∙ is) in
    let is1 : node_at fs1 n ≡ file f =
      node_at-put_node_ne fs p n (dir (put children name n) meta) apart ∙ is in
    let v1 : IsValid fs1 = put_node-IsValid fs p (dir (put children name n) meta) v inside (
      put-Inside fs (length fs.nodes) p children meta name n (v.children p) is_dir
        (lookup_inside fs old_path n v found)) in
    let g : FileNode = record f { meta = record f.meta { nlink = u32 (f.meta.nlink + 1) } } in
    let fs2 = put_node fs1 n (file g) in
    let same =
      lookup-same fs1 fs2 (put_node-root fs1 n (file g)) (child-put_node_same fs1 n f g is1) in
    let (free, leads_new) = Added-path fs fs1 p name n a new_path new_parent new_parts parent in
    rw (found, link_vfs)
      (rw (is, splits, parent)
        (rw (is_dir, link_at)
          (rw is1 (
            refl,
            record {
              old = same old_path ∙ Added-lookup fs fs1 p name n a old_path n found;
              new = same new_path ∙ leads_new;
              counted = node_at-put_node fs1 n (file g) (inside_file fs1 n f is1);
              closed = put_node-IsValid_same fs1 n f g is1 v1;
              others = same other ∙ Added-lookup fs fs1 p name n a other m leads;
            },
          ))))
