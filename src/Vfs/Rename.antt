-- ===== src/Vfs/Rename.antt =====
-- `rename` of vfs/mod.rs.
use chod_os.Base.{
  ℕ, zero, suc, ◌≡◌, ◌≢◌, ◌<◌, refl, sym, ap, ◌∙◌, true, false, none, some, List, [], ◌∷◌, ◌++◌,
  arith, ◌==◌, ==_iff, inl, inr, ◌⊎◌, length, length-set, set, subst, ℕ_discrete,
}
use chod_os.Syscall.Errno.{val, enoent}
use chod_os.Vfs.Path.{parts_of, split_parent, split_parent-parts}
use chod_os.Vfs.Tmpfs.{Children, find, put, without, find-without-none}
use chod_os.Vfs.{
  Vfs, VfsNode, VfsMeta, FileNode, file, dir, child, lookup, node_at, put_node, rename,
  rename_within, rename_across, insert_at,
}
use chod_os.Vfs.Walk.{node_at-put_node, node_at-put_node_ne}
use chod_os.Vfs.Valid.{IsValid, lookup_inside, lookup-last, put_node-IsValid}
use chod_os.Vfs.Change.{
  Dropped, Elsewhere, Dropped-lookup, Dropped-path, Added-lookup, Added-path, without-Dropped,
  put-Added,
}
use chod_os.Vfs.Remove.{child-node_at, without-Inside}
use chod_os.Vfs.Create.{put-Inside}

set-set : {A : Type 0} (xs : List A) (i : ℕ) (a b : A) → set (set xs i a) i b ≡ set xs i b
set-set [] i a b = refl
set-set (x ∷ xs) zero a b = refl
set-set (x ∷ xs) (suc i) a b = ap (λ ys. x ∷ ys) (set-set xs i a b)

put_node-put_node :
    (fs : Vfs) (r : ℕ) (a b : VfsNode) → put_node (put_node fs r a) r b ≡ put_node fs r b
unfolding put_node
put_node-put_node fs r a b = ap (λ ns. record fs { nodes = ns }) (set-set fs.nodes r a b)

length-put_node :
    (fs : Vfs) (r : ℕ) (a : VfsNode) → length (put_node fs r a).nodes ≡ length fs.nodes
unfolding put_node
length-put_node fs r a = length-set fs.nodes r a

-- What a move does to the two paths and to `other`, which led to `m`.
pub record Moved (fs fs' : Vfs) (old_path new_path : List ℕ) (n : ℕ) (other : List ℕ) (m : ℕ)
    : Type 0 where
  pub before : lookup fs old_path ≡ some n
  pub gone : lookup fs' old_path ≡ none
  pub found : lookup fs' new_path ≡ some n
  pub closed : IsValid fs'
  pub others : (lookup fs' other ≡ some m) ⊎ (m ≡ n)

module _ (fs : Vfs) (old_path old_parent on new_path new_parent nn : List ℕ) (p q n : ℕ)
    (children : Children) (meta : VfsMeta) (other : List ℕ) (m : ℕ) (v : IsValid fs)
    (old_parts : parts_of old_path ≡ parts_of old_parent ++ on ∷ [])
    (new_parts : parts_of new_path ≡ parts_of new_parent ++ nn ∷ [])
    (old_found : lookup fs old_parent ≡ some p) (new_found : lookup fs new_parent ≡ some q)
    (is : node_at fs p ≡ dir children meta) (named : find children on ≡ some n)
    (leaf : (k : List ℕ) → child (node_at fs n) k ≡ none) (leads : lookup fs other ≡ some m) where
  removed : Vfs
  removed = put_node fs p (dir (without children on) meta)

  inside_p : p < length fs.nodes
  inside_p = lookup_inside fs old_parent p v old_found

  dropped : Dropped fs removed p on n
  unfolding removed
  dropped = without-Dropped fs p children meta on n is inside_p named leaf

  removed-IsValid : IsValid removed
  unfolding removed
  removed-IsValid = put_node-IsValid fs p _ v inside_p (without-Inside fs p children meta on v is)

  length-removed : length removed.nodes ≡ length fs.nodes
  unfolding removed
  length-removed = length-put_node fs p (dir (without children on) meta)

  elsewhere : child (node_at fs q) nn ≡ none → Elsewhere q nn p on
  elsewhere free = elim (ℕ_discrete p q) [
    | no ne ↦ inl ne
    | yes here ↦ inr (λ same. ground (
      arith,
      free,
      named,
      child-node_at fs p children meta on is,
      ap (λ r. child (node_at fs r) on) here,
      ap (λ k. child (node_at fs q) k) same,
    ))
  ]

  -- The name is dropped, and then added in directory `q`, whose entries are now `cs`.
  moved :
      (cs : Children) (meta' : VfsMeta)
      → node_at removed q ≡ dir cs meta'
      → find cs nn ≡ none
      → child (node_at fs q) nn ≡ none
      → q ≢ n
      → Moved fs (put_node removed q (dir (put cs nn n) meta')) old_path new_path n other m
  moved cs meta' is' missing unused apart =
      let (old_before, old_kept, old_gone) =
        Dropped-path fs removed p on n dropped old_path old_parent old_parts old_found in
      let new_kept : lookup removed new_parent ≡ some q =
        elim (Dropped-lookup fs removed p on n dropped new_parent q new_found) [
          | inl kept ↦ kept
          | inr (lost, same) ↦ absurd (apart same)
        ] in
      let h : q < length removed.nodes =
        lookup_inside removed new_parent q removed-IsValid new_kept in
      let inside_n : n < length removed.nodes =
        omega (arith, length-removed, lookup_inside fs old_path n v old_before) in
      let fs' = put_node removed q (dir (put cs nn n) meta') in
      let a = put-Added removed q cs meta' nn n is' h missing in
      let (free, found) = Added-path removed fs' q nn n a new_path new_parent new_parts new_kept in
      record {
        before = old_before;
        gone =
            lookup-last fs' old_path old_parent on p old_parts
              (Added-lookup removed fs' q nn n a old_parent p old_kept)
            ∙ a.others p on (elsewhere unused)
            ∙ dropped.gone;
        found = found;
        closed = put_node-IsValid removed q _ removed-IsValid h (
            put-Inside removed (length removed.nodes) q cs meta' nn n (removed-IsValid.children q)
              is' inside_n);
        others = elim (Dropped-lookup fs removed p on n dropped other m leads) [
          | inl kept ↦ inl (Added-lookup removed fs' q nn n a other m kept)
          | inr (lost, same) ↦ inr same
        ];
      }

  within :
      p ≡ q
      → child (node_at fs q) nn ≡ none
      → q ≢ n
      → Moved fs
          (put_node fs p (dir (put (without children on) nn n) meta))
          old_path
          new_path
          n
          other
          m
  unfolding removed
  within here unused apart =
      let cs = without children on in
      let is' : node_at removed q ≡ dir cs meta =
        ap (λ r. node_at removed r) (sym here) ∙ node_at-put_node fs p (dir cs meta) inside_p in
      let missing : find cs nn ≡ none = find-without-none children on nn (
        sym (child-node_at fs p children meta nn is)
        ∙ ap (λ r. child (node_at fs r) nn) here
        ∙ unused) in
      subst (λ fs'. Moved fs fs' old_path new_path n other m)
        (ap (λ r. put_node removed r (dir (put cs nn n) meta)) (sym here)
          ∙ put_node-put_node fs p (dir cs meta) (dir (put cs nn n) meta))
        (moved cs meta is' missing unused apart)

  across :
      (cs : Children) (meta' : VfsMeta)
      → p ≢ q
      → node_at fs q ≡ dir cs meta'
      → child (node_at fs q) nn ≡ none
      → q ≢ n
      → (node_at removed q ≡ dir cs meta')
        × Moved fs (put_node removed q (dir (put cs nn n) meta')) old_path new_path n other m
  unfolding removed
  across cs meta' ne is' unused apart =
      let same : node_at removed q ≡ dir cs meta' =
        node_at-put_node_ne fs p q (dir (without children on) meta) ne ∙ is' in
      (same, moved cs meta' same (sym (child-node_at fs q cs meta' nn is') ∙ unused) unused apart)

-- Moving a file, or an empty directory, to a name that is not in use, in the same directory or in
-- another one, answers 0: the new path leads to what the old one led to, the old path leads nowhere,
-- every other path leads where it led unless that is what was moved, and the store stays closed. The
-- store is closed before, both parents are directories, and an empty directory is not moved into
-- itself.
pub rename_lem :
    (fs : Vfs) (old_path old_parent on new_path new_parent nn : List ℕ) (p q n : ℕ)
    (children cs : Children) (meta meta' : VfsMeta) (other : List ℕ) (m : ℕ)
    → IsValid fs
    → split_parent old_path ≡ some (old_parent, on)
    → split_parent new_path ≡ some (new_parent, nn)
    → lookup fs old_parent ≡ some p
    → lookup fs new_parent ≡ some q
    → node_at fs p ≡ dir children meta
    → node_at fs q ≡ dir cs meta'
    → find children on ≡ some n
    → find cs nn ≡ none
    → ((k : List ℕ) → child (node_at fs n) k ≡ none)
    → q ≢ n
    → lookup fs other ≡ some m
    → let (r, fs') = rename fs old_path new_path in
      (r ≡ val 0) × Moved fs fs' old_path new_path n other m
unfolding rename rename_within rename_across insert_at removed
rename_lem fs old_path old_parent on new_path new_parent nn p q n children cs meta meta' other m v
      old_splits new_splits old_found new_found is is' named missing leaf apart leads =
    let old_parts = split_parent-parts old_path old_parent on old_splits in
    let new_parts = split_parent-parts new_path new_parent nn new_splits in
    let unused = child-node_at fs q cs meta' nn is' ∙ missing in
    elim (ℕ_discrete p q) [
      | yes here ↦
          let hit : (p == q) ≡ true = (==_iff p q).1 here in
          rw (old_splits, new_splits, old_found, new_found, hit, rename)
            (rw (is, named, rename_within)
              (
                refl,
                within fs old_path old_parent on new_path new_parent nn p q n children meta other m
                    v old_parts new_parts old_found new_found is named leaf leads here unused apart,
              ))
      | no ne ↦
          let miss : (p == q) ≡ false = ground (arith, ne) in
          let (same, moves) =
            across fs old_path old_parent on new_path new_parent nn p q n children meta other m v
              old_parts new_parts old_found new_found is named leaf leads cs meta' ne is' unused
              apart in
          rw (old_splits, new_splits, old_found, new_found, miss, rename)
            (rw (is, named, rename_across) (rw (same, insert_at) (refl, moves)))
    ]

-- Where a file or an empty directory is to be moved, in a closed store, and the parent of the new path is a
-- file, the call answers ENOENT, and the old path, which led to what was to be moved, leads nowhere all
-- the same: the name is lost although the call failed.
pub rename-loses :
    (fs : Vfs) (old_path old_parent on new_path new_parent nn : List ℕ) (p q n : ℕ)
    (children : Children) (meta : VfsMeta) (f : FileNode)
    → IsValid fs
    → split_parent old_path ≡ some (old_parent, on)
    → split_parent new_path ≡ some (new_parent, nn)
    → lookup fs old_parent ≡ some p
    → lookup fs new_parent ≡ some q
    → node_at fs p ≡ dir children meta
    → node_at fs q ≡ file f
    → find children on ≡ some n
    → ((k : List ℕ) → child (node_at fs n) k ≡ none)
    → let (r, fs') = rename fs old_path new_path in
      (r ≡ enoent) × (lookup fs old_path ≡ some n) × (lookup fs' old_path ≡ none)
unfolding rename rename_across insert_at
rename-loses fs old_path old_parent on new_path new_parent nn p q n children meta f v old_splits
      new_splits old_found new_found is is' named leaf =
    let parts = split_parent-parts old_path old_parent on old_splits in
    let ne : p ≢ q = λ e. cc (sym is ∙ ap (λ r. node_at fs r) e ∙ is') in
    let miss : (p == q) ≡ false = ground (arith, ne) in
    let fs' = put_node fs p (dir (without children on) meta) in
    let d =
      without-Dropped fs p children meta on n is (lookup_inside fs old_parent p v old_found) named
        leaf in
    let (before, kept, gone) = Dropped-path fs fs' p on n d old_path old_parent parts old_found in
    let same : node_at fs' q ≡ file f =
      node_at-put_node_ne fs p q (dir (without children on) meta) ne ∙ is' in
    rw (old_splits, new_splits, old_found, new_found, miss, rename)
      (rw (is, named, rename_across) (rw (same, insert_at) (refl, before, gone)))
