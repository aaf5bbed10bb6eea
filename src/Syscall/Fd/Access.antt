-- ===== src/Syscall/Fd/Access.antt =====
-- File numbers of syscall/fd.rs: what may be done by which, and which share a file.
use chod_os.Base.{
  ℕ, zero, suc, ◌+◌, ◌^◌, ◌≡◌, ◌<◌, refl, sym, ap, ◌∙◌, true, false, Option, none, some, List, [],
  ◌∷◌, ◌++◌, arith, if◌then◌else◌, ==_refl, Option-cases, inl, inr, ℕ_discrete, length, get_elem?,
  set, take, get_elem?-set_self, get_elem?-set_ne,
}
use chod_os.Base.Words.{u64}
use chod_os.Syscall.Errno.{val, ebadf}
use chod_os.Process.Handle.{
  HandleTable, Capability, Object, read, write, insert, get, covers, downcast,
}
use chod_os.Process.Handle.Table.{IsValid, insert-get}
use chod_os.Vfs.{FileNode, file, node_at, put_node}
use chod_os.Vfs.Tmpfs.{NodeRef}
use chod_os.Vfs.Valid.{inside_file}
use chod_os.Vfs.Walk.{node_at-put_node}
use chod_os.Syscall.Fd.{
  FileResource, Files, new_readonly, source, slice, overwrite, read_resource, pread_resource,
  write_at, file_of, table_of, capability, file_resource, write_fd, pread, read_fd, open_file,
}
use chod_os.Syscall.Fd.Transfer.{overwrite_lem, slice-take}

get_elem?-lt : {A : Type 0} (xs : List A) (i : ℕ) (x : A) → get_elem? xs i ≡ some x → i < length xs
get_elem?-lt [] i x e = cc e
get_elem?-lt (y ∷ xs) zero x e = omega arith
get_elem?-lt (y ∷ xs) (suc i) x e = omega (arith, get_elem?-lt xs i x e)

get_elem?-append_last :
    {A : Type 0} (xs : List A) (x : A) → get_elem? (xs ++ x ∷ []) (length xs) ≡ some x
get_elem?-append_last [] x = refl
get_elem?-append_last (y ∷ xs) x = get_elem?-append_last xs x

file_of-some :
    (s : Files) (fd required : ℕ) (o : Object) (g : FileResource)
    → get (table_of s) fd required file_resource ≡ some o
    → get_elem? s.files o.id ≡ some g
    → file_of s fd required ≡ some (o.id, g)
unfolding file_of
file_of-some s fd required o g held there = rw (held, file_of) (rw there refl)

file_of-none :
    (s : Files) (fd required : ℕ)
    → get (table_of s) fd required file_resource ≡ none
    → file_of s fd required ≡ none
unfolding file_of
file_of-none s fd required missing = rw (missing, file_of) refl

-- What it takes for a number to be that of open file `i`.
file_of_parts :
    (s : Files) (fd required i : ℕ) (f : FileResource)
    → file_of s fd required ≡ some (i, f)
    → (o : Object) × (get (table_of s) fd required file_resource ≡ some o)
      × (o.id ≡ i)
      × (get_elem? s.files i ≡ some f)
unfolding file_of
file_of_parts s fd required i f e =
    elim (Option-cases (get (table_of s) fd required file_resource)) [
      | inl missing ↦ absurd (ground (arith, e, missing))
      | inr (o, held) ↦ elim (Option-cases (get_elem? s.files o.id)) [
        | inl missing ↦ absurd (ground (arith, e, held, missing))
        | inr (g, there) ↦
            let same : some (o.id, g) ≡ some (i, f) =
              sym (file_of-some s fd required o g held there) ∙ e in
            let first : o.id ≡ i = cc same in
            let second : g ≡ f = cc same in
            (
              o,
              held,
              first,
              ap (λ k. get_elem? s.files k) (sym first) ∙ there ∙ ap (λ k. some k) second,
            )
      ]
    ]

-- A file opened for writing, at `pos` in the file of `node`.
abbrev pub live : List ℕ → NodeRef → ℕ → FileResource
live path node pos = record {
  path = path;
  vfs_node = some node;
  cache = [];
  pos = pos;
  writable = true;
}

module _ (s : Files) (fd i : ℕ) (path : List ℕ) (node pos : ℕ) (n : FileNode) (bytes : List ℕ)
    (held : file_of s fd write ≡ some (i, live path node pos))
    (is : node_at s.fs node ≡ file n) where
  written : Files
  written = record s {
    files = set s.files i (live path node (u64 (pos + length bytes)));
    fs = put_node s.fs node (file (record n { content = overwrite n.content pos bytes }));
  }

  write_fd_eq : write_fd s fd bytes ≡ (val (length bytes), written)
  unfolding write_fd write_at written
  write_fd_eq = rw (held, write_fd) (rw (is, write_at) refl)

  -- The other file keeps its place, or has it moved on where it is the same file.
  shared :
      (j : ℕ) (g : FileResource)
      → get_elem? s.files j ≡ some g
      → g.vfs_node ≡ some node
      → (g' : FileResource) × (get_elem? written.files j ≡ some g') × (g'.vfs_node ≡ some node)
  unfolding written
  shared j g there same = elim (ℕ_discrete i j) [
    | no ne ↦ (g, get_elem?-set_ne s.files i j _ ne ∙ there, same)
    | yes e ↦ (
      live path node (u64 (pos + length bytes)),
      ap (λ k. get_elem? (set s.files i (live path node (u64 (pos + length bytes)))) k) (sym e)
          ∙ get_elem?-set_self s.files i _ (omega (arith, e, get_elem?-lt s.files j g there)),
      refl,
    )
  ]

  written-source :
      (g : FileResource)
      → g.vfs_node ≡ some node
      → source written.fs g ≡ overwrite n.content pos bytes
  unfolding source written
  written-source g same =
      ap (λ (o : Option ℕ). source written.fs (record g { vfs_node = o })) same
      ∙ rw
          (
            node_at-put_node s.fs node (file (record n { content = overwrite n.content pos bytes }))
                (inside_file s.fs node n is),
            source,
          )
          refl

-- What is written by one file number is read back, at the place where it was written, by every number
-- that may be read and whose open file is a view of the same node: the same number, or another one
-- opened for writing too, by the same path or by a hard link. (A file opened for reading only is no view
-- of a node but a copy made when it was opened, and is not meant.) The write answers with its length; it
-- ends below 2^64.
pub write_fd-pread :
    (s : Files) (fd i : ℕ) (path : List ℕ) (node pos : ℕ) (n : FileNode) (bytes : List ℕ)
    (fd' j : ℕ) (g : FileResource)
    → file_of s fd write ≡ some (i, live path node pos)
    → node_at s.fs node ≡ file n
    → file_of s fd' read ≡ some (j, g)
    → g.vfs_node ≡ some node
    → pos + length bytes < 2 ^ 64
    → let (r, s') = write_fd s fd bytes in
      (r ≡ val (length bytes)) × (pread s' fd' (length bytes) pos ≡ some bytes)
unfolding pread pread_resource written
write_fd-pread s fd i path node pos n bytes fd' j g held is held' same fits =
    let (o, may, id, there) = file_of_parts s fd' read j g held' in
    let s' = written s fd i path node pos n bytes held is in
    let (g', there', same') = shared s fd i path node pos n bytes held is j g there same in
    let found : file_of s' fd' read ≡ some (o.id, g') =
      file_of-some s' fd' read o g' may (ap (λ k. get_elem? s'.files k) id ∙ there') in
    rw (write_fd_eq s fd i path node pos n bytes held is) (
      refl,
      rw (found, pread)
          (ap (λ xs. some (slice xs (length bytes) pos))
              (written-source s fd i path node pos n bytes held is g' same')
            ∙ ap (λ xs. some xs) (overwrite_lem n.content pos bytes 0 fits).2),
    )

module _ (s : Files) (path bytes : List ℕ) (v : IsValid (table_of s))
    (fits : (table_of s).next_id + 1 < 2 ^ 32) where
  t : HandleTable
  t = table_of s

  cap : Capability
  cap = capability file_resource (length s.files) read

  opened : Files
  opened = record s {
    files = s.files ++ new_readonly path bytes ∷ [];
    table = some (insert t cap).1;
  }

  open_file_eq : open_file s path bytes false ≡ (t.next_id, opened)
  unfolding open_file opened insert t cap
  open_file_eq = refl

  get-opened :
      (required : ℕ)
      → get (table_of opened) t.next_id required file_resource
        ≡ (if covers read required then some cap.object else none)
  unfolding opened insert t cap downcast
  get-opened required =
      (insert-get t cap t.next_id required file_resource v fits).2 ∙ rw (==_refl t.next_id) refl

  may_read : file_of opened t.next_id read ≡ some (length s.files, new_readonly path bytes)
  unfolding covers opened cap t
  may_read =
      file_of-some opened t.next_id read cap.object (new_readonly path bytes) (get-opened read)
        (get_elem?-append_last s.files (new_readonly path bytes))

  may_not_write : file_of opened t.next_id write ≡ none
  unfolding covers
  may_not_write = file_of-none opened t.next_id write (get-opened write)

-- A file opened without the right to write gets a new number, by which it can be read from its start
-- and cannot be written: a write answers EBADF and changes nothing. The table is valid and its next
-- number does not overflow.
pub open_file-readonly :
    (s : Files) (path bytes : List ℕ) (count : ℕ) (more : List ℕ)
    → IsValid (table_of s)
    → (table_of s).next_id + 1 < 2 ^ 32
    → let (fd, s') = open_file s path bytes false in
      (fd ≡ (table_of s).next_id)
      × ((read_fd s' fd count).0 ≡ some (take count bytes))
      × (write_fd s' fd more ≡ (ebadf, s'))
unfolding read_fd write_fd read_resource source t
open_file-readonly s path bytes count more v fits = rw (open_file_eq s path bytes v fits) (
  refl,
  rw (may_read s path bytes v fits, read_fd) (ap (λ xs. some xs) (slice-take bytes count 0)),
  rw (may_not_write s path bytes v fits, write_fd) refl,
)
