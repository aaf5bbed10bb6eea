-- ===== src/Vfs/Attributes.antt =====
-- vfs/mod.rs: hard links, truncation, and what `stat` reports.
use chod_os.Base.{
  ℕ, ◌+◌, ◌-◌, ◌^◌, Option, none, some, List, ◌++◌, length, take, replicate, bit_and, bit_or,
}
use chod_os.Base.Words.{u32}
use chod_os.Syscall.Errno.{Result, val, err, enoent, eisdir, einval}
use chod_os.Vfs.Path.{split_parent}
use chod_os.Vfs.Tmpfs.{NodeRef, put}
use chod_os.Vfs.{Vfs, VfsNode, VfsMeta, file, dir, lookup, node_at, put_node}

abbrev pub eperm : Result
eperm = err 1

abbrev pub more_links : VfsNode → VfsNode
more_links (file f) = file (record f { meta = record f.meta { nlink = u32 (f.meta.nlink + 1) } })
more_links (dir children meta) = dir children meta

-- The entry for `node` in a directory, and the count of its links.
unfoldable pub link_at : Vfs → NodeRef → List ℕ → NodeRef → Result × Vfs
link_at fs parent name node = elim (node_at fs parent) [
  | file f ↦ (enoent, fs)
  | dir children meta ↦
      let fs' = put_node fs parent (dir (put children name node) meta) in
      (val 0, put_node fs' node (more_links (node_at fs' node)))
]

unfoldable pub link_vfs : Vfs → List ℕ → List ℕ → Result × Vfs
link_vfs fs old_path new_path = elim (lookup fs old_path) [
  | none ↦ (enoent, fs)
  | some node ↦ elim (node_at fs node) [
    | dir children meta ↦ (eperm, fs)
    | file f ↦ elim (split_parent new_path) [
      | none ↦ (einval, fs)
      | some (parent_path, name) ↦ elim (lookup fs parent_path) [
        | none ↦ (enoent, fs)
        | some parent ↦ link_at fs parent name node
      ]
    ]
  ]
]

-- `Vec::resize` with zeros.
abbrev pub resize : List ℕ → ℕ → List ℕ
resize bytes size = take size bytes ++ replicate (size - length bytes) 0

unfoldable pub truncate_node : Vfs → NodeRef → ℕ → Result × Vfs
truncate_node fs node size = elim (node_at fs node) [
  | dir children meta ↦ (eisdir, fs)
  | file f ↦ (val 0, put_node fs node (file (record f { content = resize f.content size })))
]

unfoldable pub truncate_vfs : Vfs → List ℕ → ℕ → Result × Vfs
truncate_vfs fs path size = elim (lookup fs path) [
  | none ↦ (enoent, fs)
  | some node ↦ truncate_node fs node size
]

-- A change of the metadata of a node.
abbrev pub with_meta : (VfsMeta → VfsMeta) → VfsNode → VfsNode
with_meta change (file f) = file (record f { meta = change f.meta })
with_meta change (dir children meta) = dir children (change meta)

unfoldable pub edit_meta : (VfsMeta → VfsMeta) → Vfs → List ℕ → Result × Vfs
edit_meta change fs path = elim (lookup fs path) [
  | none ↦ (enoent, fs)
  | some node ↦ (val 0, put_node fs node (with_meta change (node_at fs node)))
]

-- `mode & 0o7777`
unfoldable pub chmod_vfs : Vfs → List ℕ → ℕ → Result × Vfs
chmod_vfs fs path mode =
    edit_meta (λ (m : VfsMeta). record m { mode = bit_and mode (2 ^ 12 - 1) }) fs path

unfoldable pub chown_vfs : Vfs → List ℕ → ℕ → ℕ → Result × Vfs
chown_vfs fs path uid gid = edit_meta (λ (m : VfsMeta). record m { uid = uid; gid = gid }) fs path

pub record Stat : Type 0 where
  pub ino : ℕ
  pub mode : ℕ
  pub uid : ℕ
  pub gid : ℕ
  pub nlink : ℕ
  pub size : ℕ

abbrev pub stat_of : VfsMeta → ℕ → ℕ → Stat
stat_of m kind size = record {
  ino = m.ino;
  mode = bit_or m.mode kind;
  uid = m.uid;
  gid = m.gid;
  nlink = m.nlink;
  size = size;
}

-- 0o100000 and 0o040000.
unfoldable pub stat_node : Vfs → NodeRef → Stat
stat_node fs node = elim (node_at fs node) [
  | file f ↦ stat_of f.meta (2 ^ 15) (length f.content)
  | dir children meta ↦ stat_of meta (2 ^ 14) 0
]

unfoldable pub stat_path : Vfs → List ℕ → Option Stat
stat_path fs path = elim (lookup fs path) [ none ↦ none | some node ↦ some (stat_node fs node) ]
