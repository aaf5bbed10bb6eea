-- ===== src/Vfs/Overlay.antt =====
-- vfs/mod.rs: the tree of tmpfs over the read-only file system, /proc and /dev, which are parameters.
use chod_os.Base.{
  ℕ, ◌+◌, ◌-◌, ◌^◌, Bool, true, false, not, ◌&&◌, ◌||◌, Option, none, some, List, [], ◌∷◌, ◌++◌,
  if◌then◌else◌, length, take, leb,
}
use mathlib.Core.Option
use chod_os.Base.Text.{codes}
use chod_os.Vfs.Path.{eq_str, parts_of, trim_end, root_path, slash}
use chod_os.Vfs.Tmpfs.{NodeRef}
use chod_os.Vfs.{
  Vfs, VfsNode, DirEntry, file, dir, lookup, node_at, put_node, create_file, mkdir, read_file,
}
use chod_os.Vfs.Attributes.{Stat, stat_path}

-- The file systems below and beside tmpfs, as they answer while a path is looked at.
pub record Mounts : Type 0 where
  pub ext4_read_file : List ℕ → Option (List ℕ)
  pub ext4_list_dir : List ℕ → List DirEntry
  pub ext4_exists : List ℕ → Bool
  pub is_proc : List ℕ → Bool
  pub proc_exists : List ℕ → Bool
  pub proc_read : List ℕ → Option (List ℕ)
  pub is_dev : List ℕ → Bool
  pub dev_is_dir : List ℕ → Bool
  pub dev_exists : List ℕ → Bool
  pub dev_stat : List ℕ → Option (ℕ × ℕ)

abbrev pub is_some : {A : Type 0} → Option A → Bool
is_some none = false
is_some (some a) = true

abbrev pub is_dir_node : VfsNode → Bool
is_dir_node (file f) = false
is_dir_node (dir children meta) = true

abbrev pub lists_nothing : List DirEntry → Bool
lists_nothing [] = true
lists_nothing (e ∷ es) = false

-- The directories above a path are made, from the root down, where they are missing.
unfoldable pub ensure_dirs : Vfs → List ℕ → List (List ℕ) → Vfs
ensure_dirs fs cur [] = fs
ensure_dirs fs cur (part ∷ parts) =
    let cur' = cur ++ slash ∷ part in
    let fs' = if is_some (lookup fs cur') then fs else (mkdir fs cur').1 in
    ensure_dirs fs' cur' parts

unfoldable pub ensure_parent_dirs : Vfs → List ℕ → Vfs
ensure_parent_dirs fs path =
    let parts = parts_of (trim_end path) in
    if leb (length parts) 1 then fs else ensure_dirs fs [] (take (length parts - 1) parts)

abbrev pub fill : List ℕ → VfsNode → VfsNode
fill bytes (file f) = file (record f { content = bytes })
fill bytes (dir children meta) = dir children meta

-- What `stat_any` reports as a directory of /proc.
abbrev pub proc_dirs : List (List ℕ)
proc_dirs =
    codes "/proc"
    ∷ codes "/proc/self"
    ∷ codes "/proc/self/fd"
    ∷ codes "/proc/sys"
    ∷ codes "/proc/sys/kernel"
    ∷ []

abbrev is_among : List (List ℕ) → List ℕ → Bool
is_among [] path = false
is_among (d ∷ ds) path = eq_str path d || is_among ds path

module _ (mounts : Mounts) where
  unfoldable pub copy_up : Vfs → List ℕ → Option NodeRef × Vfs
  copy_up fs path = elim (lookup fs path) [
    | some node ↦ (some node, fs)
    | none ↦ elim (mounts.ext4_read_file path) [
      | none ↦ (none, fs)
      | some bytes ↦
          let (made, fs') = create_file (ensure_parent_dirs fs path) path in
          elim made [
            | none ↦ (none, fs')
            | some node ↦ (some node, put_node fs' node (fill bytes (node_at fs' node)))
          ]
    ]
  ]

  unfoldable pub open_writable : Vfs → List ℕ → Bool → Option NodeRef × Vfs
  open_writable fs path o_creat = elim (lookup fs path) [
    | some node ↦ (some node, fs)
    | none ↦
        if mounts.ext4_exists path
        then copy_up fs path
        else (if o_creat then create_file (ensure_parent_dirs fs path) path else (none, fs))
  ]

  unfoldable pub open_readonly : Vfs → List ℕ → Option (List ℕ)
  open_readonly fs path = elim (read_file fs path) [
    | some bytes ↦ some bytes
    | none ↦ mounts.ext4_read_file path
  ]

  unfoldable pub is_dir : Vfs → List ℕ → Bool
  is_dir fs path =
      if eq_str path root_path
      then true
      else (if mounts.is_dev path then mounts.dev_is_dir path else elim (lookup fs path) [
        | some node ↦ is_dir_node (node_at fs node)
        | none ↦ not (lists_nothing (mounts.ext4_list_dir path))
      ])

  unfoldable pub exists_any : Vfs → List ℕ → Bool
  exists_any fs path =
      if eq_str path root_path
      then true
      else (if mounts.is_proc path
          then mounts.proc_exists path
          else (if mounts.is_dev path
              then mounts.dev_exists path
              else is_some (lookup fs path)
                || is_some (mounts.ext4_read_file path)
                || not (lists_nothing (mounts.ext4_list_dir path))))

  abbrev stat_below : List ℕ → Option Stat
  stat_below path = elim (mounts.ext4_read_file path) [
    | some bytes ↦
        some (record {
          ino = 0;
          mode = 2 ^ 15 + 420;
          uid = 0;
          gid = 0;
          nlink = 1;
          size = length bytes;
        })
    | none ↦
        if lists_nothing (mounts.ext4_list_dir path)
        then none
        else some (record { ino = 0; mode = 2 ^ 14 + 493; uid = 0; gid = 0; nlink = 2; size = 0 })
  ]

  abbrev stat_proc : List ℕ → Stat
  stat_proc path =
      let directory = is_among proc_dirs path in
      record {
        ino = 0;
        mode = if directory then 2 ^ 14 + 365 else 2 ^ 15 + 292;
        uid = 0;
        gid = 0;
        nlink = 1;
        size =
            if directory
            then 0
            else elim (mounts.proc_read path) [ none ↦ 0 | some bytes ↦ length bytes ];
      }

  abbrev stat_dev : ℕ × ℕ → Stat
  stat_dev (mode, size) = record { ino = 0; mode = mode; uid = 0; gid = 0; nlink = 1; size = size }

  unfoldable pub stat_any : Vfs → List ℕ → Option Stat
  stat_any fs path =
      if eq_str path root_path
      then some (record { ino = 1; mode = 2 ^ 14 + 493; uid = 0; gid = 0; nlink = 2; size = 0 })
      else (if mounts.is_dev path
          then Option.map stat_dev (mounts.dev_stat path)
          else (if mounts.is_proc path && mounts.proc_exists path
              then some (stat_proc path)
              else elim (stat_path fs path) [ some s ↦ some s | none ↦ stat_below path ]))
