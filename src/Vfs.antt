-- ===== src/Vfs.antt =====
-- vfs/mod.rs: the tree of tmpfs. A node is an entry of the list of nodes, and an `Arc` of it is its
-- number, so that two names with one number are one file. A node that no name leads to stays in the
-- list; the lock of a node is held for one step at a time and left out.
pub mod Attributes
pub mod Change
pub mod Create
pub mod Files
pub mod Init
pub mod Link
pub mod Overlay
pub mod Path
pub mod Remove
pub mod Rename
pub mod Tests
pub mod Tmpfs
pub mod Valid
pub mod Walk
use chod_os.Base.{
  ℕ, zero, suc, ◌+◌, ◌-◌, ◌^◌, Bool, true, false, not, ◌&&◌, Option, none, some, List, [], ◌∷◌,
  ◌++◌, map, if◌then◌else◌, ◌==◌, length, get_or, set, take, replicate, bit_and, bit_or,
}
use chod_os.Base.Words.{u32, u64}
use chod_os.Syscall.Errno.{Result, val, err, enoent, eisdir, einval, enotempty}
use chod_os.Vfs.Path.{eq_str, parts_of, split_parent, root_path}
use chod_os.Vfs.Tmpfs.{NodeRef, Children, find, put, without, has_none}

pub record VfsMeta : Type 0 where
  pub ino : ℕ
  pub mode : ℕ
  pub uid : ℕ
  pub gid : ℕ
  pub nlink : ℕ

pub record FileNode : Type 0 where
  pub content : List ℕ
  pub meta : VfsMeta

pub data VfsNode : Type 0 where
  file : FileNode → VfsNode
  dir : Children → VfsMeta → VfsNode

pub record DirEntry : Type 0 where
  pub name : List ℕ
  pub is_dir : Bool
  pub size : ℕ

pub record Vfs : Type 0 where
  pub nodes : List VfsNode
  pub root : Option NodeRef
  pub ino_seq : ℕ

abbrev pub new_meta : ℕ → ℕ → ℕ → VfsMeta
new_meta ino mode nlink = record { ino = ino; mode = mode; uid = 0; gid = 0; nlink = nlink }

-- 0o644 and 0o755.
abbrev pub new_file : ℕ → VfsNode
new_file ino = file (record { content = []; meta = new_meta ino 420 1 })

abbrev pub new_dir : ℕ → VfsNode
new_dir ino = dir [] (new_meta ino 493 2)

abbrev nowhere : VfsNode
nowhere = dir [] (new_meta 0 0 0)

unfoldable pub node_at : Vfs → NodeRef → VfsNode
node_at fs r = get_or fs.nodes r nowhere

unfoldable pub put_node : Vfs → NodeRef → VfsNode → Vfs
put_node fs r n = record fs { nodes = set fs.nodes r n }

-- The name looked up in a node: `none` in a file.
unfoldable pub child : VfsNode → List ℕ → Option NodeRef
child (file f) name = none
child (dir children meta) name = find children name

unfoldable pub walk : Vfs → NodeRef → List (List ℕ) → Option NodeRef
walk fs current [] = some current
walk fs current (part ∷ parts) = elim (child (node_at fs current) part) [
  | none ↦ none
  | some next ↦ walk fs next parts
]

unfoldable pub lookup : Vfs → List ℕ → Option NodeRef
lookup fs path = elim fs.root [
  | none ↦ none
  | some root ↦ if eq_str path root_path then some root else walk fs root (parts_of path)
]

-- `or_insert_with` of a new node in the directory `parent`.
unfoldable pub add_node :
    Vfs → NodeRef → Children → VfsMeta → List ℕ → (ℕ → VfsNode) → NodeRef × Vfs
add_node fs parent children meta name new = elim (find children name) [
  | some node ↦ (node, fs)
  | none ↦
      let node = length fs.nodes in
      (
        node,
        record fs {
          nodes =
              set (fs.nodes ++ (new fs.ino_seq ∷ [])) parent (dir (put children name node) meta);
          ino_seq = u64 (fs.ino_seq + 1);
        },
      )
]

-- `create_file` and `mkdir` differ in the node they add.
unfoldable pub create : (ℕ → VfsNode) → Vfs → List ℕ → Option NodeRef × Vfs
create new fs path = elim (split_parent path) [
  | none ↦ (none, fs)
  | some (parent_path, name) ↦ elim (lookup fs parent_path) [
    | none ↦ (none, fs)
    | some parent ↦ elim (node_at fs parent) [
      | file f ↦ (none, fs)
      | dir children meta ↦
          let (node, fs') = add_node fs parent children meta name new in (some node, fs')
    ]
  ]
]

unfoldable pub create_file : Vfs → List ℕ → Option NodeRef × Vfs
create_file = create new_file

unfoldable pub mkdir : Vfs → List ℕ → Option NodeRef × Vfs
mkdir = create new_dir

abbrev pub content_of : VfsNode → Option (List ℕ)
content_of (file f) = some f.content
content_of (dir children meta) = none

unfoldable pub read_file : Vfs → List ℕ → Option (List ℕ)
read_file fs path = elim (lookup fs path) [ none ↦ none | some node ↦ content_of (node_at fs node) ]

-- A change of the bytes of the file at a path.
unfoldable pub edit_file : (List ℕ → List ℕ) → Vfs → List ℕ → Bool × Vfs
edit_file change fs path = elim (lookup fs path) [
  | none ↦ (false, fs)
  | some node ↦ elim (node_at fs node) [
    | dir children meta ↦ (false, fs)
    | file f ↦ (true, put_node fs node (file (record f { content = change f.content })))
  ]
]

unfoldable pub write_file : Vfs → List ℕ → List ℕ → Bool × Vfs
write_file fs path bytes = edit_file (λ old. bytes) fs path

unfoldable pub append_file : Vfs → List ℕ → List ℕ → Bool × Vfs
append_file fs path bytes = edit_file (λ old. old ++ bytes) fs path

abbrev pub entry_of : Vfs → List ℕ × NodeRef → DirEntry
entry_of fs (name, node) = elim (node_at fs node) [
  | file f ↦ record { name = name; is_dir = false; size = length f.content }
  | dir children meta ↦ record { name = name; is_dir = true; size = 0 }
]

unfoldable pub list_dir : Vfs → List ℕ → List DirEntry
list_dir fs path = elim (lookup fs path) [
  | none ↦ []
  | some node ↦ elim (node_at fs node) [
    | file f ↦ []
    | dir children meta ↦ map (entry_of fs) children
  ]
]

-- What `remove_entry` makes of the node that it is to remove: an error, or none.
abbrev pub refusal : VfsNode → Bool → Option Result
refusal (file f) allow_dir = none
refusal (dir children meta) allow_dir =
    if not allow_dir
    then some eisdir
    else (if not (has_none children) then some enotempty else none)

-- `remove_entry` once the parent is found.
unfoldable pub remove_at : Vfs → NodeRef → List ℕ → Bool → Result × Vfs
remove_at fs parent name allow_dir = elim (node_at fs parent) [
  | file f ↦ (enoent, fs)
  | dir children meta ↦ elim (find children name) [
    | none ↦ (enoent, fs)
    | some target ↦ elim (refusal (node_at fs target) allow_dir) [
      | some e ↦ (e, fs)
      | none ↦ (val 0, put_node fs parent (dir (without children name) meta))
    ]
  ]
]

unfoldable pub remove_entry : Vfs → List ℕ → Bool → Result × Vfs
remove_entry fs path allow_dir = elim (split_parent path) [
  | none ↦ (einval, fs)
  | some (parent_path, name) ↦ elim (lookup fs parent_path) [
    | none ↦ (enoent, fs)
    | some parent ↦ remove_at fs parent name allow_dir
  ]
]

-- `rename` once both parents are found: within one directory, and between two.
unfoldable pub rename_within : Vfs → NodeRef → List ℕ → List ℕ → Result × Vfs
rename_within fs parent old_name new_name = elim (node_at fs parent) [
  | file f ↦ (enoent, fs)
  | dir children meta ↦ elim (find children old_name) [
    | none ↦ (enoent, fs)
    | some node ↦
        (val 0, put_node fs parent (dir (put (without children old_name) new_name node) meta))
  ]
]

unfoldable pub insert_at : Vfs → NodeRef → List ℕ → NodeRef → Result × Vfs
insert_at fs parent name node = elim (node_at fs parent) [
  | file f ↦ (enoent, fs)
  | dir children meta ↦ (val 0, put_node fs parent (dir (put children name node) meta))
]

unfoldable pub rename_across : Vfs → NodeRef → List ℕ → NodeRef → List ℕ → Result × Vfs
rename_across fs old_parent old_name new_parent new_name = elim (node_at fs old_parent) [
  | file f ↦ (enoent, fs)
  | dir children meta ↦ elim (find children old_name) [
    | none ↦ (enoent, fs)
    | some node ↦
        insert_at (put_node fs old_parent (dir (without children old_name) meta)) new_parent
          new_name node
  ]
]

unfoldable pub rename : Vfs → List ℕ → List ℕ → Result × Vfs
rename fs old_path new_path = elim (split_parent old_path) [
  | none ↦ (einval, fs)
  | some (old_parent_path, old_name) ↦ elim (split_parent new_path) [
    | none ↦ (einval, fs)
    | some (new_parent_path, new_name) ↦ elim (lookup fs old_parent_path) [
      | none ↦ (enoent, fs)
      | some old_parent ↦ elim (lookup fs new_parent_path) [
        | none ↦ (enoent, fs)
        | some new_parent ↦
            if old_parent == new_parent
            then rename_within fs old_parent old_name new_name
            else rename_across fs old_parent old_name new_parent new_name
      ]
    ]
  ]
]
