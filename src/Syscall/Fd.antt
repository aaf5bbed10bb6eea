-- ===== src/Syscall/Fd.antt =====
-- syscall/fd.rs: open files and the table of their numbers. An open file is an entry of the list of
-- open files, and the capability in the handle table holds its number; the bytes that a read stores
-- in the user's buffer are returned.
pub mod Access
pub mod Seek
pub mod Tests
pub mod Transfer
use chod_os.Base.{
  ℕ, zero, suc, ◌+◌, ◌-◌, ◌^◌, Bool, true, false, not, Option, none, some, List, [], ◌∷◌, ◌++◌,
  if◌then◌else◌, ◌==◌, ltb, leb, length, get_elem?, set, take, drop, min,
}
use chod_os.Base.Words.{u64}
use chod_os.Syscall.Errno.{Result, val, ebadf, einval}
use chod_os.Process.Handle.{HandleTable, Capability, Object, Handle, read, write, insert, get}
use chod_os.Process.Handle
use chod_os.Vfs.{Vfs, VfsNode, FileNode, file, dir, lookup, create_file, node_at, put_node}
use chod_os.Vfs.Tmpfs.{NodeRef}
use chod_os.Vfs.Attributes.{resize, truncate_node}

-- `data` is `cache` here.
pub record FileResource : Type 0 where
  pub path : List ℕ
  pub vfs_node : Option NodeRef
  pub cache : List ℕ
  pub pos : ℕ
  pub writable : Bool

abbrev pub new_readonly : List ℕ → List ℕ → FileResource
new_readonly path bytes = record {
  path = path;
  vfs_node = none;
  cache = bytes;
  pos = 0;
  writable = false;
}

abbrev pub new_live : List ℕ → NodeRef → FileResource
new_live path node = record {
  path = path;
  vfs_node = some node;
  cache = [];
  pos = 0;
  writable = true;
}

-- The bytes that a file resource reads from; nothing if its node is a directory.
unfoldable pub source : Vfs → FileResource → List ℕ
source fs f = elim f.vfs_node [
  | none ↦ f.cache
  | some node ↦ elim (node_at fs node) [ file n ↦ n.content | dir children meta ↦ [] ]
]

-- `count.min(len.saturating_sub(pos))` bytes from `pos` on.
abbrev pub slice : List ℕ → ℕ → ℕ → List ℕ
slice bytes count pos = take (min count (length bytes - pos)) (drop pos bytes)

unfoldable pub read_resource : Vfs → FileResource → ℕ → List ℕ × FileResource
read_resource fs f count =
    let bytes = slice (source fs f) count f.pos in
    (bytes, record f { pos = u64 (f.pos + length bytes) })

unfoldable pub pread_resource : Vfs → FileResource → ℕ → ℕ → List ℕ
pread_resource fs f count offset = slice (source fs f) count offset

-- Contents shorter than `new_len` are made longer with zeros.
unfoldable pub grow : List ℕ → ℕ → List ℕ
grow content new_len = if ltb (length content) new_len then resize content new_len else content

-- The contents with `bytes` at `pos`, made longer with zeros where they are too short.
abbrev pub overwrite : List ℕ → ℕ → List ℕ → List ℕ
overwrite content pos bytes =
    let grown = grow content (u64 (pos + length bytes)) in
    take pos grown ++ (bytes ++ drop (pos + length bytes) grown)

unfoldable pub write_at : Vfs → FileResource → List ℕ → Result × (FileResource × Vfs)
write_at fs f bytes = if not f.writable then (ebadf, (f, fs)) else elim f.vfs_node [
  | none ↦ (ebadf, (f, fs))
  | some node ↦ elim (node_at fs node) [
    | dir children meta ↦ (ebadf, (f, fs))
    | file n ↦ (
      val (length bytes),
      (
        record f { pos = u64 (f.pos + length bytes) },
        put_node fs node (file (record n { content = overwrite n.content f.pos bytes })),
      ),
    )
  ]
]

unfoldable pub size : Vfs → FileResource → ℕ
size fs f = length (source fs f)

-- The offset and the positions are words of 64 bits with a sign.
unfoldable pub seek_resource : Vfs → FileResource → ℕ → ℕ → Result × FileResource
seek_resource fs f offset whence =
    let new_pos =
      if whence == 0
      then u64 offset
      else (if whence == 1 then u64 (f.pos + offset) else u64 (size fs f + offset)) in
    if ltb 2 whence
    then (einval, f)
    else (if leb (2 ^ 63) new_pos then (einval, f) else (val new_pos, record f { pos = new_pos }))

unfoldable pub truncate_resource : Vfs → FileResource → ℕ → Result × Vfs
truncate_resource fs f new_size = elim f.vfs_node [
  | none ↦ (einval, fs)
  | some node ↦ truncate_node fs node new_size
]

-- The table, the open files and directories that its capabilities name, and the file system.
pub record Files : Type 0 where
  pub table : Option HandleTable
  pub files : List FileResource
  pub dirs : List (List ℕ)
  pub fs : Vfs

-- The types that `downcast` tells apart.
abbrev pub file_resource : ℕ
file_resource = 1

abbrev pub dir_resource : ℕ
dir_resource = 2

abbrev pub capability : ℕ → ℕ → ℕ → Capability
capability kind id rights = record { object = record { kind = kind; id = id }; rights = rights }

-- `with_table`
abbrev pub table_of : Files → HandleTable
table_of s = elim s.table [ none ↦ Handle.new | some t ↦ t ]

unfoldable pub init : Files → Files
init s = record s { table = some Handle.new }

abbrev pub add_capability : Files → Capability → ℕ × Files
add_capability s cap = let (h, t) = insert (table_of s) cap in (h.id, record s { table = some t })

abbrev pub add_file : Files → FileResource → ℕ → ℕ × Files
add_file s f rights =
    add_capability (record s { files = s.files ++ f ∷ [] })
      (capability file_resource (length s.files) rights)

unfoldable pub open_file_writable : Files → List ℕ → NodeRef → ℕ × Files
open_file_writable s path node = add_file s (new_live path node) 3

unfoldable pub open_dir : Files → List ℕ → ℕ × Files
open_dir s path =
    add_capability (record s { dirs = s.dirs ++ path ∷ [] })
      (capability dir_resource (length s.dirs) read)

-- An empty file gets the bytes that the caller has.
abbrev pub initial : List ℕ → VfsNode → VfsNode
initial bytes (dir children meta) = dir children meta
initial bytes (file n) =
    file (record n { content = if length n.content == 0 then bytes else n.content })

-- `lookup`, or else `create_file`.
abbrev pub lookup_or_create : Vfs → List ℕ → Option NodeRef × Vfs
lookup_or_create fs path = elim (lookup fs path) [
  | some node ↦ (some node, fs)
  | none ↦ create_file fs path
]

unfoldable pub open_file : Files → List ℕ → List ℕ → Bool → ℕ × Files
unfolding open_file_writable
open_file s path bytes writable =
    let readonly = add_file s (new_readonly path bytes) read in
    let (made, fs) = lookup_or_create s.fs path in
    if not writable then readonly else elim made [
      | none ↦ add_file (record s { fs = fs }) (new_readonly path bytes) read
      | some node ↦
          open_file_writable (record s { fs = put_node fs node (initial bytes (node_at fs node)) })
            path node
    ]

-- The open file of a number, if the capability has the rights.
unfoldable pub file_of : Files → ℕ → ℕ → Option (ℕ × FileResource)
file_of s fd required = elim (get (table_of s) fd required file_resource) [
  | none ↦ none
  | some o ↦ elim (get_elem? s.files o.id) [ none ↦ none | some f ↦ some (o.id, f) ]
]

abbrev pub put_file : Files → ℕ → FileResource → Files
put_file s i f = record s { files = set s.files i f }

unfoldable pub read_fd : Files → ℕ → ℕ → Option (List ℕ) × Files
read_fd s fd count = elim (file_of s fd read) [
  | none ↦ (none, s)
  | some (i, f) ↦ let (bytes, f') = read_resource s.fs f count in (some bytes, put_file s i f')
]

unfoldable pub pread : Files → ℕ → ℕ → ℕ → Option (List ℕ)
pread s fd count offset = elim (file_of s fd read) [
  | none ↦ none
  | some (i, f) ↦ some (pread_resource s.fs f count offset)
]

unfoldable pub write_fd : Files → ℕ → List ℕ → Result × Files
write_fd s fd bytes = elim (file_of s fd write) [
  | none ↦ (ebadf, s)
  | some (i, f) ↦
      let (r, (f', fs)) = write_at s.fs f bytes in (r, record (put_file s i f') { fs = fs })
]

unfoldable pub truncate_fd : Files → ℕ → ℕ → Result × Files
truncate_fd s fd new_size = elim (file_of s fd write) [
  | none ↦ (einval, s)
  | some (i, f) ↦ let (r, fs) = truncate_resource s.fs f new_size in (r, record s { fs = fs })
]

unfoldable pub seek : Files → ℕ → ℕ → ℕ → Result × Files
seek s fd offset whence = elim (file_of s fd 0) [
  | none ↦ (ebadf, s)
  | some (i, f) ↦ let (r, f') = seek_resource s.fs f offset whence in (r, put_file s i f')
]

unfoldable pub close : Files → ℕ → Bool × Files
close s fd =
    let (was_open, t) = Handle.close (table_of s) fd in (was_open, record s { table = some t })

abbrev pub dir_of : Files → ℕ → Option (List ℕ)
dir_of s fd = elim (get (table_of s) fd 0 dir_resource) [
  | none ↦ none
  | some o ↦ get_elem? s.dirs o.id
]

unfoldable pub fstat : Files → ℕ → Option (ℕ × Bool)
fstat s fd = elim (file_of s fd 0) [
  | some (i, f) ↦ some (size s.fs f, false)
  | none ↦ elim (dir_of s fd) [ none ↦ none | some path ↦ some (0, true) ]
]

unfoldable pub dir_path : Files → ℕ → Option (List ℕ)
dir_path s fd = dir_of s fd

unfoldable pub file_path : Files → ℕ → Option (List ℕ)
file_path s fd = elim (file_of s fd 0) [ none ↦ none | some (i, f) ↦ some f.path ]

unfoldable pub is_open : Files → ℕ → Bool
is_open s fd = elim (file_of s fd 0) [
  | some (i, f) ↦ true
  | none ↦ elim (dir_of s fd) [ none ↦ false | some path ↦ true ]
]
