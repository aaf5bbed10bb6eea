-- ===== src/Syscall/Fd/Tests.antt =====
-- A file with two bytes, open for writing twice, and one of three bytes opened to be read.
use chod_os.Base.{◌≡◌, refl, false, some, [], ◌∷◌, arith}
use chod_os.Syscall.Errno.{val, ebadf}
use chod_os.Process.Handle.{
  HandleTable, Capability, read, write, insert, get, find, put, covers, downcast,
}
use chod_os.Process.Handle
use chod_os.Process.Handle.Table.{new-IsValid}
use chod_os.Vfs.{FileNode, file, node_at, new_meta}
use chod_os.Syscall.Fd.{
  FileResource, Files, new_readonly, file_of, table_of, open_file, open_file_writable, read_fd,
  write_fd, pread,
}
use chod_os.Syscall.Fd.Access.{live, write_fd-pread, open_file-readonly}

abbrev text : FileNode
text = record { content = 104 ∷ 105 ∷ []; meta = new_meta 5 420 1 }

abbrev start : Files
start = record {
  table = some Handle.new;
  files = [];
  dirs = [];
  fs = record { nodes = file text ∷ []; root = some 0; ino_seq = 7 };
}

abbrev opened : Files
opened = (open_file_writable (open_file_writable start [] 0).1 [] 0).1

first : file_of opened 3 write ≡ some (0, live [] 0 0)
unfolding file_of get find put covers downcast insert Handle.new open_file_writable
first = refl

second : file_of opened 4 read ≡ some (1, live [] 0 0)
unfolding file_of get find put covers downcast insert Handle.new open_file_writable
second = refl

write_fd-pread_example :
    let (r, s') = write_fd opened 3 (1 ∷ 2 ∷ 3 ∷ []) in
    (r ≡ val 3) × (pread s' 4 3 0 ≡ some (1 ∷ 2 ∷ 3 ∷ []))
unfolding node_at open_file_writable
write_fd-pread_example =
    write_fd-pread opened 3 0 [] 0 0 text (1 ∷ 2 ∷ 3 ∷ []) 4 1 (live [] 0 0) first refl second refl
      (omega arith)

open_file-readonly_example :
    let (fd, s') = open_file start [] (7 ∷ 8 ∷ 9 ∷ []) false in
    (fd ≡ (table_of start).next_id)
    × ((read_fd s' fd 2).0 ≡ some (7 ∷ 8 ∷ []))
    × (write_fd s' fd (1 ∷ []) ≡ (ebadf, s'))
unfolding Handle.new
open_file-readonly_example =
    open_file-readonly start [] (7 ∷ 8 ∷ 9 ∷ []) 2 (1 ∷ []) new-IsValid (omega arith)

abbrev cached : FileResource
cached = new_readonly [] (7 ∷ 8 ∷ 9 ∷ [])
