-- ===== src/Syscall/Fd/Seek.antt =====
-- `seek` of syscall/fd.rs.
use chod_os.Base.{ℕ, ◌+◌, ◌-◌, ◌^◌, Option, none, some, if◌then◌else◌, ◌==◌, ltb, leb}
use chod_os.Vfs.{Vfs}
use chod_os.Syscall.Fd.{FileResource, size}

-- Where a seek counts from: the start, the present position or the end of the file.
abbrev pub start_of : Vfs → FileResource → ℕ → ℕ
start_of fs f whence = if whence == 0 then 0 else (if whence == 1 then f.pos else size fs f)

-- The sum of a position and an offset that is read as a number with a sign: a place in the file, that is one
-- from 0 on that a signed word can hold, or none.
abbrev pub moved_by : ℕ → ℕ → Option ℕ
moved_by from offset =
    if ltb offset (2 ^ 63)
    then (if ltb (from + offset) (2 ^ 63) then some (from + offset) else none)
    else (if leb (2 ^ 64 - offset) from then some (from - (2 ^ 64 - offset)) else none)

abbrev pub asked_for : Vfs → FileResource → ℕ → ℕ → Option ℕ
asked_for fs f offset whence = if ltb whence 3 then moved_by (start_of fs f whence) offset else none
