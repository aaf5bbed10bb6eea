-- ===== src/Process/Handle/Tests.antt =====
-- A table with one readable and writable object.
use chod_os.Base.{◌≡◌, refl, none, some, arith}
use chod_os.Process.Handle.{Capability, HandleTable, insert, get, new, covers, downcast, find, put}
use chod_os.Process.Handle.Table.{IsValid, insert-get, new-IsValid}

abbrev file : Capability
file = record { object = record { kind = 7; id = 42 }; rights = 3 }

abbrev one : HandleTable
one = (insert new file).1

one-IsValid : IsValid one
unfolding new
one-IsValid = (insert-get new file 3 1 7 new-IsValid (omega arith)).0

-- Handle 3 may be read as its type, not executed, and not read as another type.
one-get : (get one 3 1 7 ≡ some file.object) × (get one 3 4 7 ≡ none) × (get one 3 1 8 ≡ none)
unfolding insert get new find put covers downcast
one-get = (refl, refl, refl)
