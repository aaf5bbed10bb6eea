-- ===== src/Process/Handle.antt =====
-- process/handle.rs: capabilities with rights, and the table of a process's handles. An `Arc` is its
-- object's number and its type's number; `downcast` compares the type.
pub mod Rights
pub mod Table
pub mod Tests
use chod_os.Base.{
  ℕ, zero, suc, ◌+◌, ◌≡◌, Bool, true, false, not, Option, none, some, List, [], ◌∷◌, if◌then◌else◌,
  ◌==◌, ltb, bit_and, bit_or, length, map,
}
use chod_os.Base.Words.{u32}

abbrev pub read : ℕ
read = 1

abbrev pub write : ℕ
write = 2

abbrev pub exec : ℕ
exec = 4

abbrev pub grant : ℕ
grant = 8

abbrev pub all : ℕ
all = 15

-- `Rights::contains`
unfoldable pub covers : ℕ → ℕ → Bool
covers rights other = bit_and rights other == other

pub record Object : Type 0 where
  pub kind : ℕ
  pub id : ℕ

-- `Capability<T>` and `RawCapability`, which differ in what the type says of the object.
pub record Capability : Type 0 where
  pub object : Object
  pub rights : ℕ

unfoldable pub restrict : Capability → ℕ → Capability
restrict cap mask = record cap { rights = bit_and cap.rights mask }

unfoldable pub downcast : Capability → ℕ → Option Object
downcast cap kind = if cap.object.kind == kind then some cap.object else none

pub record Handle : Type 0 where
  pub id : ℕ
  pub rights : ℕ

-- The map is a list of keys and values in ascending order.
pub record HandleTable : Type 0 where
  pub table : List (ℕ × Capability)
  pub next_id : ℕ

unfoldable pub new : HandleTable
new = record { table = []; next_id = 3 }

-- `BTreeMap::get`, `insert` and `remove`.
unfoldable pub find : List (ℕ × Capability) → ℕ → Option Capability
find [] id = none
find ((k, cap) ∷ t) id = let later = find t id in if k == id then some cap else later

unfoldable pub put : List (ℕ × Capability) → ℕ → Capability → List (ℕ × Capability)
put [] id cap = (id, cap) ∷ []
put ((k, old) ∷ t) id cap =
    let later = (k, old) ∷ put t id cap in
    if ltb id k then (id, cap) ∷ (k, old) ∷ t else (if k == id then (id, cap) ∷ t else later)

unfoldable pub without : List (ℕ × Capability) → ℕ → List (ℕ × Capability)
without [] id = []
without ((k, cap) ∷ t) id = let later = (k, cap) ∷ without t id in if k == id then t else later

unfoldable pub insert : HandleTable → Capability → Handle × HandleTable
insert t cap = (
  record { id = t.next_id; rights = cap.rights },
  record { table = put t.table t.next_id cap; next_id = u32 (t.next_id + 1) },
)

unfoldable pub get : HandleTable → ℕ → ℕ → ℕ → Option Object
get t id required kind = elim (find t.table id) [
  | none ↦ none
  | some raw ↦ if not (covers raw.rights required) then none else downcast raw kind
]

unfoldable pub has : HandleTable → ℕ → Bool
has t id = elim (find t.table id) [ none ↦ false | some raw ↦ true ]

unfoldable pub rights_of : HandleTable → ℕ → Option ℕ
rights_of t id = elim (find t.table id) [ none ↦ none | some raw ↦ some raw.rights ]

unfoldable pub close : HandleTable → ℕ → Bool × HandleTable
close t id = (has t id, record t { table = without t.table id })

unfoldable pub len : HandleTable → ℕ
len t = length t.table

unfoldable pub list : HandleTable → List (ℕ × ℕ)
list t = map (λ (e : ℕ × Capability). (e.0, e.1.rights)) t.table
