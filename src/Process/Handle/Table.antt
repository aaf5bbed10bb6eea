-- ===== src/Process/Handle/Table.antt =====
-- The table of process/handle.rs as a map from handles to capabilities.
use chod_os.Base.{
  ℕ, ◌+◌, ◌^◌, ◌<◌, ◌≤◌, ◌≡◌, refl, true, false, none, some, List, [], ◌∷◌, arith, All,
  if◌then◌else◌, ◌==◌, ltb, ℕ_discrete, ltb→lt, ==_iff, Bool-cases, inl, inr, subst,
}
use chod_os.Base.Words.{u32}
use chod_os.Process.Handle.{
  Capability, HandleTable, covers, downcast, find, put, without, insert, get, has, close, new,
}

-- Every handle is older than the next number, and the keys ascend.
abbrev pub Below : ℕ → ℕ × Capability → Type 0
Below n e = e.0 < n

pub Ascending : List (ℕ × Capability) → Type 0
Ascending [] = Unit
Ascending (e ∷ es) = All (λ (f : ℕ × Capability). e.0 < f.0) es × Ascending es

pub record IsValid (t : HandleTable) : Type 0 where
  pub older : All (Below t.next_id) t.table
  pub ascending : Ascending t.table

find-put :
    (t : List (ℕ × Capability)) (id : ℕ) (cap : Capability) (g : ℕ)
    → find (put t id cap) g ≡ (if id == g then some cap else find t g)
unfolding find put
find-put [] id cap g = refl
find-put ((k, old) ∷ t) id cap g = ground (arith, find-put t id cap g)

find_above :
    (t : List (ℕ × Capability)) (k g : ℕ)
    → All (λ (f : ℕ × Capability). k < f.0) t
    → g ≤ k
    → find t g ≡ none
unfolding find
find_above [] k g above h = refl
find_above ((j, cap) ∷ t) k g (p, above) h = ground (arith, find_above t k g above h)

find-Below : (t : List (ℕ × Capability)) (n g : ℕ) → All (Below n) t → n ≤ g → find t g ≡ none
unfolding find
find-Below [] n g below h = refl
find-Below ((j, cap) ∷ t) n g (p, below) h = ground (arith, find-Below t n g below h)

find-without :
    (t : List (ℕ × Capability)) (id g : ℕ)
    → Ascending t
    → find (without t id) g ≡ (if id == g then none else find t g)
unfolding find without Ascending
find-without [] id g asc = ground arith
find-without ((k, cap) ∷ t) id g (above, asc) =
    ground (arith, find-without t id g asc, find_above t k g above)

module _ (P : ℕ × Capability → Type 0) where
  All-put :
      (t : List (ℕ × Capability)) (id : ℕ) (cap : Capability)
      → P (id, cap)
      → All P t
      → All P (put t id cap)
  unfolding put
  All-put [] id cap p ps = (p, tt)
  All-put ((k, old) ∷ t) id cap p (q, ps) = elim (Bool-cases (ltb id k)) [
    | inl before ↦ rw (before, put) (p, (q, ps))
    | inr after ↦ elim (Bool-cases (k == id)) [
      | inl same ↦ rw (after, same, put) (p, ps)
      | inr apart ↦ rw (after, apart, put) (q, All-put t id cap p ps)
    ]
  ]

  All-without : (t : List (ℕ × Capability)) (id : ℕ) → All P t → All P (without t id)
  unfolding without
  All-without [] id ps = tt
  All-without ((k, cap) ∷ t) id (q, ps) = elim (Bool-cases (k == id)) [
    | inl same ↦ rw (same, without) ps
    | inr apart ↦ rw (apart, without) (q, All-without t id ps)
  ]

All-weaken :
    (j k : ℕ) (t : List (ℕ × Capability))
    → j < k
    → All (λ (f : ℕ × Capability). k < f.0) t
    → All (λ (f : ℕ × Capability). j < f.0) t
All-weaken j k [] h above = tt
All-weaken j k ((i, cap) ∷ t) h (p, above) = (omega arith, All-weaken j k t h above)

Below-suc : (t : List (ℕ × Capability)) (n : ℕ) → All (Below n) t → All (Below (n + 1)) t
Below-suc [] n below = tt
Below-suc ((k, cap) ∷ t) n (p, below) = (omega arith, Below-suc t n below)

Ascending-put :
    (t : List (ℕ × Capability)) (id : ℕ) (cap : Capability) → Ascending t → Ascending (put t id cap)
unfolding put Ascending
Ascending-put [] id cap asc = (tt, tt)
Ascending-put ((k, old) ∷ t) id cap (above, asc) = elim (Bool-cases (ltb id k)) [
  | inl before ↦
      let less = ltb→lt id k before in
      rw (before, put) ((less, All-weaken id k t less above), (above, asc))
  | inr after ↦ elim (ℕ_discrete k id) [
    | yes same ↦
        let hit : (k == id) ≡ true = (==_iff k id).1 same in
        rw (after, hit, put)
          (subst (λ (j : ℕ). All (λ (f : ℕ × Capability). j < f.0) t) same above, asc)
    | no apart ↦
        let miss : (k == id) ≡ false = ground (arith, apart) in
        rw (after, miss, put)
          (
            All-put (λ (f : ℕ × Capability). k < f.0) t id cap (ground (arith, after, apart)) above,
            Ascending-put t id cap asc,
          )
  ]
]

Ascending-without : (t : List (ℕ × Capability)) (id : ℕ) → Ascending t → Ascending (without t id)
unfolding without Ascending
Ascending-without [] id asc = tt
Ascending-without ((k, cap) ∷ t) id (above, asc) = elim (Bool-cases (k == id)) [
  | inl same ↦ rw (same, without) asc
  | inr apart ↦
      rw (apart, without)
        (All-without (λ (f : ℕ × Capability). k < f.0) t id above, Ascending-without t id asc)
]

-- Storing a capability in a valid table keeps it valid and gives a handle that was not in use. A later
-- request at that handle is granted if the capability has the rights required and its object the
-- type expected, and then yields the object; at every other handle the answer is what it was. The
-- 32-bit number of the next handle must not overflow.
pub insert-get :
    (t : HandleTable) (cap : Capability) (g required kind : ℕ)
    → IsValid t
    → t.next_id + 1 < 2 ^ 32
    → let (h, t') = insert t cap in
      IsValid t'
      × (has t h.id ≡ false)
      × (get t' g required kind ≡ (
          if h.id == g
          then (if covers cap.rights required then downcast cap kind else none)
          else get t g required kind))
unfolding insert has get
insert-get t cap g required kind v fits = (
  record {
    older =
        subst (λ n. All (Below n) (put t.table t.next_id cap)) {x = t.next_id + 1}
          {y = u32 (t.next_id + 1)} (omega arith)
          (All-put (Below (t.next_id + 1)) t.table t.next_id cap (omega arith)
            (Below-suc t.table t.next_id v.older));
    ascending = Ascending-put t.table t.next_id cap v.ascending;
  },
  rw (find-Below t.table t.next_id t.next_id v.older (omega arith), has) refl,
  ground (arith, find-put t.table t.next_id cap g),
)

-- Closing a handle of a valid table keeps it valid, says whether the handle was open, makes every
-- request at it fail, and changes the answer at no other handle.
pub close-get :
    (t : HandleTable) (id g required kind : ℕ)
    → IsValid t
    → let (was_open, t') = close t id in
      IsValid t'
      × (was_open ≡ has t id)
      × (has t' id ≡ false)
      × (get t' g required kind ≡ (if id == g then none else get t g required kind))
unfolding close has get
close-get t id g required kind v = (
  record {
    older = All-without (Below t.next_id) t.table id v.older;
    ascending = Ascending-without t.table id v.ascending;
  },
  refl,
  ground (arith, find-without t.table id id v.ascending),
  ground (arith, find-without t.table id g v.ascending),
)

-- A new table is valid.
pub new-IsValid : IsValid new
unfolding new Ascending
new-IsValid = record { older = tt; ascending = tt }
