-- ===== src/Paging/Tree.antt =====
-- The shape of the tables below a root, in which no table stands at two places.
use chod_os.Base.{
  ◌*◌, ◌/◌, ◌%◌, ◌+◌, ◌≤◌, ap, ◌⊎◌, ℕ_discrete, dec_lt, ℕ, ◌+◌, ◌/◌, ◌%◌, ◌≡◌, ◌<◌, refl, true,
  false, ◌&&◌, Option, none, some, List, [], ◌∷◌, arith, ◌==◌, ltb, length, inl, inr, All,
  Bool-cases,
}
use chod_os.Base.Cells.{Memory}
use chod_os.Memory.Frame.{is_free}
use chod_os.Memory.Frame.Count.{IsValid}
use chod_os.Paging.{Machine, entry, present, huge, page_of}
use chod_os.Paging.Walk.{walk, ends}

-- `owner` says where a table stands: the indices that lead to it from the root, the last one first.
pub record IsTree (m : Machine) (root : ℕ) (owner : ℕ → Option (List ℕ)) : Type 0 where
  pub valid : IsValid m.frames
  pub top : owner root ≡ some []
  pub aligned : (t : ℕ) (p : List ℕ) → owner t ≡ some p → t % 4096 ≡ 0
  pub used : (t : ℕ) (p : List ℕ) → owner t ≡ some p → is_free m.frames.bitmap (t / 4096) ≡ false
  pub child :
      (t : ℕ) (p : List ℕ) (i : ℕ)
      → owner t ≡ some p
      → length p < 3
      → i < 512
      → present (entry m.mem t i) ≡ true
      → huge (entry m.mem t i) && ltb 0 (length p) ≡ false
      → owner (page_of (entry m.mem t i)) ≡ some (i ∷ p)

-- A byte of a page that is no table is in no entry.
pub outside_tables :
    {m : Machine} {root : ℕ} {owner : ℕ → Option (List ℕ)}
    → IsTree m root owner
    → (t i q : ℕ) (p : List ℕ) → owner t ≡ some p
    → i < 512
    → owner (page_of q) ≡ none
    → (q < t + 8 * i) ⊎ (t + 8 * i + 8 ≤ q)
outside_tables {m} {root} {owner} tree t i q p own less out = elim (ℕ_discrete (page_of q) t) [
  | yes e ↦ absurd (cc (out, own, ap owner e))
  | no ne ↦ elim (dec_lt q (t + 8 * i)) [
    | yes l ↦ inl l
    | no l ↦ inr (omega (arith, l, ne, tree.aligned t p own, less))
  ]
]

abbrev pub AreIndices : List ℕ → Type 0
AreIndices is = All (λ i. i < 512) is

module _ (mem : Memory) (t i : ℕ) (is : List ℕ) where
  pub walk-absent : present (entry mem t i) ≡ false → walk mem t (i ∷ is) ≡ none
  unfolding walk
  walk-absent h = rw h refl

  pub walk-end :
      present (entry mem t i) ≡ true
      → ends is (entry mem t i) ≡ true
      → walk mem t (i ∷ is) ≡ some (entry mem t i, length is)
  unfolding walk
  walk-end h k = rw (h, k) refl

  pub walk-next :
      present (entry mem t i) ≡ true
      → ends is (entry mem t i) ≡ false
      → walk mem t (i ∷ is) ≡ walk mem (page_of (entry mem t i)) is
  unfolding walk
  walk-next h k = rw (h, k) refl

-- Below the last table nothing is left to look up.
pub ends-not :
    (p is : List ℕ) (e i : ℕ)
    → length p + length (i ∷ is) ≡ 4
    → ends is e ≡ false
    → (length p < 3) × (huge e && ltb 0 (length p) ≡ false)
ends-not p is e i h k = (ground (arith, h, k), ground (arith, h, k))

pub not-ends :
    (p is : List ℕ) (e i : ℕ)
    → length p + length (i ∷ is) ≡ 4
    → length p < 3
    → huge e && ltb 0 (length p) ≡ false
    → ends is e ≡ false
not-ends p is e i h l k = ground (arith, h, l, k)

-- The indices from the root on, the last one first.
abbrev pub onto : List ℕ → List ℕ → List ℕ
onto [] p = p
onto (i ∷ is) p = onto is (i ∷ p)

-- Two memories in which the tables of a tree hold the same entries, but for one entry `i` of a table `tb`,
-- where a walk along `full` is known to be the same.
module _ (m : Machine) (mem' : Memory) (root : ℕ) (owner : ℕ → Option (List ℕ))
    (tree : IsTree m root owner) (tb i : ℕ) (full : List ℕ)
    (same : (t j : ℕ) (p : List ℕ)
      → owner t ≡ some p
      → j < 512
      → (tb == t) && (i == j) ≡ false
      → entry mem' t j ≡ entry m.mem t j)
    (there : (t j : ℕ) (p is : List ℕ)
      → (tb == t) && (i == j) ≡ true
      → owner t ≡ some p
      → length p + length (j ∷ is) ≡ 4
      → AreIndices is
      → onto is (j ∷ p) ≡ full
      → walk mem' t (j ∷ is) ≡ walk m.mem t (j ∷ is)) where
  pub walk_eq :
      (t : ℕ) (p is : List ℕ)
      → owner t ≡ some p
      → length p + length is ≡ 4
      → AreIndices is
      → onto is p ≡ full
      → walk mem' t is ≡ walk m.mem t is
  unfolding walk
  walk_eq t p [] own size below path = refl
  walk_eq t p (j ∷ is) own size (less, rest) path =
      let e = entry m.mem t j in
      elim (Bool-cases ((tb == t) && (i == j))) [
        | inl hit ↦ there t j p is hit own size rest path
        | inr miss ↦
            let e-same : entry mem' t j ≡ e = same t j p own less miss in
            elim (Bool-cases (present e)) [
              | inr absent ↦ rw (e-same, absent) refl
              | inl here ↦ elim (Bool-cases (ends is e)) [
                | inl done ↦ rw (e-same, here, done) refl
                | inr more ↦
                    let (short, small) = ends-not p is e j size more in
                    rw (e-same, here, more)
                      (walk_eq (page_of e) (j ∷ p) is (tree.child t p j own short less here small)
                        (omega (arith, size)) rest path)
              ]
            ]
      ]
