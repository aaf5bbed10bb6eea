-- ===== src/Process/Vma/Insert.antt =====
-- Registering a region in the table of process/vma.rs.
use chod_os.Base.{
  ℕ, zero, suc, ◌+◌, ◌*◌, ◌^◌, ◌≤◌, ◌<◌, ◌≡◌, ◌≢◌, refl, ap, ◌∙◌, Bool, true, false, ◌&&◌, none,
  some, List, [], ◌∷◌, arith, ◌==◌, ltb, lt→ltb, length, length-set, get_or-set_ne, get_or, set,
  Bool-cases, inl, inr, ◌⊎◌, All, dec_lt,
}
use chod_os.Process.Vma.{
  VmaEntry, empty, first_free, insert_slot, find_base, remainder, insert, holds,
}
use chod_os.Process.Vma.Coverage.{covered, covered-set, covered-set_self}

first_free_cases :
    (t : List VmaEntry) (i : ℕ)
    → ((first_free t i ≡ none) × ((j : ℕ) → j < length t → (get_or t j empty).valid ≡ true))
      ⊎ ((j : ℕ) × (first_free t i ≡ some (i + j))
          × (j < length t)
          × ((get_or t j empty).valid ≡ false))
unfolding first_free
first_free_cases [] i = inl (refl, λ j p. absurd (omega arith))
first_free_cases (e ∷ es) i = elim (Bool-cases e.valid) [
  | inr free ↦
      inr (0, rw (free, first_free) (ap (λ (k : ℕ). some k) (omega arith)), omega arith, free)
  | inl used ↦ elim (first_free_cases es (i + 1)) [
    | inl (missing, full) ↦ inl (rw (used, first_free) missing, all_used used full)
    | inr (j, found, p, free) ↦ inr (
      suc j,
      rw (used, first_free) (found ∙ ap (λ (k : ℕ). some k) (omega arith)),
      omega arith,
      free,
    )
  ]
]
  where
    all_used :
        e.valid ≡ true
        → ((j : ℕ) → j < length es → (get_or es j empty).valid ≡ true)
        → (j : ℕ) → j < suc (length es)
        → (get_or (e ∷ es) j empty).valid ≡ true
    all_used used full zero p = used
    all_used used full (suc j) p = full j (omega arith)

find_base_cases :
    (t : List VmaEntry) (base i : ℕ)
    → (find_base t base i ≡ none)
      ⊎ ((j : ℕ) × (find_base t base i ≡ some (i + j))
          × (j < length t)
          × ((get_or t j empty).valid ≡ true)
          × ((get_or t j empty).base ≡ base))
unfolding find_base
find_base_cases [] base i = inl refl
find_base_cases (e ∷ es) base i = elim (Bool-cases (e.valid && (e.base == base))) [
  | inl here ↦ inr (
    0,
    rw (here, find_base) (ap (λ (k : ℕ). some k) (omega arith)),
    omega arith,
    ground (arith, here),
    ground (arith, here),
  )
  | inr there ↦ elim (find_base_cases es base (i + 1)) [
    | inl missing ↦ inl (rw (there, find_base) missing)
    | inr (j, found, p, used, same) ↦ inr (
      suc j,
      rw (there, find_base) (found ∙ ap (λ (k : ℕ). some k) (omega arith)),
      omega arith,
      used,
      same,
    )
  ]
]

insert_slot-covered :
    (t : List VmaEntry) (f : ℕ) (e : VmaEntry) (v : ℕ)
    → f < length t
    → (get_or t f empty).valid ≡ false
    → (covered t v ≡ true) ⊎ (holds e v ≡ true)
    → covered (insert_slot t e) v ≡ true
unfolding insert_slot
insert_slot-covered t f e v h free one = elim (first_free_cases t 0) [
  | inl (missing, full) ↦ absurd (ground (arith, free, full f h))
  | inr (j, found, p, free') ↦
      let at_j : first_free t 0 ≡ some j = found ∙ ap (λ (k : ℕ). some k) (omega arith) in
      rw (at_j, insert_slot)
        (elim one [
          | inl before ↦ covered-set t j e v p before (inl (ground (arith, free')))
          | inr held ↦ covered-set_self t j e v p held
        ])
]

abbrev pub Fits : VmaEntry → Type 0
Fits e = e.base + e.pages * 4096 < 2 ^ 64

All-get : (t : List VmaEntry) (i : ℕ) → All Fits t → i < length t → Fits (get_or t i empty)
All-get [] i fits h = absurd (omega arith)
All-get (e ∷ es) zero (p, fits) h = p
All-get (e ∷ es) (suc i) (p, fits) h = All-get es i fits (omega arith)

abbrev entry_of : ℕ → ℕ → ℕ → Bool → VmaEntry
entry_of base pages prot lazy = record {
  base = base;
  pages = pages;
  prot = prot;
  lazy = lazy;
  valid = true;
}

-- An address of the old entry is in the new one or in what is kept of the old.
split_lem :
    (e : VmaEntry) (base pages prot : ℕ) (lazy : Bool) (v : ℕ)
    → e.base ≡ base
    → Fits e
    → holds e v ≡ true
    → pages < e.pages
    → (holds (entry_of base pages prot lazy) v ≡ true) ⊎ (holds (remainder e base pages) v ≡ true)
split_lem e base pages prot lazy v same fits held less = elim (dec_lt v (base + pages * 4096)) [
  | yes low ↦ inl (ground (arith, held))
  | no high ↦ inr (ground (arith, held))
]

-- A region that covers at least as much holds what the old one held.
wider_lem :
    (e : VmaEntry) (base pages prot : ℕ) (lazy : Bool) (v : ℕ)
    → e.base ≡ base
    → Fits e
    → base + pages * 4096 < 2 ^ 64
    → holds e v ≡ true
    → e.pages ≤ pages
    → holds (entry_of base pages prot lazy) v ≡ true
wider_lem e base pages prot lazy v same fits fits' held more = ground (arith, held)

-- Putting the new region in the place of entry `i` at the same base, with what is kept of that entry.
module _ (t : List VmaEntry) (base pages prot : ℕ) (lazy : Bool) (i v : ℕ) where
  replaced : List VmaEntry
  replaced = set t i (entry_of base pages prot lazy)

  shrunk-covered :
      (f : ℕ)
      → All Fits t
      → f < length t
      → (get_or t f empty).valid ≡ false
      → i < length t
      → (get_or t i empty).valid ≡ true
      → (get_or t i empty).base ≡ base
      → pages < (get_or t i empty).pages
      → (covered t v ≡ true) ⊎ (holds (entry_of base pages prot lazy) v ≡ true)
      → covered (insert_slot replaced (remainder (get_or t i empty) base pages)) v ≡ true
  unfolding replaced
  shrunk-covered f fits h free p used same less one =
      insert_slot-covered replaced f (remainder old base pages) v
        (omega (arith, length-set t i new_entry))
        (ap (λ (e : VmaEntry). e.valid) (get_or-set_ne t i f new_entry empty apart) ∙ free)
        (elim one [
          | inr held ↦ inl (covered-set_self t i new_entry v p held)
          | inl before ↦ elim (Bool-cases (holds old v)) [
            | inr elsewhere ↦ inl (covered-set t i new_entry v p before (inl elsewhere))
            | inl here ↦
                elim (split_lem old base pages prot lazy v same (All-get t i fits p) here less) [
                  | inl new_holds ↦ inl (covered-set t i new_entry v p before (inr new_holds))
                  | inr rest ↦ inr rest
                ]
          ]
        ])
    where
      old : VmaEntry
      old = get_or t i empty

      new_entry : VmaEntry
      new_entry = entry_of base pages prot lazy

      apart : i ≢ f
      apart e = ground (arith, used, free, ap (λ k. (get_or t k empty).valid) e)

  replaced-covered :
      All Fits t
      → base + pages * 4096 < 2 ^ 64
      → i < length t
      → (get_or t i empty).base ≡ base
      → (get_or t i empty).pages ≤ pages
      → (covered t v ≡ true) ⊎ (holds (entry_of base pages prot lazy) v ≡ true)
      → covered replaced v ≡ true
  unfolding replaced
  replaced-covered fits fits' p same more (inr held) = covered-set_self t i _ v p held
  replaced-covered fits fits' p same more (inl before) =
      covered-set t i _ v p before (elim (Bool-cases (holds (get_or t i empty) v)) [
        | inr elsewhere ↦ inl elsewhere
        | inl here ↦ inr (
            wider_lem (get_or t i empty) base pages prot lazy v same (All-get t i fits p) fits' here
              more)
      ])

-- Registering a region loses no address, even where it replaces a larger one at the same base, whose
-- rest is kept; and it covers its own addresses. The table has a free slot, and no region, old or
-- new, reaches the end of the 64-bit addresses.
pub insert-covered :
    (t : List VmaEntry) (base pages prot : ℕ) (lazy : Bool) (f v : ℕ)
    → All Fits t
    → base + pages * 4096 < 2 ^ 64
    → f < length t
    → (get_or t f empty).valid ≡ false
    → (covered t v ≡ true) ⊎ ((base ≤ v) × (v < base + pages * 4096))
    → covered (insert t base pages prot lazy) v ≡ true
unfolding insert replaced
insert-covered t base pages prot lazy f v fits fits' h free one =
    let new_entry = entry_of base pages prot lazy in
    let either : (covered t v ≡ true) ⊎ (holds new_entry v ≡ true) = elim one [
      | inl before ↦ inl before
      | inr (p, q) ↦ inr (ground arith)
    ] in
    elim (find_base_cases t base 0) [
      | inl missing ↦ rw (missing, insert) (insert_slot-covered t f new_entry v h free either)
      | inr (i, found, p, used, same) ↦
          let at_i : find_base t base 0 ≡ some i = found ∙ ap (λ (k : ℕ). some k) (omega arith) in
          elim (dec_lt pages (get_or t i empty).pages) [
            | yes less ↦
                rw (at_i, lt→ltb pages (get_or t i empty).pages less, insert)
                  (shrunk-covered t base pages prot lazy i v f fits h free p used same less either)
            | no more ↦
                let not_less : ltb pages (get_or t i empty).pages ≡ false = ground arith in
                rw (at_i, not_less, insert)
                  (replaced-covered t base pages prot lazy i v fits fits' p same (omega arith)
                    either)
          ]
    ]
