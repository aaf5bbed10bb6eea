-- ===== src/Vfs/Tmpfs.antt =====
-- vfs/tmpfs.rs: a directory as the ordered map from names to nodes.
use chod_os.Base.{
  ℕ, ◌≡◌, ◌≢◌, refl, sym, ap, ◌∙◌, Bool, true, false, ◌&&◌, ◌||◌, Option, none, some, List, [], ◌∷◌,
  arith, if◌then◌else◌, ◌==◌, ltb, Bool-cases, inl, inr, ◌⊎◌, All, ◌<◌,
}
use chod_os.Vfs.Path.{eq_str, eq_str_refl, eq_str-eq}

-- A node is named by its number, as an `Arc` names it.
abbrev pub NodeRef : Type 0
NodeRef = ℕ

abbrev pub Children : Type 0
Children = List (List ℕ × NodeRef)

-- The order of strings.
unfoldable pub lt_str : List ℕ → List ℕ → Bool
lt_str [] [] = false
lt_str [] (d ∷ t) = true
lt_str (c ∷ s) [] = false
lt_str (c ∷ s) (d ∷ t) = ltb c d || ((c == d) && lt_str s t)

-- `BTreeMap::get`, `insert` and `remove`.
unfoldable pub find : Children → List ℕ → Option NodeRef
find [] name = none
find ((k, n) ∷ t) name = let later = find t name in if eq_str k name then some n else later

unfoldable pub put : Children → List ℕ → NodeRef → Children
put [] name node = (name, node) ∷ []
put ((k, n) ∷ t) name node =
    let later = (k, n) ∷ put t name node in
    if eq_str k name
    then (name, node) ∷ t
    else (if lt_str name k then (name, node) ∷ (k, n) ∷ t else later)

unfoldable pub without : Children → List ℕ → Children
without [] name = []
without ((k, n) ∷ t) name =
    let later = without t name in if eq_str k name then later else (k, n) ∷ later

abbrev pub has_none : Children → Bool
has_none [] = true
has_none (e ∷ t) = false

eq_str-ne : (s t : List ℕ) → s ≢ t → eq_str s t ≡ false
eq_str-ne s t ne = elim (Bool-cases (eq_str s t)) [
  | inl e ↦ absurd (ne (eq_str-eq s t e))
  | inr e ↦ e
]

-- Equality of names is decided by `eq_str`.
pub name_cases : (s t : List ℕ) → (s ≡ t) ⊎ (s ≢ t)
name_cases s t = elim (Bool-cases (eq_str s t)) [
  | inl e ↦ inl (eq_str-eq s t e)
  | inr e ↦ inr (λ same. ground (arith, e, ap (λ u. eq_str s u) (sym same), eq_str_refl s))
]

pub find-put_self :
    (t : Children) (name : List ℕ) (node : NodeRef) → find (put t name node) name ≡ some node
unfolding find put
find-put_self [] name node = rw (eq_str_refl name, find) refl
find-put_self ((k, n) ∷ t) name node = elim (Bool-cases (eq_str k name)) [
  | inl e ↦ rw (e, put) (rw (eq_str_refl name, find) refl)
  | inr e ↦ elim (Bool-cases (lt_str name k)) [
    | inl l ↦ rw (e, l, put) (rw (eq_str_refl name, find) refl)
    | inr l ↦ rw (e, l, put) (rw (e, find) (find-put_self t name node))
  ]
]

pub find-put_ne :
    (t : Children) (name : List ℕ) (node : NodeRef) (other : List ℕ)
    → name ≢ other
    → find (put t name node) other ≡ find t other
unfolding find put
find-put_ne [] name node other ne = rw (eq_str-ne name other ne, find) refl
find-put_ne ((k, n) ∷ t) name node other ne =
    let miss = eq_str-ne name other ne in
    elim (Bool-cases (eq_str k name)) [
      | inl e ↦
          let old : eq_str k other ≡ false = ap (λ s. eq_str s other) (eq_str-eq k name e) ∙ miss in
          rw (e, put) (rw (miss, old, find) refl)
      | inr e ↦ elim (Bool-cases (lt_str name k)) [
        | inl l ↦ rw (e, l, put) (rw (miss, find) refl)
        | inr l ↦
            rw (e, l, put)
              (elim (Bool-cases (eq_str k other)) [
                | inl o ↦ rw (o, find) refl
                | inr o ↦ rw (o, find) (find-put_ne t name node other ne)
              ])
      ]
    ]

pub find-without_self : (t : Children) (name : List ℕ) → find (without t name) name ≡ none
unfolding find without
find-without_self [] name = refl
find-without_self ((k, n) ∷ t) name = elim (Bool-cases (eq_str k name)) [
  | inl e ↦ rw (e, without) (find-without_self t name)
  | inr e ↦ rw (e, without) (rw (e, find) (find-without_self t name))
]

pub find-without_ne :
    (t : Children) (name other : List ℕ) → name ≢ other → find (without t name) other ≡ find t other
unfolding find without
find-without_ne [] name other ne = refl
find-without_ne ((k, n) ∷ t) name other ne = elim (Bool-cases (eq_str k name)) [
  | inl e ↦
      let old : eq_str k other ≡ false =
        ap (λ s. eq_str s other) (eq_str-eq k name e) ∙ eq_str-ne name other ne in
      rw (e, without) (rw (old, find) (find-without_ne t name other ne))
  | inr e ↦
      rw (e, without)
        (elim (Bool-cases (eq_str k other)) [
          | inl o ↦ rw (o, find) refl
          | inr o ↦ rw (o, find) (find-without_ne t name other ne)
        ])
]

pub find-without-none :
    (t : Children) (name other : List ℕ) → find t other ≡ none → find (without t name) other ≡ none
find-without-none t name other e = elim (name_cases name other) [
  | inl same ↦ ap (λ n. find (without t name) n) (sym same) ∙ find-without_self t name
  | inr ne ↦ find-without_ne t name other ne ∙ e
]

-- A directory with an entry is not empty.
pub find-has_none : (t : Children) (name : List ℕ) → has_none t ≡ true → find t name ≡ none
unfolding find
find-has_none [] name e = refl
find-has_none (x ∷ t) name e = cc e

pub find-All :
    (size : ℕ) (t : Children) (name : List ℕ) (m : ℕ)
    → All (λ (e : List ℕ × NodeRef). e.1 < size) t
    → find t name ≡ some m
    → m < size
unfolding find
find-All size [] name m inside e = cc e
find-All size ((k, n) ∷ t) name m (h, inside) e = ground (arith, e, find-All size t name m inside)
