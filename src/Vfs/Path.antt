-- ===== src/Vfs/Path.antt =====
-- Paths of vfs/mod.rs: byte strings, split at each '/'.
use chod_os.Base.{
  ℕ, zero, suc, ◌≡◌, refl, sym, ap, ◌∙◌, Bool, true, false, ◌&&◌, Option, none, some, List, [], ◌∷◌,
  ◌++◌, arith, if◌then◌else◌, ◌==◌, ==_iff, Bool-cases, inl, inr, ◌⊎◌, ℕ_discrete, take, drop,
  replicate,
}

abbrev pub slash : ℕ
slash = 47

abbrev pub root_path : List ℕ
root_path = slash ∷ []

abbrev pub is_empty : List ℕ → Bool
is_empty [] = true
is_empty (c ∷ cs) = false

-- `==` and the order of strings.
unfoldable pub eq_str : List ℕ → List ℕ → Bool
eq_str [] [] = true
eq_str [] (d ∷ t) = false
eq_str (c ∷ s) [] = false
eq_str (c ∷ s) (d ∷ t) = (c == d) && eq_str s t

unfoldable pub trim_start : List ℕ → List ℕ
trim_start [] = []
trim_start (c ∷ s) = let rest = trim_start s in if c == slash then rest else c ∷ s

unfoldable pub trim_end : List ℕ → List ℕ
trim_end [] = []
trim_end (c ∷ s) = let rest = trim_end s in if (c == slash) && is_empty rest then [] else c ∷ rest

abbrev pub prepend : ℕ → List (List ℕ) → List (List ℕ)
prepend c [] = (c ∷ []) ∷ []
prepend c (w ∷ ws) = (c ∷ w) ∷ ws

unfoldable pub split : List ℕ → List (List ℕ)
split [] = [] ∷ []
split (c ∷ s) = let rest = split s in if c == slash then [] ∷ rest else prepend c rest

unfoldable pub nonempty : List (List ℕ) → List (List ℕ)
nonempty [] = []
nonempty (w ∷ ws) = let rest = nonempty ws in if is_empty w then rest else w ∷ rest

-- The parts of a path that `lookup` walks along.
unfoldable pub parts_of : List ℕ → List (List ℕ)
parts_of path = nonempty (split (trim_start path))

unfoldable pub rfind : List ℕ → Option ℕ
rfind [] = none
rfind (c ∷ s) = elim (rfind s) [
  | some i ↦ some (suc i)
  | none ↦ if c == slash then some 0 else none
]

-- The path of the parent and the name in it.
unfoldable pub split_parent : List ℕ → Option (List ℕ × List ℕ)
split_parent path =
    let t = trim_end path in
    elim (rfind t) [
      | none ↦ none
      | some i ↦
          let parent = if i == 0 then root_path else take i t in
          let name = drop (suc i) t in if is_empty name then none else some (parent, name)
    ]

pub eq_str_refl : (s : List ℕ) → eq_str s s ≡ true
unfolding eq_str
eq_str_refl [] = refl
eq_str_refl (c ∷ s) = ground (arith, eq_str_refl s)

pub eq_str-eq : (s t : List ℕ) → eq_str s t ≡ true → s ≡ t
unfolding eq_str
eq_str-eq [] [] e = refl
eq_str-eq [] (d ∷ t) e = cc e
eq_str-eq (c ∷ s) [] e = cc e
eq_str-eq (c ∷ s) (d ∷ t) e =
    let head : c ≡ d = ground (arith, e) in
    let tail : s ≡ t = eq_str-eq s t (ground (arith, e)) in cc (head, tail)

nonempty-append : (us ws : List (List ℕ)) → nonempty (us ++ ws) ≡ nonempty us ++ nonempty ws
unfolding nonempty
nonempty-append [] ws = refl
nonempty-append (u ∷ us) ws = elim (Bool-cases (is_empty u)) [
  | inl e ↦ rw (e, nonempty) (nonempty-append us ws)
  | inr e ↦ rw (e, nonempty) (ap (λ v. u ∷ v) (nonempty-append us ws))
]

nonempty-replicate : (n : ℕ) → nonempty (replicate n []) ≡ []
unfolding nonempty
nonempty-replicate zero = refl
nonempty-replicate (suc n) = nonempty-replicate n

parts_of-split : (s : List ℕ) → parts_of s ≡ nonempty (split s)
unfolding parts_of trim_start split nonempty
parts_of-split [] = refl
parts_of-split (c ∷ s) = elim (Bool-cases (c == slash)) [
  | inl e ↦ rw (e, trim_start, split) (parts_of-split s)
  | inr e ↦
      let kept : trim_start (c ∷ s) ≡ c ∷ s = rw (e, trim_start) refl in
      ap (λ v. nonempty (split v)) kept
]

split-some : (s : List ℕ) → (w : List ℕ) × (ws : List (List ℕ)) × (split s ≡ w ∷ ws)
unfolding split
split-some [] = ([], [], refl)
split-some (c ∷ s) =
    let (w, ws, e) = split-some s in
    elim (Bool-cases (c == slash)) [
      | inl h ↦ ([], split s, rw (h, split) refl)
      | inr h ↦ (c ∷ w, ws, rw (h, e, split) refl)
    ]

-- A slash ends a part.
split-append : (s t : List ℕ) → split (s ++ slash ∷ t) ≡ split s ++ split t
unfolding split
split-append [] t = refl
split-append (c ∷ s) t = elim (Bool-cases (c == slash)) [
  | inl e ↦ rw (e, split) (ap (λ v. [] ∷ v) (split-append s t))
  | inr e ↦
      let (w, ws, h) = split-some s in
      rw (e, split) (ap (λ v. prepend c v) (split-append s t) ∙ rw h refl)
]

-- Trailing slashes give empty parts only.
split-trim_end : (s : List ℕ) → (n : ℕ) × (split s ≡ split (trim_end s) ++ replicate n [])
unfolding split trim_end
split-trim_end [] = (0, refl)
split-trim_end (c ∷ s) =
    let (n, ih) = split-trim_end s in
    elim (Bool-cases (c == slash)) [
      | inl e ↦ elim (Bool-cases (is_empty (trim_end s))) [
        | inl done ↦
            let gone : split (trim_end s) ≡ [] ∷ [] = ap split (empty_eq (trim_end s) done) in
            (
              suc n,
              rw (e, done, split, trim_end)
                  (ap (λ v. [] ∷ v) (ih ∙ ap (λ v. v ++ replicate n []) gone)),
            )
        | inr more ↦ (n, rw (e, more, split, trim_end) (rw (e, split) (ap (λ v. [] ∷ v) ih)))
      ]
      | inr e ↦
          let (w, ws, h) = split-some (trim_end s) in
          (n, rw (e, split, trim_end) (rw (e, split) (ap (λ v. prepend c v) ih ∙ rw h refl)))
    ]
  where
    empty_eq : (t : List ℕ) → is_empty t ≡ true → t ≡ []
    empty_eq [] e = refl
    empty_eq (d ∷ t) e = cc e

parts_of-trim_end : (s : List ℕ) → parts_of (trim_end s) ≡ parts_of s
parts_of-trim_end s =
    let (n, e) = split-trim_end s in
    parts_of-split (trim_end s)
    ∙ sym (
        parts_of-split s
        ∙ ap nonempty e
        ∙ nonempty-append (split (trim_end s)) (replicate n [])
        ∙ ap (λ v. nonempty (split (trim_end s)) ++ v) (nonempty-replicate n)
        ∙ append_nil (nonempty (split (trim_end s))))
  where
    append_nil : (us : List (List ℕ)) → us ++ [] ≡ us
    append_nil [] = refl
    append_nil (u ∷ us) = ap (λ v. u ∷ v) (append_nil us)

parts_of-append : (s t : List ℕ) → parts_of (s ++ slash ∷ t) ≡ parts_of s ++ parts_of t
parts_of-append s t =
    parts_of-split (s ++ slash ∷ t)
    ∙ ap nonempty (split-append s t)
    ∙ nonempty-append (split s) (split t)
    ∙ rw (parts_of-split s, parts_of-split t) refl

-- The last slash of a path divides it.
record Divided (t : List ℕ) (i : ℕ) : Type 0 where
  whole : t ≡ take i t ++ slash ∷ drop (suc i) t
  last : rfind (drop (suc i) t) ≡ none

rfind_cases : (t : List ℕ) → (rfind t ≡ none) ⊎ ((i : ℕ) × (rfind t ≡ some i) × Divided t i)
unfolding rfind
rfind_cases [] = inl refl
rfind_cases (c ∷ t) = elim (rfind_cases t) [
  | inr (j, found, d) ↦
      inr (suc j, rw (found, rfind) refl, record { whole = ap (λ v. c ∷ v) d.whole; last = d.last })
  | inl missing ↦ elim (ℕ_discrete c slash) [
    | yes e ↦ inr (
      0,
      let hit : (c == slash) ≡ true = (==_iff c slash).1 e in rw (missing, hit, rfind) refl,
      record { whole = ap (λ d. d ∷ t) e; last = missing },
    )
    | no ne ↦
        let miss : (c == slash) ≡ false = ground (arith, ne) in inl (rw (missing, miss, rfind) refl)
  ]
]

split-none : (t : List ℕ) → rfind t ≡ none → split t ≡ t ∷ []
unfolding rfind split
split-none [] e = refl
split-none (c ∷ t) e = elim (rfind_cases t) [
  | inr (j, found, d) ↦ ground (arith, e, found)
  | inl missing ↦ elim (Bool-cases (c == slash)) [
    | inl hit ↦ ground (arith, e, missing, hit)
    | inr miss ↦ rw (miss, split) (ap (λ v. prepend c v) (split-none t missing))
  ]
]

parts_of-name : (t : List ℕ) → rfind t ≡ none → is_empty t ≡ false → parts_of t ≡ t ∷ []
unfolding nonempty
parts_of-name t last some_char =
    parts_of-split t ∙ ap nonempty (split-none t last) ∙ rw (some_char, nonempty) refl

parts_of-nil : parts_of [] ≡ []
unfolding parts_of trim_start split nonempty
parts_of-nil = refl

pub parts_of-root : parts_of root_path ≡ []
unfolding parts_of trim_start split nonempty
parts_of-root = refl

-- A path that `split_parent` divides has the parts of the parent and then the name.
pub split_parent_cases :
    (path : List ℕ)
    → (split_parent path ≡ none)
      ⊎ ((parent name : List ℕ) × (split_parent path ≡ some (parent, name))
          × (parts_of path ≡ parts_of parent ++ (name ∷ [])))
unfolding split_parent
split_parent_cases path = elim (rfind_cases (trim_end path)) [
  | inl missing ↦ inl (rw (missing, split_parent) refl)
  | inr (i, found, d) ↦ elim (Bool-cases (is_empty (drop (suc i) (trim_end path)))) [
    | inl nameless ↦ inl (rw (found, nameless, split_parent) refl)
    | inr named ↦ inr (
      if i == 0 then root_path else take i (trim_end path),
      drop (suc i) (trim_end path),
      rw (found, named, split_parent) refl,
      sym (parts_of-trim_end path)
          ∙ ap parts_of d.whole
          ∙ parts_of-append (take i (trim_end path)) (drop (suc i) (trim_end path))
          ∙ ap (λ v. parts_of (take i (trim_end path)) ++ v)
              (parts_of-name (drop (suc i) (trim_end path)) d.last named)
          ∙ ap (λ v. v ++ (drop (suc i) (trim_end path) ∷ [])) (parent_parts i (trim_end path)),
    )
  ]
]
  where
    parent_parts :
        (i : ℕ) (t : List ℕ)
        → parts_of (take i t) ≡ parts_of (if i == 0 then root_path else take i t)
    parent_parts zero t = parts_of-nil ∙ sym parts_of-root
    parent_parts (suc i) t = let miss : (suc i == 0) ≡ false = ground arith in rw miss refl

pub split_parent-parts :
    (path parent name : List ℕ)
    → split_parent path ≡ some (parent, name)
    → parts_of path ≡ parts_of parent ++ (name ∷ [])
split_parent-parts path parent name e = elim (split_parent_cases path) [
  | inl missing ↦ cc (e, missing)
  | inr (parent', name', e', parts) ↦
      let same : some (parent', name') ≡ some (parent, name) = sym e' ∙ e in
      parts ∙ ap (λ o. parts_of (pair_or o).0 ++ ((pair_or o).1 ∷ [])) same
]
  where
    pair_or : Option (List ℕ × List ℕ) → List ℕ × List ℕ
    pair_or none = ([], [])
    pair_or (some x) = x
