-- ===== src/Ring/View.antt =====
-- What a ring stores, oldest entry first, and what its operations do to that.
use chod_os.Base.{
  ℕ, zero, suc, ◌+◌, ◌-◌, ◌%◌, ◌≤◌, ◌<◌, ◌≡◌, ◌≢◌, refl, ap, ◌∙◌, none, some, List, [], ◌∷◌, ◌++◌,
  arith, if◌then◌else◌, leb, ltb, length, ◌⊎◌, inl, inr, ℕ_discrete, get_or, set, length-set,
  get_or-set_self, get_or-set_ne,
}
use chod_os.Ring.{Ring, push, pop, has_data}

-- Indices stay inside the array.
pub record IsValid (cap : ℕ) (r : Ring) : Type 0 where
  pub sized : length r.buf ≡ cap
  pub head_in : r.head < cap
  pub tail_in : r.tail < cap

-- The index `n` places after `h`, for `n` up to the capacity.
abbrev after : ℕ → ℕ → ℕ → ℕ
after cap h n = if ltb (h + n) cap then h + n else h + n - cap

pub next_lem : (cap h : ℕ) → h < cap → (h + 1) % cap ≡ after cap h 1
next_lem cap h p = grind arith

-- How many entries lie between the indices.
abbrev pub used : ℕ → Ring → ℕ
used cap r = if leb r.head r.tail then r.tail - r.head else r.tail + cap - r.head

-- `n` entries of the array from index `h` on.
pub entries : ℕ → List ℕ → ℕ → ℕ → List ℕ
entries cap buf h zero = []
entries cap buf h (suc n) = get_or buf h 0 ∷ entries cap buf ((h + 1) % cap) n

pub contents : ℕ → Ring → List ℕ
contents cap r = entries cap r.buf r.head (used cap r)

length-entries : (cap : ℕ) (buf : List ℕ) (h n : ℕ) → length (entries cap buf h n) ≡ n
unfolding entries
length-entries cap buf h zero = refl
length-entries cap buf h (suc n) = ap suc (length-entries cap buf ((h + 1) % cap) n)

pub length-contents : (cap : ℕ) (r : Ring) → length (contents cap r) ≡ used cap r
unfolding contents
length-contents cap r = length-entries cap r.buf r.head (used cap r)

-- Writing the slot after a stretch of entries adds that entry at the end.
entries-set :
    (cap x n : ℕ) (buf : List ℕ) (h i : ℕ)
    → cap ≤ length buf
    → h < cap
    → n < cap
    → i ≡ after cap h n
    → entries cap (set buf i x) h (suc n) ≡ entries cap buf h n ++ (x ∷ [])
unfolding entries
entries-set cap x zero buf h i room hh hn e =
    let here : i ≡ h = ground arith in
    rw here (ap (λ (v : ℕ). v ∷ []) (get_or-set_self buf h x 0 (omega arith)))
entries-set cap x (suc n) buf h i room hh hn e = rw (get_or-set_ne buf i h x 0 apart) (
    ap (λ ys. get_or buf h 0 ∷ ys)
      (entries-set cap x n buf ((h + 1) % cap) i room (omega arith) (omega arith) later))
  where
    apart : i ≢ h
    apart q = ground arith

    later : i ≡ after cap ((h + 1) % cap) n
    later = ground (arith, next_lem cap h hh)

entries_of_ne :
    (cap : ℕ) (buf : List ℕ) (h n : ℕ)
    → n ≢ 0
    → entries cap buf h n ≡ get_or buf h 0 ∷ entries cap buf ((h + 1) % cap) (n - 1)
unfolding entries
entries_of_ne cap buf h zero p = absurd (p refl)
entries_of_ne cap buf h (suc n) p =
    ap (λ k. entries cap buf h (suc k)) {x = n} {y = suc n - 1} (omega arith)

-- What `push` has done where it succeeds.
pub record Pushed (cap : ℕ) (r : Ring) (x : ℕ) (r' : Ring) : Type 0 where
  pub valid : IsValid cap r'
  pub stored : contents cap r' ≡ contents cap r ++ (x ∷ [])

abbrev pushed_state : ℕ → Ring → ℕ → Ring
pushed_state cap r x = record r { buf = set r.buf r.tail x; tail = (r.tail + 1) % cap }

-- `push` fails on a full ring only, and otherwise adds its entry at the end.
pub push_lem :
    (cap : ℕ) (r : Ring) (x : ℕ)
    → IsValid cap r
    → ((push cap r x ≡ none) × (used cap r + 1 ≡ cap))
      ⊎ ((r' : Ring) × (push cap r x ≡ some r') × (used cap r + 1 < cap) × Pushed cap r x r')
unfolding push contents
push_lem cap r x v = elim (ℕ_discrete ((r.tail + 1) % cap) r.head) [
  | yes full ↦
      inl (ground arith, ground (arith, v.head_in, v.tail_in, next_lem cap r.tail v.tail_in))
  | no room ↦ inr (
    pushed_state cap r x,
    (ground arith),
    less room,
    record {
      valid = (record {
        sized = length-set r.buf r.tail x ∙ v.sized;
        head_in = v.head_in;
        tail_in = omega (arith, v.tail_in);
      });
      stored = stored room;
    },
  )
]
  where
    less : (r.tail + 1) % cap ≢ r.head → used cap r + 1 < cap
    less ne = ground (arith, v.head_in, v.tail_in, next_lem cap r.tail v.tail_in)

    more : (r.tail + 1) % cap ≢ r.head → used cap (pushed_state cap r x) ≡ suc (used cap r)
    more ne = (ground (arith, v.head_in, v.tail_in, next_lem cap r.tail v.tail_in))

    place : r.tail ≡ after cap r.head (used cap r)
    place = ground (arith, v.head_in, v.tail_in)

    stored :
        (r.tail + 1) % cap ≢ r.head
        → contents cap (pushed_state cap r x) ≡ contents cap r ++ (x ∷ [])
    stored ne =
        ap (entries cap (set r.buf r.tail x) r.head) (more ne)
        ∙ entries-set cap x (used cap r) r.buf r.head r.tail (omega (arith, v.sized)) v.head_in
            (omega (arith, less ne)) place

-- What `pop` has done where it succeeds.
pub record Popped (cap : ℕ) (r : Ring) (x : ℕ) (r' : Ring) : Type 0 where
  pub valid : IsValid cap r'
  pub taken : contents cap r ≡ x ∷ contents cap r'

-- `pop` fails on an empty ring only, and otherwise takes the oldest entry.
pub pop_lem :
    (cap : ℕ) (r : Ring)
    → IsValid cap r
    → ((pop cap r ≡ none) × (contents cap r ≡ []))
      ⊎ ((x : ℕ) × (r' : Ring) × (pop cap r ≡ some (x, r')) × Popped cap r x r')
unfolding pop contents entries
pop_lem cap r v = elim (ℕ_discrete r.head r.tail) [
  | yes same ↦
      let nothing : used cap r ≡ 0 = ground arith in
      inl (ground arith, ap (entries cap r.buf r.head) nothing)
  | no ne ↦ inr (
    get_or r.buf r.head 0,
    record r { head = (r.head + 1) % cap },
    ground arith,
    record {
      valid = record { sized = v.sized; head_in = omega (arith, v.head_in); tail_in = v.tail_in };
      taken =
          entries_of_ne cap r.buf r.head (used cap r) (ground arith)
          ∙ ap (λ n. get_or r.buf r.head 0 ∷ entries cap r.buf ((r.head + 1) % cap) n) (fewer ne);
    },
  )
]
  where
    fewer : r.head ≢ r.tail → used cap r - 1 ≡ used cap (record r { head = (r.head + 1) % cap })
    fewer ne = ground (arith, v.head_in, v.tail_in, next_lem cap r.head v.head_in)

-- The test for data is the test for contents.
pub has_data_lem :
    (cap : ℕ) (r : Ring) → IsValid cap r → has_data r ≡ ltb 0 (length (contents cap r))
unfolding has_data
has_data_lem cap r v = ground (arith, length-contents cap r, v.head_in, v.tail_in)

-- An array with both indices at its start is valid and empty.
pub empty_lem :
    (cap : ℕ) (r : Ring)
    → 0 < cap
    → length r.buf ≡ cap
    → r.head ≡ 0
    → r.tail ≡ 0
    → IsValid cap r × (contents cap r ≡ [])
unfolding contents entries
empty_lem cap r p e h t =
    let nothing : used cap r ≡ 0 = ground arith in
    (
      record { sized = e; head_in = omega arith; tail_in = omega arith },
      ap (entries cap r.buf r.head) nothing,
    )
