-- ===== src/Policy/Pairs/Observed.antt =====
-- policy/mod.rs: the table of pairs as a map from a pair to what is known of it.
use chod_os.Base.{
  ℕ, zero, suc, ◌+◌, ◌≡◌, ◌≢◌, ◌<◌, ◌≤◌, refl, sym, ap, ◌∙◌, Bool, true, false, not, ◌&&◌, Option,
  none, some, List, [], ◌∷◌, arith, ◌==◌, ltb, min, ◌-◌, ◌^◌, Bool-cases, Option-cases, inl, inr,
  ◌⊎◌, ℕ_discrete, length, get_or, set, get_or-set_self, get_or-set_ne,
}
use chod_os.Policy.Pairs.{
  IpcEntry, empty, new_entry, position, is_entry, fewest, counted, observe_ipc,
}

position-some :
    (test : IpcEntry → Bool) (t : List IpcEntry) (k : ℕ)
    → position test t ≡ some k
    → (k < length t) × (test (get_or t k empty) ≡ true)
unfolding position
position-some test [] k e = absurd (ground (arith, e))
position-some test (x ∷ t) k e = elim (Bool-cases (test x)) [
  | inl b ↦
      let q : 0 ≡ k = ground (arith, b, e) in
      (omega (arith, q), ap (λ n. test (get_or (x ∷ t) n empty)) (sym q) ∙ b)
  | inr b ↦ elim (Option-cases (position test t)) [
    | inl none_ ↦ absurd (ground (arith, b, e, none_))
    | inr (m, found) ↦
        let (less, hit) = position-some test t m found in
        let q : suc m ≡ k = ground (arith, b, e, found) in
        (omega (arith, q, less), ap (λ n. test (get_or (x ∷ t) n empty)) (sym q) ∙ hit)
  ]
]

position-set-none :
    (test : IpcEntry → Bool) (t : List IpcEntry) (k : ℕ) (e : IpcEntry)
    → position test t ≡ none
    → k < length t
    → test e ≡ true
    → position test (set t k e) ≡ some k
unfolding position
position-set-none test [] k e missing less hit = absurd (omega (arith, less))
position-set-none test (x ∷ t) zero e missing less hit = rw hit refl
position-set-none test (x ∷ t) (suc k) e missing less hit =
    let miss : test x ≡ false = ground (arith, missing) in
    let rest : position test t ≡ none = ground (arith, missing, miss) in
    rw (miss, position-set-none test t k e rest (omega (arith, less)) hit) refl

position-set-some :
    (test : IpcEntry → Bool) (t : List IpcEntry) (k : ℕ) (e : IpcEntry)
    → position test t ≡ some k
    → test e ≡ true
    → position test (set t k e) ≡ some k
unfolding position
position-set-some test [] k e found hit = absurd (ground (arith, found))
position-set-some test (x ∷ t) zero e found hit = rw hit refl
position-set-some test (x ∷ t) (suc k) e found hit =
    let miss : test x ≡ false = ground (arith, found) in
    let rest : position test t ≡ some k = ground (arith, found, miss) in
    rw (miss, position-set-some test t k e rest hit) refl

position-set_other :
    (test : IpcEntry → Bool) (t : List IpcEntry) (k : ℕ) (e : IpcEntry)
    → test e ≡ false
    → (position test (set t k e) ≡ position test t) ⊎ (position test t ≡ some k)
unfolding position
position-set_other test [] k e miss = inl refl
position-set_other test (x ∷ t) zero e miss = elim (Bool-cases (test x)) [
  | inl b ↦ inr (rw b refl)
  | inr b ↦ inl (rw (miss, b) refl)
]
position-set_other test (x ∷ t) (suc k) e miss = elim (Bool-cases (test x)) [
  | inl b ↦ inl (rw b refl)
  | inr b ↦ elim (position-set_other test t k e miss) [
    | inl same ↦ inl (rw (b, same) refl)
    | inr there ↦ inr (rw (b, there) refl)
  ]
]

-- What the table knows of a pair.
unfoldable pub entry_of : List IpcEntry → ℕ → ℕ → Option IpcEntry
entry_of t from to = elim (position (is_entry from to) t) [
  | none ↦ none
  | some k ↦ some (get_or t k empty)
]

-- An entry written at `k` for one pair, seen by another pair.
entry_of-set :
    (t : List IpcEntry) (k : ℕ) (e : IpcEntry) (x y : ℕ)
    → k < length t
    → is_entry x y e ≡ false
    → (entry_of (set t k e) x y ≡ entry_of t x y)
      ⊎ ((entry_of t x y ≡ some (get_or t k empty)) × (is_entry x y (get_or t k empty) ≡ true))
unfolding entry_of
entry_of-set t k e x y inside miss = elim (position-set_other (is_entry x y) t k e miss) [
  | inr there ↦ inr (rw (there, entry_of) refl, (position-some (is_entry x y) t k there).1)
  | inl same ↦ elim (Option-cases (position (is_entry x y) t)) [
    | inl none_ ↦ inl (rw (same, none_, entry_of) refl)
    | inr (m, found) ↦
        let hit : is_entry x y (get_or (set t k e) m empty) ≡ true =
          (position-some (is_entry x y) (set t k e) m (same ∙ found)).1 in
        elim (ℕ_discrete k m) [
          | yes q ↦
              let self : get_or (set t k e) m empty ≡ e =
                ap (λ n. get_or (set t k e) n empty) (sym q) ∙ get_or-set_self t k e empty inside in
              let bad : is_entry x y e ≡ true = ap (is_entry x y) (sym self) ∙ hit in
              absurd (ground (arith, bad, miss))
          | no q ↦ inl (
              rw (same, found, entry_of)
                (ap (λ (z : IpcEntry). some z) (get_or-set_ne t k m e empty q)))
        ]
  ]
]

fewest_lem :
    (t : List IpcEntry) (left i min_i n j : ℕ)
    → i + left ≡ n
    → min_i < n
    → j < n
    → ((k : ℕ) → k < i → (get_or t min_i empty).count ≤ (get_or t k empty).count)
    → (fewest t left i min_i < n)
      × ((get_or t (fewest t left i min_i) empty).count ≤ (get_or t j empty).count)
unfolding fewest
fewest_lem t zero i min_i n j size inside less so_far =
    (inside, so_far j (omega (arith, size, less)))
fewest_lem t (suc left) i min_i n j size inside less so_far =
    elim (Bool-cases (ltb (get_or t i empty).count (get_or t min_i empty).count)) [
      | inl b ↦ rw b (
          fewest_lem t left (i + 1) i n j (omega (arith, size)) (omega (arith, size)) less
            (λ k below. elim (ℕ_discrete k i) [
              | yes q ↦ ground (arith, ap (λ m. (get_or t m empty).count) q)
              | no q ↦ ground (arith, so_far k (omega (arith, q, below)), b)
            ]))
      | inr b ↦ rw b (
          fewest_lem t left (i + 1) min_i n j (omega (arith, size)) inside less (λ k below.
            elim (ℕ_discrete k i) [
              | yes q ↦ ground (arith, b, ap (λ m. (get_or t m empty).count) q)
              | no q ↦ so_far k (omega (arith, q, below))
            ]))
    ]

entry_of-position :
    (t : List IpcEntry) (k from to : ℕ)
    → position (is_entry from to) t ≡ some k
    → entry_of t from to ≡ some (get_or t k empty)
unfolding entry_of
entry_of-position t k from to found = rw (found, entry_of) refl

entry_of-none :
    (t : List IpcEntry) (from to : ℕ)
    → position (is_entry from to) t ≡ none
    → entry_of t from to ≡ none
unfolding entry_of
entry_of-none t from to missing = rw (missing, entry_of) refl

-- A new entry at `k` for a pair that has none yet.
entry_of-set_new :
    (t : List IpcEntry) (k : ℕ) (e : IpcEntry) (from to : ℕ)
    → position (is_entry from to) t ≡ none
    → k < length t
    → is_entry from to e ≡ true
    → entry_of (set t k e) from to ≡ some e
entry_of-set_new t k e from to missing inside hit =
    entry_of-position (set t k e) k from to
      (position-set-none (is_entry from to) t k e missing inside hit)
    ∙ ap (λ (x : IpcEntry). some x) (get_or-set_self t k e empty inside)

position-none :
    (t : List IpcEntry) (from to i : ℕ)
    → position (is_entry from to) t ≡ none
    → is_entry from to (get_or t i empty) ≡ false
unfolding position
position-none [] from to i missing = refl
position-none (x ∷ t) from to zero missing = ground (arith, missing)
position-none (x ∷ t) from to (suc i) missing = position-none t from to i (ground (arith, missing))

none-position :
    (t : List IpcEntry) (from to : ℕ)
    → ((i : ℕ) → is_entry from to (get_or t i empty) ≡ false)
    → position (is_entry from to) t ≡ none
unfolding position
none-position [] from to misses = refl
none-position (x ∷ t) from to misses =
    rw (misses 0, none-position t from to (λ i. misses (suc i))) refl

-- No pair has two entries.
pub record NoDoubles (t : List IpcEntry) : Type 0 where
  pub once :
      (i k from to : ℕ)
      → is_entry from to (get_or t i empty) ≡ true
      → is_entry from to (get_or t k empty) ≡ true
      → i ≡ k

clash : true ≡ false → ⊥
clash e = ground (arith, e)

-- An entry written for a pair that has no entry elsewhere.
module _ (t : List IpcEntry) (k : ℕ) (e : IpcEntry) (from to : ℕ) (n : NoDoubles t)
    (inside : k < length t) (mine : is_entry from to e ≡ true)
    (alone : (i : ℕ) → i ≢ k → is_entry from to (get_or t i empty) ≡ false) where
  at_new :
      (i x y : ℕ) → i ≡ k → is_entry x y (get_or (set t k e) i empty) ≡ true → is_entry x y e ≡ true
  at_new i x y here hit =
      ap (is_entry x y)
        (sym (ap (λ q. get_or (set t k e) q empty) here ∙ get_or-set_self t k e empty inside))
      ∙ hit

  at_old :
      (i x y : ℕ)
      → i ≢ k
      → is_entry x y (get_or (set t k e) i empty) ≡ true
      → is_entry x y (get_or t i empty) ≡ true
  at_old i x y ne hit =
      ap (is_entry x y) (sym (get_or-set_ne t k i e empty (λ q. ne (sym q)))) ∙ hit

  apart :
      (i l x y : ℕ)
      → i ≡ k
      → l ≢ k
      → is_entry x y (get_or (set t k e) i empty) ≡ true
      → is_entry x y (get_or (set t k e) l empty) ≡ true
      → ⊥
  apart i l x y here ne hit hit' =
      let new = at_new i x y here hit in
      let old = at_old l x y ne hit' in
      let moved : is_entry from to (get_or t l empty) ≡ true =
        ap (λ q. is_entry q to (get_or t l empty)) {x = from} {y = x} (ground (arith, mine, new))
        ∙ ap (λ q. is_entry x q (get_or t l empty)) {x = to} {y = y} (ground (arith, mine, new))
        ∙ old in
      clash (sym moved ∙ alone l ne)

  set-NoDoubles : NoDoubles (set t k e)
  set-NoDoubles = record {
    once = λ i l x y hit hit'. elim (ℕ_discrete i k) [
      | yes here ↦ elim (ℕ_discrete l k) [
        | yes there ↦ here ∙ sym there
        | no ne ↦ absurd (apart i l x y here ne hit hit')
      ]
      | no ne ↦ elim (ℕ_discrete l k) [
        | yes there ↦ absurd (apart l i x y there ne hit' hit)
        | no ne' ↦ n.once i l x y (at_old i x y ne hit) (at_old l x y ne' hit')
      ]
    ];
  }

-- The pair whose only entry is overwritten has none any more.
entry_of-set_lost :
    (t : List IpcEntry) (k : ℕ) (e : IpcEntry) (x y : ℕ)
    → NoDoubles t
    → k < length t
    → is_entry x y e ≡ false
    → is_entry x y (get_or t k empty) ≡ true
    → entry_of (set t k e) x y ≡ none
entry_of-set_lost t k e x y n inside miss hit = entry_of-none (set t k e) x y (
    none-position (set t k e) x y (λ i. elim (ℕ_discrete i k) [
      | yes here ↦
          ap (is_entry x y)
            (ap (λ q. get_or (set t k e) q empty) here ∙ get_or-set_self t k e empty inside)
          ∙ miss
      | no ne ↦
          ap (is_entry x y) (get_or-set_ne t k i e empty (λ q. ne (sym q)))
          ∙ elim (Bool-cases (is_entry x y (get_or t i empty))) [
            | inl there ↦ absurd (ne (n.once i k x y there hit))
            | inr away ↦ away
          ]
    ]))

-- What the table knows of a pair after a message: a new entry, or the old one with the new count and the
-- bytes added, up to the largest word.
abbrev pub after_message : Option IpcEntry → ℕ → ℕ → ℕ → ℕ → IpcEntry
after_message known from to count payload_bytes = elim known [
  | none ↦ record {
    from = from;
    to = to;
    count = count;
    active = true;
    last_count = 0;
    cold_windows = 0;
    rate_ema = 0;
    payload_bytes_window = payload_bytes;
    payload_ema = 0;
    bayes_alpha = 1;
    bayes_beta = 4;
    delta_prev = 0;
    rl_prev_state = 0;
    rl_action = 0;
  }
  | some e ↦ record e {
    count = count;
    payload_bytes_window = min (e.payload_bytes_window + payload_bytes) (2 ^ 64 - 1);
  }
]

-- After a message the pair has an entry with the count that was told and the bytes of this window, added
-- to what was known of it, or a new one. What is known of another pair stays as it was, unless the pair
-- of the message is new, no entry is free, and that other pair's entry, which has no more messages than
-- any, gives way: then nothing is known of that pair any more. No pair has two entries before and after;
-- the table has its sixteen entries.
pub observe_ipc-entry_of :
    (t : List IpcEntry) (from to count payload_bytes x y j : ℕ)
    → length t ≡ 16
    → NoDoubles t
    → (from == x) && (to == y) ≡ false
    → j < 16
    → let t' = observe_ipc t from to count payload_bytes in
      (entry_of t' from to ≡ some (after_message (entry_of t from to) from to count payload_bytes))
      × NoDoubles t'
      × ((entry_of t' x y ≡ entry_of t x y)
          ⊎ ((entry_of t from to ≡ none)
              × (position (λ e. not e.active) t ≡ none)
              × (entry_of t' x y ≡ none)
              × (e : IpcEntry) × (entry_of t x y ≡ some e)
              × (e.count ≤ (get_or t j empty).count)))
unfolding observe_ipc
observe_ipc-entry_of t from to count payload_bytes x y j size n other less =
    let test = is_entry from to in
    let new = new_entry from to count payload_bytes in
    let fresh : is_entry from to new ≡ true = ground arith in
    elim (Option-cases (position test t)) [
      | inr (k, found) ↦
          let (inside, hit) = position-some test t k found in
          let e = counted (get_or t k empty) count payload_bytes in
          let alone : (i : ℕ) → i ≢ k → test (get_or t i empty) ≡ false = λ i ne.
            elim (Bool-cases (test (get_or t i empty))) [
              | inl there ↦ absurd (ne (n.once i k from to there hit))
              | inr away ↦ away
            ] in
          rw (found, observe_ipc)
            (
              entry_of-position (set t k e) k from to (position-set-some test t k e found hit)
                  ∙ ap (λ (z : IpcEntry). some z) (get_or-set_self t k e empty inside)
                  ∙ rw (entry_of-position t k from to found) refl,
              set-NoDoubles t k e from to n inside hit alone,
              elim (entry_of-set t k e x y inside (ground (arith, hit, other))) [
                | inl same ↦ inl same
                | inr (known, mine) ↦ absurd (ground (arith, hit, mine, other))
              ],
            )
      | inl missing ↦
          let alone = λ (i k : ℕ) (ne : i ≢ k). position-none t from to i missing in
          let unknown = entry_of-none t from to missing in
          elim (Option-cases (position (λ e. not e.active) t)) [
            | inr (k, free) ↦
                let (inside, idle) = position-some (λ e. not e.active) t k free in
                rw (missing, free, observe_ipc)
                  (
                    entry_of-set_new t k new from to missing inside fresh ∙ rw unknown refl,
                    set-NoDoubles t k new from to n inside fresh (λ i. alone i k),
                    elim (entry_of-set t k new x y inside other) [
                      | inl same ↦ inl same
                      | inr (known, mine) ↦ absurd (ground (arith, idle, mine))
                    ],
                  )
            | inl busy ↦
                let k = fewest t 15 1 0 in
                let (inside, least) = fewest_lem t 15 1 0 16 j refl (omega arith) less (λ m below.
                  ground (
                    arith,
                    ap (λ q. (get_or t q empty).count) {x = 0} {y = m} (omega (arith, below)),
                  )) in
                let within : k < length t = omega (arith, inside, size) in
                rw (missing, busy, observe_ipc)
                  (
                    entry_of-set_new t k new from to missing within fresh ∙ rw unknown refl,
                    set-NoDoubles t k new from to n within fresh (λ i. alone i k),
                    elim (entry_of-set t k new x y within other) [
                      | inl same ↦ inl same
                      | inr (known, mine) ↦ inr (
                        unknown,
                        refl,
                        entry_of-set_lost t k new x y n within other mine,
                        get_or t k empty,
                        known,
                        least,
                      )
                    ],
                  )
          ]
    ]
