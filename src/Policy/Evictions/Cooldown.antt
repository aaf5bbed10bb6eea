-- ===== src/Policy/Evictions/Cooldown.antt =====
-- policy/mod.rs: for how long a pair may not have another channel.
use chod_os.Base.{
  ℕ, zero, suc, ◌+◌, ◌-◌, ◌≡◌, ◌<◌, ◌≤◌, refl, sym, ap, ◌∙◌, Bool, true, false, List, arith,
  if◌then◌else◌, ◌==◌, Bool-cases, inl, inr, ℕ_discrete, length, get_or, set, get_or-set_self,
  get_or-set_ne,
}
use chod_os.Policy.Evictions.{
  Eviction, Evictions, no_eviction, blocks, cooldown_loop, in_evict_cooldown,
}

pub record IsTable (s : Evictions) : Type 0 where
  pub size : length s.evict_table ≡ 8
  pub used : s.evict_len ≤ 8

pub same_test : (a b : Bool) → (a ≡ true → b ≡ true) → (b ≡ true → a ≡ true) → a ≡ b
same_test true b f g = sym (f refl)
same_test false true f g = g refl
same_test false false f g = refl

module _ (from to tick : ℕ) where
  -- Entry `j` of the first `n` is about the pair and has not expired.
  abbrev pub BlockedBy : List Eviction → ℕ → ℕ → Type 0
  BlockedBy t n j = (j < n) × (blocks (get_or t j no_eviction) from to tick ≡ true)

  pub cooldown_loop-true :
      (t : List Eviction) (left i j : ℕ)
      → i ≤ j
      → j < i + left
      → blocks (get_or t j no_eviction) from to tick ≡ true
      → cooldown_loop t left i from to tick ≡ true
  unfolding cooldown_loop
  cooldown_loop-true t zero i j h k e = absurd (omega arith)
  cooldown_loop-true t (suc left) i j h k e = elim (ℕ_discrete i j) [
    | yes q ↦
        let here : blocks (get_or t i no_eviction) from to tick ≡ true =
          ap (λ n. blocks (get_or t n no_eviction) from to tick) q ∙ e in
        rw here refl
    | no q ↦
        let later = cooldown_loop-true t left (i + 1) j (omega arith) (omega arith) e in
        elim (Bool-cases (blocks (get_or t i no_eviction) from to tick)) [
          | inr b ↦ rw b later
          | inl b ↦ rw b refl
        ]
  ]

  pub cooldown_loop-some :
      (t : List Eviction) (left i : ℕ)
      → cooldown_loop t left i from to tick ≡ true
      → (j : ℕ) × BlockedBy t (i + left) j
  unfolding cooldown_loop
  cooldown_loop-some t zero i e = absurd (ground (arith, e))
  cooldown_loop-some t (suc left) i e =
      elim (Bool-cases (blocks (get_or t i no_eviction) from to tick)) [
        | inl b ↦ (i, (omega arith, b))
        | inr b ↦
            let (j, (less, hit)) = cooldown_loop-some t left (i + 1) (ground (arith, b, e)) in
            (j, (omega (arith, less), hit))
      ]

  -- Two tables in which the same pairs are blocked.
  pub cooldown-same :
      (s s' : Evictions)
      → ((j : ℕ)
          → BlockedBy s.evict_table s.evict_len j
          → (k : ℕ) × BlockedBy s'.evict_table s'.evict_len k)
      → ((j : ℕ)
          → BlockedBy s'.evict_table s'.evict_len j
          → (k : ℕ) × BlockedBy s.evict_table s.evict_len k)
      → in_evict_cooldown s from to tick ≡ in_evict_cooldown s' from to tick
  unfolding in_evict_cooldown
  cooldown-same s s' f g = same_test _ _ (across s s' f) (across s' s g)
    where
      across :
          (s s' : Evictions)
          → ((j : ℕ)
              → BlockedBy s.evict_table s.evict_len j
              → (k : ℕ) × BlockedBy s'.evict_table s'.evict_len k)
          → cooldown_loop s.evict_table s.evict_len 0 from to tick ≡ true
          → cooldown_loop s'.evict_table s'.evict_len 0 from to tick ≡ true
      across s s' f e =
          let (j, (less, hit)) = cooldown_loop-some s.evict_table s.evict_len 0 e in
          let (k, (less', hit')) = f j (omega (arith, less), hit) in
          cooldown_loop-true s'.evict_table s'.evict_len 0 k (omega arith) (omega (arith, less'))
            hit'

-- The table after the entry at `i` expired.
abbrev pub without_entry : Evictions → ℕ → Evictions
without_entry s i =
    let last = s.evict_len - 1 in
    record {
      evict_table =
          set (set s.evict_table i (get_or s.evict_table last no_eviction)) last no_eviction;
      evict_len = last;
    }

pub without_entry-get :
    (s : Evictions) (i j : ℕ)
    → length s.evict_table ≡ 8
    → s.evict_len ≤ 8
    → i < s.evict_len
    → j < s.evict_len - 1
    → get_or (without_entry s i).evict_table j no_eviction
      ≡ get_or s.evict_table (if i == j then s.evict_len - 1 else j) no_eviction
without_entry-get s i j size used h k =
    get_or-set_ne (set s.evict_table i (get_or s.evict_table (s.evict_len - 1) no_eviction))
      (s.evict_len - 1) j no_eviction no_eviction (λ e. omega (arith, e, k))
    ∙ elim (ℕ_discrete i j) [
      | yes e ↦
          let test : (i == j) ≡ true = ground (arith, e) in
          rw test (
            ap
              (λ n.
                get_or (set s.evict_table n (get_or s.evict_table (s.evict_len - 1) no_eviction)) j
                  no_eviction)
              e
            ∙ get_or-set_self s.evict_table j (get_or s.evict_table (s.evict_len - 1) no_eviction)
                no_eviction (omega (arith, size, used, k)))
      | no e ↦
          let test : (i == j) ≡ false = ground (arith, e) in
          rw test (
            get_or-set_ne s.evict_table i j (get_or s.evict_table (s.evict_len - 1) no_eviction)
              no_eviction e)
    ]
