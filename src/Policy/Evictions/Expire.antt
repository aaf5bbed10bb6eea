-- ===== src/Policy/Evictions/Expire.antt =====
-- policy/mod.rs: what taking expired entries off the table changes, and what a new entry changes.
use chod_os.Base.{
  ℕ, zero, suc, ◌+◌, ◌-◌, ◌≡◌, ◌<◌, ◌≤◌, refl, sym, ap, ◌∙◌, true, false, arith, if◌then◌else◌,
  ◌==◌, leb, ltb, ◌&&◌, Bool-cases, inl, inr, ℕ_discrete, get_or, set, length-set,
}
use chod_os.Policy.Evictions.{
  Eviction, Evictions, no_eviction, blocks, in_evict_cooldown, expire_loop, expire_evictions,
}
use chod_os.Policy.Evictions.Cooldown.{
  IsTable, BlockedBy, cooldown-same, without_entry, without_entry-get,
}

blocks-expired :
    (e : Eviction) (from to tick later : ℕ)
    → leb e.min_tick tick ≡ true
    → tick ≤ later
    → blocks e from to later ≡ true
    → 1 ≤ 0
unfolding blocks
blocks-expired e from to tick later expired h hit = ground (arith, expired, h, hit)

-- Taking off an entry that has expired blocks and frees no pair.
without_entry-cooldown :
    (s : Evictions) (i from to tick later : ℕ)
    → IsTable s
    → i < s.evict_len
    → leb (get_or s.evict_table i no_eviction).min_tick tick ≡ true
    → tick ≤ later
    → in_evict_cooldown (without_entry s i) from to later ≡ in_evict_cooldown s from to later
without_entry-cooldown s i from to tick later h inside expired after =
    cooldown-same from to later (without_entry s i) s back forth
  where
    back :
        (j : ℕ)
        → BlockedBy from to later (without_entry s i).evict_table (s.evict_len - 1) j
        → (k : ℕ) × BlockedBy from to later s.evict_table s.evict_len k
    back j (less, hit) = (
      if i == j then s.evict_len - 1 else j,
      (
        ground (arith, less, inside),
        ap (λ e. blocks e from to later) (sym (without_entry-get s i j h.size h.used inside less))
            ∙ hit,
      ),
    )

    forth :
        (j : ℕ)
        → BlockedBy from to later s.evict_table s.evict_len j
        → (k : ℕ) × BlockedBy from to later (without_entry s i).evict_table (s.evict_len - 1) k
    forth j (less, hit) = elim (ℕ_discrete i j) [
      | yes e ↦ absurd (
          omega (
            arith,
            blocks-expired (get_or s.evict_table i no_eviction) from to tick later expired after
                (ap (λ n. blocks (get_or s.evict_table n no_eviction) from to later) e ∙ hit),
          ))
      | no e ↦ elim (ℕ_discrete j (s.evict_len - 1)) [
        | yes q ↦
            let test : (i == i) ≡ true = ground arith in
            let k : i < s.evict_len - 1 = omega (arith, e, q, inside) in
            (
              i,
              (
                k,
                ap (λ x. blocks x from to later)
                      (without_entry-get s i i h.size h.used inside k
                        ∙ ap
                            (λ b.
                              get_or s.evict_table (if b then s.evict_len - 1 else i) no_eviction)
                            test
                        ∙ ap (λ n. get_or s.evict_table n no_eviction) (sym q))
                    ∙ hit,
              ),
            )
        | no q ↦
            let test : (i == j) ≡ false = ground (arith, e) in
            let k : j < s.evict_len - 1 = omega (arith, q, less) in
            (
              j,
              (
                k,
                ap (λ x. blocks x from to later)
                      (without_entry-get s i j h.size h.used inside k
                        ∙ ap
                            (λ b.
                              get_or s.evict_table (if b then s.evict_len - 1 else j) no_eviction)
                            test)
                    ∙ hit,
              ),
            )
      ]
    ]

without_entry-IsTable : (s : Evictions) (i : ℕ) → IsTable s → IsTable (without_entry s i)
without_entry-IsTable s i h = record {
  size =
      length-set (set s.evict_table i (get_or s.evict_table (s.evict_len - 1) no_eviction))
        (s.evict_len - 1) no_eviction
      ∙ length-set s.evict_table i (get_or s.evict_table (s.evict_len - 1) no_eviction)
      ∙ h.size;
  used = omega (arith, h.used);
}

-- The entries before `i` have not expired.
abbrev pub AreLive : Evictions → ℕ → ℕ → Type 0
AreLive s n tick = (j : ℕ) → j < n → tick < (get_or s.evict_table j no_eviction).min_tick

expire_loop_lem :
    (left i : ℕ) (s : Evictions) (from to tick later : ℕ)
    → IsTable s
    → i + left ≡ s.evict_len
    → AreLive s i tick
    → tick ≤ later
    → let s' = expire_loop left i tick s in
      (in_evict_cooldown s' from to later ≡ in_evict_cooldown s from to later)
      × AreLive s' s'.evict_len tick
      × IsTable s'
unfolding expire_loop
expire_loop_lem zero i s from to tick later h size live after =
    (refl, (λ j less. live j (omega (arith, less, size))), h)
expire_loop_lem (suc left) i s from to tick later h size live after =
    elim (Bool-cases (leb (get_or s.evict_table i no_eviction).min_tick tick)) [
      | inl expired ↦
          let inside : i < s.evict_len = omega (arith, size) in
          let live' : AreLive (without_entry s i) i tick = λ j less.
            let test : (i == j) ≡ false = ground (arith, less) in
            ground (
              arith,
              live j less,
              ap (λ (e : Eviction). e.min_tick)
                  (without_entry-get s i j h.size h.used inside (omega (arith, less, size))
                    ∙ ap (λ b. get_or s.evict_table (if b then s.evict_len - 1 else j) no_eviction)
                        test),
            ) in
          let (same, others, table) =
            expire_loop_lem left i (without_entry s i) from to tick later
              (without_entry-IsTable s i h) (omega (arith, size)) live' after in
          rw expired (
            same ∙ without_entry-cooldown s i from to tick later h inside expired after,
            others,
            table,
          )
      | inr unexpired ↦ rw unexpired (
          expire_loop_lem left (i + 1) s from to tick later h (omega (arith, size))
            (λ j less. elim (ℕ_discrete j i) [
              | yes e ↦
                  ground
                    (arith, unexpired, ap (λ n. (get_or s.evict_table n no_eviction).min_tick) e)
              | no e ↦ live j (omega (arith, less, e))
            ])
            after)
    ]

-- Taking the expired entries off changes nothing for any pair from that tick on: a pair may have a new
-- channel afterwards exactly where it might before. No place of the table is in use afterwards and holds an
-- entry that has expired. The table, whose length and number of entries in use are right before, has them
-- right again.
pub expire_evictions-cooldown :
    (s : Evictions) (from to tick later j : ℕ)
    → IsTable s
    → tick ≤ later
    → let s' = expire_evictions s tick in
      (in_evict_cooldown s' from to later ≡ in_evict_cooldown s from to later)
      × (ltb j s'.evict_len && leb (get_or s'.evict_table j no_eviction).min_tick tick ≡ false)
      × IsTable s'
unfolding expire_evictions
expire_evictions-cooldown s from to tick later j h after =
    let (same, live, table) =
      expire_loop_lem s.evict_len 0 s from to tick later h (omega arith)
        (λ k below. absurd (omega (arith, below))) after in
    (same, ground (arith, live j), table)
