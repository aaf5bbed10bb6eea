-- ===== src/Policy/Evictions/Record.antt =====
-- policy/mod.rs: what a new entry of a pair that lost its channel changes.
use chod_os.Base.{
  ℕ, zero, suc, ◌+◌, ◌^◌, ◌≡◌, ◌≢◌, ◌<◌, ◌≤◌, refl, sym, ap, ◌∙◌, true, false, ◌&&◌, some, List,
  arith, ◌==◌, ltb, Bool-cases, Option-cases, inl, inr, ◌⊎◌, ℕ_discrete, length, get_or, set,
  get_or-set_self, get_or-set_ne,
}
use chod_os.Base.Words.{u64}
use chod_os.Policy.Evictions.{
  Eviction, Evictions, no_eviction, is_pair, blocks, in_evict_cooldown, find_eviction, earliest,
  record_eviction,
}
use chod_os.Policy.Evictions.Cooldown.{
  IsTable, BlockedBy, cooldown-same, cooldown_loop-true, cooldown_loop-some,
}

find_eviction-some :
    (t : List Eviction) (left i from to k : ℕ)
    → find_eviction t left i from to ≡ some k
    → (k < i + left) × (is_pair (get_or t k no_eviction) from to ≡ true)
unfolding find_eviction
find_eviction-some t zero i from to k e = absurd (ground (arith, e))
find_eviction-some t (suc left) i from to k e =
    elim (Bool-cases (is_pair (get_or t i no_eviction) from to)) [
      | inl b ↦
          let q : i ≡ k = ground (arith, b, e) in
          (omega (arith, q), ap (λ n. is_pair (get_or t n no_eviction) from to) (sym q) ∙ b)
      | inr b ↦
          let (less, pair) = find_eviction-some t left (i + 1) from to k (ground (arith, b, e)) in
          (omega (arith, less), pair)
    ]

earliest-lt :
    (t : List Eviction) (left i min_i n : ℕ)
    → i + left ≤ n
    → min_i < n
    → earliest t left i min_i < n
unfolding earliest
earliest-lt t zero i min_i n h k = k
earliest-lt t (suc left) i min_i n h k =
    earliest-lt t left (i + 1) _ n (omega (arith, h)) (ground (arith, h, k))

-- A table that differs from that of `s` in entry `k` only, which now blocks no pair but `from`, `to`.
record IsPut (s s' : Evictions) (k from to min_tick : ℕ) : Type 0 where
  elsewhere :
      (j : ℕ) → j ≢ k → get_or s'.evict_table j no_eviction ≡ get_or s.evict_table j no_eviction
  pair : is_pair (get_or s'.evict_table k no_eviction) from to ≡ true
  until : (get_or s'.evict_table k no_eviction).min_tick ≡ min_tick
  inside : k < s'.evict_len

set-IsPut :
    (s : Evictions) (k len from to : ℕ) (e : Eviction)
    → length s.evict_table ≡ 8
    → k < 8
    → k < len
    → is_pair e from to ≡ true
    → IsPut s (record { evict_table = set s.evict_table k e; evict_len = len }) k from to e.min_tick
set-IsPut s k len from to e size h less pair =
    let self = get_or-set_self s.evict_table k e no_eviction (omega (arith, h, size)) in
    record {
      elsewhere = λ j ne. get_or-set_ne s.evict_table k j e no_eviction (λ q. ne (sym q));
      pair = ap (λ (x : Eviction). is_pair x from to) self ∙ pair;
      until = ap (λ (x : Eviction). x.min_tick) self;
      inside = less;
    }

IsPut-blocked :
    (s s' : Evictions) (k from to min_tick tick : ℕ)
    → IsPut s s' k from to min_tick
    → tick < min_tick
    → in_evict_cooldown s' from to tick ≡ true
unfolding in_evict_cooldown blocks
IsPut-blocked s s' k from to min_tick tick h less =
    cooldown_loop-true from to tick s'.evict_table s'.evict_len 0 k (omega arith)
      (omega (arith, h.inside)) (ground (arith, h.pair, h.until, less))

other-unblocked :
    (e : Eviction) (from to x y tick : ℕ)
    → is_pair e from to ≡ true
    → (from == x) && (to == y) ≡ false
    → blocks e x y tick ≡ true
    → 1 ≤ 0
unfolding blocks
other-unblocked e from to x y tick pair other hit = ground (arith, pair, other, hit)

module _ (s s' : Evictions) (k from to min_tick x y tick : ℕ) (h : IsPut s s' k from to min_tick)
    (other : (from == x) && (to == y) ≡ false) where
  back :
      (j : ℕ)
      → BlockedBy x y tick s'.evict_table s'.evict_len j
      → (j ≢ k) × (blocks (get_or s.evict_table j no_eviction) x y tick ≡ true)
  back j (less, hit) = elim (ℕ_discrete j k) [
    | yes e ↦ absurd (
        omega (
          arith,
          other-unblocked (get_or s'.evict_table k no_eviction) from to x y tick h.pair other
              (ap (λ n. blocks (get_or s'.evict_table n no_eviction) x y tick) (sym e) ∙ hit),
        ))
    | no e ↦ (e, ap (λ q. blocks q x y tick) (sym (h.elsewhere j e)) ∙ hit)
  ]

  -- Where the old entry at `k` was not in use or was about the same pair, nothing changes for others.
  IsPut-same :
      ((j : ℕ) → j ≢ k → j < s'.evict_len → j < s.evict_len)
      → ((j : ℕ) → j < s.evict_len → j < s'.evict_len)
      → (k < s.evict_len → is_pair (get_or s.evict_table k no_eviction) from to ≡ true)
      → in_evict_cooldown s' x y tick ≡ in_evict_cooldown s x y tick
  IsPut-same fewer more old =
      cooldown-same x y tick s' s
        (λ j (less, hit). let (e, hit') = back j (less, hit) in (j, (fewer j e less, hit')))
        (λ j (less, hit). elim (ℕ_discrete j k) [
          | yes e ↦ absurd (
              omega (
                arith,
                other-unblocked (get_or s.evict_table k no_eviction) from to x y tick
                    (old (omega (arith, e, less))) other
                    (ap (λ n. blocks (get_or s.evict_table n no_eviction) x y tick) (sym e) ∙ hit),
              ))
          | no e ↦ (j, (more j less, ap (λ q. blocks q x y tick) (h.elsewhere j e) ∙ hit))
        ])

  -- In any case no other pair becomes blocked.
  IsPut-or :
      s'.evict_len ≡ s.evict_len
      → (in_evict_cooldown s' x y tick ≡ in_evict_cooldown s x y tick)
        ⊎ (in_evict_cooldown s' x y tick ≡ false)
  unfolding in_evict_cooldown
  IsPut-or size = elim (Bool-cases (in_evict_cooldown s' x y tick)) [
    | inr b ↦ inr b
    | inl b ↦
        let (j, (less, hit)) = cooldown_loop-some x y tick s'.evict_table s'.evict_len 0 b in
        let (e, hit') = back j (omega (arith, less), hit) in
        inl (
          b
          ∙ sym (
              cooldown_loop-true x y tick s.evict_table s.evict_len 0 j (omega arith)
                (omega (arith, less, size)) hit'))
  ]

-- A pair that is recorded may not have a channel for 72 ticks. For every other pair nothing changes,
-- but where all eight entries are in use another pair may be free again. The table has its eight entries
-- and the tick is far from the end of the 64-bit numbers.
pub record_eviction-cooldown :
    (s : Evictions) (from to tick x y within later : ℕ)
    → IsTable s
    → tick + 72 < 2 ^ 64
    → within < tick + 72
    → (from == x) && (to == y) ≡ false
    → let s' = record_eviction s from to tick in
      (in_evict_cooldown s' from to within ≡ true)
      × ((in_evict_cooldown s' x y later ≡ in_evict_cooldown s x y later)
          ⊎ ((s.evict_len ≡ 8) × (in_evict_cooldown s' x y later ≡ false)))
unfolding record_eviction
record_eviction-cooldown s from to tick x y within later h fits soon other =
    let min_tick = u64 (tick + 72) in
    let t = s.evict_table in
    let n = s.evict_len in
    let entry : Eviction = record { from = from; to = to; min_tick = min_tick } in
    let before : within < min_tick = omega (arith, fits, soon) in
    let same : is_pair entry from to ≡ true = ground arith in
    elim (Option-cases (find_eviction t n 0 from to)) [
      | inr (k, found) ↦
          let (less, pair) = find_eviction-some t n 0 from to k found in
          let p =
            set-IsPut s k n from to (record (get_or t k no_eviction) { min_tick = min_tick }) h.size
              (omega (arith, less, h.used)) (omega (arith, less)) pair in
          rw (found, record_eviction)
            (
              IsPut-blocked s _ k from to min_tick within p before,
              inl (
                  IsPut-same s _ k from to min_tick x y later p other (λ j ne q. q) (λ j q. q)
                    (λ q. pair)),
            )
      | inl missing ↦ elim (Bool-cases (ltb n 8)) [
        | inl room ↦
            let p =
              set-IsPut s n (n + 1) from to entry h.size (ground (arith, room)) (omega arith)
                same in
            rw (missing, room, record_eviction)
              (
                IsPut-blocked s _ n from to min_tick within p before,
                inl (
                    IsPut-same s _ n from to min_tick x y later p other
                      (λ j ne q. omega (arith, ne, q)) (λ j q. omega (arith, q))
                      (λ q. absurd (omega (arith, q)))),
              )
        | inr full ↦
            let size : n ≡ 8 = ground (arith, full, h.used) in
            let k = earliest t 7 1 0 in
            let k-lt : k < 8 = earliest-lt t 7 1 0 8 (omega arith) (omega arith) in
            let p = set-IsPut s k n from to entry h.size k-lt (omega (arith, k-lt, size)) same in
            rw (missing, full, record_eviction)
              (
                IsPut-blocked s _ k from to min_tick within p before,
                elim (IsPut-or s _ k from to min_tick x y later p other refl) [
                  | inl e ↦ inl e
                  | inr e ↦ inr (size, e)
                ],
              )
      ]
    ]
