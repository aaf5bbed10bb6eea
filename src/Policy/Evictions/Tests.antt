-- ===== src/Policy/Evictions/Tests.antt =====
-- A full table, and one with an entry that has expired.
use chod_os.Base.{
  ltb, leb, ◌&&◌, false, ℕ, ◌≡◌, refl, true, false, [], ◌∷◌, ◌++◌, arith, replicate, get_or, ◌⊎◌,
}
use chod_os.Policy.Evictions.{
  Eviction, Evictions, no_eviction, in_evict_cooldown, record_eviction, expire_evictions,
  expire_loop, cooldown_loop, find_eviction, blocks, earliest,
}
use chod_os.Policy.Evictions.Cooldown.{IsTable}
use chod_os.Policy.Evictions.Expire.{expire_evictions-cooldown}
use chod_os.Policy.Evictions.Record.{record_eviction-cooldown}

abbrev of_pair : ℕ → ℕ → Eviction
of_pair from min_tick = record { from = from; to = 9; min_tick = min_tick }

abbrev full : Evictions
full = record {
  evict_table =
      of_pair 1 500 ∷ of_pair 2 400 ∷ of_pair 3 300 ∷ of_pair 4 350 ∷ replicate 4 (of_pair 5 600);
  evict_len = 8;
}

abbrev half : Evictions
half = record {
  evict_table = (of_pair 1 500 ∷ of_pair 2 400 ∷ of_pair 3 300 ∷ []) ++ replicate 5 no_eviction;
  evict_len = 3;
}

full-IsTable : IsTable full
full-IsTable = record { size = refl; used = omega arith }

half-IsTable : IsTable half
half-IsTable = record { size = refl; used = omega arith }

-- The entry with the earliest tick gives way.
record_full : in_evict_cooldown (record_eviction full 7 9 290) 3 9 295 ≡ false
unfolding in_evict_cooldown record_eviction cooldown_loop find_eviction blocks earliest
record_full = refl

record_eviction-cooldown_example :
    let s' = record_eviction full 7 9 290 in
    (in_evict_cooldown s' 7 9 361 ≡ true)
    × ((in_evict_cooldown s' 3 9 295 ≡ in_evict_cooldown full 3 9 295)
        ⊎ ((full.evict_len ≡ 8) × (in_evict_cooldown s' 3 9 295 ≡ false)))
record_eviction-cooldown_example =
    record_eviction-cooldown full 7 9 290 3 9 361 295 full-IsTable (omega arith) (omega arith) refl

expire_evictions-cooldown_example :
    let s' = expire_evictions half 350 in
    (in_evict_cooldown s' 2 9 380 ≡ in_evict_cooldown half 2 9 380)
    × (ltb 1 s'.evict_len && leb (get_or s'.evict_table 1 no_eviction).min_tick 350 ≡ false)
    × IsTable s'
unfolding expire_evictions expire_loop
expire_evictions-cooldown_example =
    expire_evictions-cooldown half 2 9 350 380 1 half-IsTable (omega arith)
