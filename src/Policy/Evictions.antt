-- ===== src/Policy/Evictions.antt =====
-- policy/mod.rs: the pairs of processes whose fast channel was taken away, and may not have another one
-- for a while. The table is an array of eight entries, of which the first ones are in use.

pub mod Cooldown
pub mod Expire
pub mod Record
pub mod Tests
use chod_os.Base.{
  ℕ, zero, suc, ◌+◌, ◌-◌, ◌%◌, ◌^◌, Bool, true, false, not, ◌&&◌, Option, none, some, List, [], ◌∷◌,
  if◌then◌else◌, ◌==◌, ltb, leb, get_or, set, replicate,
}
use chod_os.Base.Words.{u64}

abbrev pub max_evict_pairs : ℕ
max_evict_pairs = 8

abbrev pub channel_recreate_cooldown_ticks : ℕ
channel_recreate_cooldown_ticks = 72

pub record Eviction : Type 0 where
  pub from : ℕ
  pub to : ℕ
  pub min_tick : ℕ

pub record Evictions : Type 0 where
  pub evict_table : List Eviction
  pub evict_len : ℕ

abbrev pub no_eviction : Eviction
no_eviction = record { from = 0; to = 0; min_tick = 0 }

unfoldable pub new_const : Evictions
new_const = record { evict_table = replicate max_evict_pairs no_eviction; evict_len = 0 }

abbrev pub is_pair : Eviction → ℕ → ℕ → Bool
is_pair e from to = (e.from == from) && (e.to == to)

unfoldable pub blocks : Eviction → ℕ → ℕ → ℕ → Bool
blocks e from to tick = is_pair e from to && ltb tick e.min_tick

-- `left` rounds of the loop, from entry `i` on.
unfoldable pub cooldown_loop : List Eviction → ℕ → ℕ → ℕ → ℕ → ℕ → Bool
cooldown_loop t zero i from to tick = false
cooldown_loop t (suc left) i from to tick =
    let later = cooldown_loop t left (i + 1) from to tick in
    if blocks (get_or t i no_eviction) from to tick then true else later

unfoldable pub in_evict_cooldown : Evictions → ℕ → ℕ → ℕ → Bool
in_evict_cooldown s from to tick = cooldown_loop s.evict_table s.evict_len 0 from to tick

unfoldable pub find_eviction : List Eviction → ℕ → ℕ → ℕ → ℕ → Option ℕ
find_eviction t zero i from to = none
find_eviction t (suc left) i from to =
    let later = find_eviction t left (i + 1) from to in
    if is_pair (get_or t i no_eviction) from to then some i else later

-- The entry that may be forgotten first, of those from `i` on and of `min_i`.
unfoldable pub earliest : List Eviction → ℕ → ℕ → ℕ → ℕ
earliest t zero i min_i = min_i
earliest t (suc left) i min_i = earliest t left (i + 1) (
    if ltb (get_or t i no_eviction).min_tick (get_or t min_i no_eviction).min_tick
    then i
    else min_i)

unfoldable pub record_eviction : Evictions → ℕ → ℕ → ℕ → Evictions
record_eviction s from to tick =
    let min_tick = u64 (tick + channel_recreate_cooldown_ticks) in
    let entry : Eviction = record { from = from; to = to; min_tick = min_tick } in
    let t = s.evict_table in
    elim (find_eviction t s.evict_len 0 from to) [
      | some i ↦ record s {
        evict_table = set t i (record (get_or t i no_eviction) { min_tick = min_tick });
      }
      | none ↦
          if ltb s.evict_len max_evict_pairs
          then record { evict_table = set t s.evict_len entry; evict_len = s.evict_len + 1 }
          else record s { evict_table = set t (earliest t (max_evict_pairs - 1) 1 0) entry }
    ]

-- The last entry moves into the place of one that expired. Every round takes an entry off or goes on to
-- the next one, so that `evict_len` rounds look at all of them.
unfoldable pub expire_loop : ℕ → ℕ → ℕ → Evictions → Evictions
expire_loop zero i tick s = s
expire_loop (suc left) i tick s =
    let last = s.evict_len - 1 in
    let moved = set s.evict_table i (get_or s.evict_table last no_eviction) in
    let taken =
      expire_loop left i tick
        (record { evict_table = set moved last no_eviction; evict_len = last }) in
    let kept = expire_loop left (i + 1) tick s in
    if leb (get_or s.evict_table i no_eviction).min_tick tick then taken else kept

unfoldable pub expire_evictions : Evictions → ℕ → Evictions
expire_evictions s tick = expire_loop s.evict_len 0 tick s
