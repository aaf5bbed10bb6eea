-- ===== src/Policy/Pairs.antt =====
-- policy/mod.rs: how often pairs of processes exchange messages, in an array of sixteen entries.
pub mod Observed
pub mod Tests
use chod_os.Base.{
  ℕ, zero, suc, ◌+◌, ◌-◌, ◌^◌, Bool, true, false, not, ◌&&◌, Option, none, some, List, [], ◌∷◌,
  if◌then◌else◌, ◌==◌, ltb, get_or, set, min,
}

abbrev pub max_ipc_pairs : ℕ
max_ipc_pairs = 16

abbrev bayes_prior_alpha : ℕ
bayes_prior_alpha = 1

abbrev bayes_prior_beta : ℕ
bayes_prior_beta = 4

abbrev rl_noop : ℕ
rl_noop = 0

pub record IpcEntry : Type 0 where
  pub from : ℕ
  pub to : ℕ
  pub count : ℕ
  pub active : Bool
  pub last_count : ℕ
  pub cold_windows : ℕ
  pub rate_ema : ℕ
  pub payload_bytes_window : ℕ
  pub payload_ema : ℕ
  pub bayes_alpha : ℕ
  pub bayes_beta : ℕ
  pub delta_prev : ℕ
  pub rl_prev_state : ℕ
  pub rl_action : ℕ

abbrev pub empty : IpcEntry
empty = record {
  from = 0;
  to = 0;
  count = 0;
  active = false;
  last_count = 0;
  cold_windows = 0;
  rate_ema = 0;
  payload_bytes_window = 0;
  payload_ema = 0;
  bayes_alpha = bayes_prior_alpha;
  bayes_beta = bayes_prior_beta;
  delta_prev = 0;
  rl_prev_state = 0;
  rl_action = rl_noop;
}

abbrev pub new_entry : ℕ → ℕ → ℕ → ℕ → IpcEntry
new_entry from to count payload_bytes = record empty {
  from = from;
  to = to;
  count = count;
  active = true;
  payload_bytes_window = payload_bytes;
}

-- The index of the first entry that passes the test.
unfoldable pub position : (IpcEntry → Bool) → List IpcEntry → Option ℕ
position test [] = none
position test (e ∷ es) =
    let later : Option ℕ = elim (position test es) [ none ↦ none | some k ↦ some (suc k) ] in
    if test e then some 0 else later

abbrev pub is_entry : ℕ → ℕ → IpcEntry → Bool
is_entry from to e = e.active && (e.from == from) && (e.to == to)

-- Of entry `min_i` and the `left` entries from `i` on, the first with the fewest messages.
unfoldable pub fewest : List IpcEntry → ℕ → ℕ → ℕ → ℕ
fewest t zero i min_i = min_i
fewest t (suc left) i min_i =
    fewest t left (i + 1)
      (if ltb (get_or t i empty).count (get_or t min_i empty).count then i else min_i)

abbrev pub counted : IpcEntry → ℕ → ℕ → IpcEntry
counted e count payload_bytes = record e {
  count = count;
  payload_bytes_window = min (e.payload_bytes_window + payload_bytes) (2 ^ 64 - 1);
}

unfoldable pub observe_ipc : List IpcEntry → ℕ → ℕ → ℕ → ℕ → List IpcEntry
observe_ipc t from to count payload_bytes = elim (position (is_entry from to) t) [
  | some i ↦ set t i (counted (get_or t i empty) count payload_bytes)
  | none ↦ elim (position (λ e. not e.active) t) [
    | some i ↦ set t i (new_entry from to count payload_bytes)
    | none ↦ set t (fewest t (max_ipc_pairs - 1) 1 0) (new_entry from to count payload_bytes)
  ]
]
