-- ===== src/Process/Ipc/Registry.antt =====
-- The registry of fast channels of process/ipc_fast.rs as a map.
use chod_os.Base.{
  ℕ, ◌≡◌, refl, sym, ap, ◌∙◌, true, Option, none, some, List, [], ◌∷◌, arith, if◌then◌else◌,
  Option-cases, Bool-cases, inl, inr,
}
use chod_os.Process.Shared.{ChannelFrame}
use chod_os.Process.Channels.{
  Channels, same_pair, find_pair, put_pair, get_channel, create_channel, ensure_channel_cap,
}

find_pair-put_pair :
    (t : List ((ℕ × ℕ) × ℕ)) (a b c x y : ℕ)
    → find_pair (put_pair t (a, b) c) (x, y)
      ≡ (if same_pair (a, b) (x, y) then some c else find_pair t (x, y))
unfolding find_pair put_pair
find_pair-put_pair [] a b c x y = refl
find_pair-put_pair (((j, k), d) ∷ t) a b c x y = ground (arith, find_pair-put_pair t a b c x y)

module _ (phys_of : ℕ → ℕ) (pte : ℕ → Option ℕ) (frame : ChannelFrame) (s : Channels)
    (from to capacity : ℕ) where
  ensured-some :
      (c : ℕ)
      → find_pair s.table (from, to) ≡ some c
      → ensure_channel_cap phys_of pte frame s from to capacity ≡ (c, s)
  unfolding ensure_channel_cap
  ensured-some c found = rw (found, ensure_channel_cap) refl

  ensured-none :
      find_pair s.table (from, to) ≡ none
      → ensure_channel_cap phys_of pte frame s from to capacity
        ≡ create_channel phys_of pte frame s from to capacity
  unfolding ensure_channel_cap
  ensured-none missing = rw (missing, ensure_channel_cap) refl

  created-find :
      (x y : ℕ)
      → find_pair (create_channel phys_of pte frame s from to capacity).1.table (x, y) ≡ (
          if same_pair (from, to) (x, y)
          then some (create_channel phys_of pte frame s from to capacity).0
          else find_pair s.table (x, y))
  unfolding create_channel
  created-find x y =
      find_pair-put_pair s.table from to (create_channel phys_of pte frame s from to capacity).0 x y

same_pair_refl : (a b : ℕ) → same_pair (a, b) (a, b) ≡ true
same_pair_refl a b = ground arith

-- After a channel was asked for, the pair has it, a later request for the same pair answers the same
-- channel and changes nothing, whatever frame there is and whatever size is asked for, and every other
-- pair has the channel that it had.
pub ensure_channel_cap-get :
    (phys_of : ℕ → ℕ) (pte : ℕ → Option ℕ) (frame frame' : ChannelFrame) (s : Channels)
    (from to capacity capacity' x y : ℕ)
    → let (cap_id, s') = ensure_channel_cap phys_of pte frame s from to capacity in
      (get_channel s' from to ≡ some cap_id)
      × (ensure_channel_cap phys_of pte frame' s' from to capacity' ≡ (cap_id, s'))
      × (get_channel s' x y
          ≡ (if same_pair (from, to) (x, y) then some cap_id else get_channel s x y))
unfolding get_channel
ensure_channel_cap-get phys_of pte frame frame' s from to capacity capacity' x y =
    elim (Option-cases (find_pair s.table (from, to))) [
      | inr (c, found) ↦
          rw (ensured-some phys_of pte frame s from to capacity c found)
            (found, ensured-some phys_of pte frame' s from to capacity' c found, same c found)
      | inl missing ↦
          let k = create_channel phys_of pte frame s from to capacity in
          let there : find_pair k.1.table (from, to) ≡ some k.0 =
            created-find phys_of pte frame s from to capacity from to
            ∙ rw (same_pair_refl from to) refl in
          rw (ensured-none phys_of pte frame s from to capacity missing) (
            there,
            ensured-some phys_of pte frame' k.1 from to capacity' k.0 there,
            created-find phys_of pte frame s from to capacity x y,
          )
    ]
  where
    same :
        (c : ℕ)
        → find_pair s.table (from, to) ≡ some c
        → find_pair s.table (x, y)
          ≡ (if same_pair (from, to) (x, y) then some c else find_pair s.table (x, y))
    same c found = elim (Bool-cases (same_pair (from, to) (x, y))) [
      | inr e ↦ rw e refl
      | inl e ↦
          let here : from ≡ x = ground (arith, e) in
          let there : to ≡ y = ground (arith, e) in
          rw e (
            ap (λ q. find_pair s.table (q, y)) (sym here)
            ∙ ap (λ q. find_pair s.table (from, q)) (sym there)
            ∙ found)
    ]
