-- ===== src/Policy/Pairs/Tests.antt =====
-- A full table, in which the pair of 1 and 9 has the fewest messages.
use chod_os.Base.{
  zero, suc, ◌+◌, ◌*◌, ℕ, [], true, ◌≡◌, ◌≤◌, refl, not, none, some, List, ◌∷◌, arith, get_or, ◌⊎◌,
}
use chod_os.Policy.Pairs.{is_entry, IpcEntry, empty, new_entry, position, fewest, observe_ipc}
use chod_os.Policy.Pairs.Observed.{NoDoubles, entry_of, after_message, observe_ipc-entry_of}

-- Sixteen pairs with the receiver 9, the later ones with more messages.
abbrev senders : ℕ → ℕ → List IpcEntry
senders zero i = []
senders (suc n) i = new_entry i 9 (i * 10) 64 ∷ senders n (i + 1)

senders_at : (n i k x y : ℕ) → is_entry x y (get_or (senders n i) k empty) ≡ true → x ≡ i + k
senders_at zero i k x y hit = ground (arith, hit)
senders_at (suc n) i zero x y hit = ground (arith, hit)
senders_at (suc n) i (suc k) x y hit = omega (arith, senders_at n (i + 1) k x y hit)

abbrev full : List IpcEntry
full = senders 16 1

full-NoDoubles : NoDoubles full
full-NoDoubles = record {
  once = λ i k x y hit hit'. omega (arith, senders_at 16 1 i x y hit, senders_at 16 1 k x y hit');
}

gives_way : entry_of (observe_ipc full 27 9 1 32) 1 9 ≡ none
unfolding entry_of observe_ipc position fewest
gives_way = refl

observe_ipc-entry_of_example :
    let t' = observe_ipc full 27 9 1 32 in
    (entry_of t' 27 9 ≡ some (after_message (entry_of full 27 9) 27 9 1 32))
    × NoDoubles t'
    × ((entry_of t' 1 9 ≡ entry_of full 1 9)
        ⊎ ((entry_of full 27 9 ≡ none)
            × (position (λ e. not e.active) full ≡ none)
            × (entry_of t' 1 9 ≡ none)
            × (e : IpcEntry) × (entry_of full 1 9 ≡ some e)
            × (e.count ≤ (get_or full 5 empty).count)))
observe_ipc-entry_of_example =
    observe_ipc-entry_of full 27 9 1 32 1 9 5 refl full-NoDoubles refl (omega arith)
