-- ===== src/Process/Switching/Choice.antt =====
-- The process that `switch_to_next` of process/scheduler.rs should choose, and that it does.
use chod_os.Base.{
  ℕ, ◌+◌, ◌-◌, ◌*◌, ◌%◌, ◌≤◌, ◌<◌, ◌≡◌, refl, sym, ap, ◌∙◌, true, false, Option, none, some, List,
  arith, if◌then◌else◌, ltb, subst, dec_lt, length, get_or, inl, inr, ◌⊎◌,
}
use native.Mathlib.Nat.{mod-eq_of_lt, add-mul-mod_self_right, mod-lt}
use chod_os.Process.Pcb.{Process, new_kernel_main}
use chod_os.Process.Scheduler.{is_ready}
use chod_os.Process.Switching.{Best, best_from}
use chod_os.Process.Switching.Select.{seat, Found, Scanned, score, best_from-Scanned}

-- In how many rounds the loop comes from `start` to `j`.
abbrev pub rounds_to : ℕ → ℕ → ℕ → ℕ
rounds_to n start j = if ltb start j then j - start else j + n - start

rounds_to_lem : (n start j : ℕ) → start < n → j < n → (start + rounds_to n start j) % n ≡ j
rounds_to_lem n start j p q = elim (dec_lt start j) [
  | yes after ↦
      ap (λ k. k % n) {x = start + rounds_to n start j} {y = j} (ground arith) ∙ mod-eq_of_lt q
  | no before ↦
      ap (λ k. k % n) {x = start + rounds_to n start j} {y = j + 1 * n} (ground arith)
      ∙ add-mul-mod_self_right j 1 n
      ∙ mod-eq_of_lt q
]

rounds_to_back :
    (n start i : ℕ) → start < n → 1 ≤ i → i ≤ n → rounds_to n start ((start + i) % n) ≡ i
rounds_to_back n start i p q r = elim (dec_lt (start + i) n) [
  | yes plain ↦ let here : (start + i) % n ≡ start + i = mod-eq_of_lt plain in ground (arith, here)
  | no around ↦
      let back : (start + i) % n ≡ start + i - n =
        ap (λ k. k % n) {x = start + i} {y = start + i - n + 1 * n} (omega arith)
        ∙ add-mul-mod_self_right (start + i - n) 1 n
        ∙ mod-eq_of_lt (omega arith) in
      ground (arith, back)
]

-- The process that the scheduler should choose: a ready one with the highest score and, among those, the
-- first that a turn around the table from behind `start` meets.
pub record IsChoice (now cpu : ℕ) (ps : List Process) (start next : ℕ) : Type 0 where
  pub within : next < length ps
  pub is : is_ready (get_or ps next new_kernel_main) ≡ true
  pub best :
      (j : ℕ)
      → j < length ps
      → is_ready (get_or ps j new_kernel_main) ≡ true
      → score now cpu (get_or ps j new_kernel_main) ≤ score now cpu (get_or ps next new_kernel_main)
  pub first :
      (j : ℕ)
      → j < length ps
      → is_ready (get_or ps j new_kernel_main) ≡ true
      → score now cpu (get_or ps j new_kernel_main) ≡ score now cpu (get_or ps next new_kernel_main)
      → rounds_to (length ps) start next ≤ rounds_to (length ps) start j

abbrev pub NoneReady : List Process → Type 0
NoneReady ps = (j : ℕ) → j < length ps → is_ready (get_or ps j new_kernel_main) ≡ false

pub best_from_cases :
    (now cpu : ℕ) (ps : List Process) (start : ℕ)
    → start < length ps
    → ((best_from now cpu ps start (length ps) none ≡ none) × NoneReady ps)
      ⊎ ((b : Best) × (best_from now cpu ps start (length ps) none ≡ some b)
          × IsChoice now cpu ps start b.idx)
unfolding Scanned
best_from_cases now cpu ps start h = go (best_from now cpu ps start (length ps) none) refl (
    best_from-Scanned now cpu ps start (length ps) 0 none (omega arith)
      (λ i p q. absurd (omega arith)))
  where
    place : (j : ℕ) → j < length ps → (start + rounds_to (length ps) start j) % length ps ≡ j
    place j p = rounds_to_lem (length ps) start j h p

    choice :
        (b : Best) (f : Found now cpu ps start (length ps) b)
        → IsChoice now cpu ps start ((start + f.round) % length ps)
    choice b f = record {
      within = mod-lt (start + f.round) (omega arith);
      is = f.is;
      best = λ j p r.
          subst
            (λ i.
              score now cpu (get_or ps i new_kernel_main)
              ≤ score now cpu (seat now cpu ps start f.round))
            (place j p)
            (f.best (rounds_to (length ps) start j) (ground arith) (ground arith)
              (ap (λ i. is_ready (get_or ps i new_kernel_main)) (place j p) ∙ r));
      first = λ j p r e. elim (dec_lt (rounds_to (length ps) start j) f.round) [
        | no later ↦ omega (arith, rounds_to_back (length ps) start f.round h f.from f.upto)
        | yes sooner ↦ absurd (
            omega (
              arith,
              e,
              f.first (rounds_to (length ps) start j) (ground arith) sooner
                  (ap (λ i. is_ready (get_or ps i new_kernel_main)) (place j p) ∙ r),
              ap (λ i. score now cpu (get_or ps i new_kernel_main)) (place j p),
            ))
      ];
    }

    go :
        (best : Option Best)
        → best_from now cpu ps start (length ps) none ≡ best
        → Scanned now cpu ps start (length ps) best
        → ((best_from now cpu ps start (length ps) none ≡ none) × NoneReady ps)
          ⊎ ((b : Best) × (best_from now cpu ps start (length ps) none ≡ some b)
              × IsChoice now cpu ps start b.idx)
    go none e none_ready = inl (
      e,
      λ j p.
          ap (λ i. is_ready (get_or ps i new_kernel_main)) (sym (place j p))
          ∙ none_ready (rounds_to (length ps) start j) (ground arith) (ground arith),
    )
    go (some b) e f = inr (b, e, subst (IsChoice now cpu ps start) (sym f.place) (choice b f))
