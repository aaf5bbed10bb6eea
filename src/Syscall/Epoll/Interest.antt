-- ===== src/Syscall/Epoll/Interest.antt =====
-- The table of `epoll` in syscall/pipe.rs as a map from file numbers to events and payloads.
use chod_os.Base.{
  ℕ, zero, suc, ◌+◌, ◌≤◌, ◌<◌, ◌≡◌, ◌≢◌, refl, sym, ap, ◌∙◌, Bool, true, false, Option, none, some,
  List, arith, inl, inr, ◌⊎◌, length, get_or, ℕ_discrete,
}
use chod_os.Syscall.Epoll.{Epoll, epoll_max, find_fd}

pub find_fd_cases :
    (left i : ℕ) (fds : List ℕ) (fd : ℕ)
    → ((find_fd left i fds fd ≡ none) × ((j : ℕ) → i ≤ j → j < i + left → get_or fds j 0 ≢ fd))
      ⊎ ((j : ℕ) × (find_fd left i fds fd ≡ some j)
          × (i ≤ j)
          × (j < i + left)
          × (get_or fds j 0 ≡ fd))
unfolding find_fd
find_fd_cases zero i fds fd = inl (refl, λ j p q. absurd (omega arith))
find_fd_cases (suc left) i fds fd = elim (ℕ_discrete (get_or fds i 0) fd) [
  | yes e ↦ inr (i, ground arith, omega arith, omega arith, e)
  | no ne ↦ elim (find_fd_cases left (i + 1) fds fd) [
    | inl (e, h) ↦ inl (
      ground arith,
      λ j p q. elim (ℕ_discrete i j) [
        | yes here ↦ λ same. ne (ap (λ (k : ℕ). get_or fds k 0) here ∙ same)
        | no later ↦ h j (omega arith) (omega arith)
      ],
    )
    | inr (j, e, p, q, same) ↦ inr (j, ground arith, omega arith, omega arith, same)
  ]
]

-- The arrays are whole, and no file number is watched twice.
pub record IsValid (e : Epoll) : Type 0 where
  pub whole_fds : length e.fds ≡ epoll_max
  pub whole_evs : length e.evs ≡ epoll_max
  pub whole_datas : length e.datas ≡ epoll_max
  pub within : e.cnt ≤ epoll_max
  pub distinct : (i j : ℕ) → i < e.cnt → j < e.cnt → get_or e.fds i 0 ≡ get_or e.fds j 0 → i ≡ j

abbrev pub entry : Epoll → ℕ → ℕ × ℕ
entry e i = (get_or e.evs i 0, get_or e.datas i 0)

abbrev pub at : Epoll → Option ℕ → Option (ℕ × ℕ)
at e none = none
at e (some i) = some (entry e i)

-- The events and the payload that a file number is watched for.
pub interest : Epoll → ℕ → Option (ℕ × ℕ)
interest e fd = at e (find_fd e.cnt 0 e.fds fd)

pub interest_at :
    (e : Epoll) (fd i : ℕ)
    → IsValid e
    → i < e.cnt
    → get_or e.fds i 0 ≡ fd
    → interest e fd ≡ some (entry e i)
unfolding interest
interest_at e fd i v h same = elim (find_fd_cases e.cnt 0 e.fds fd) [
  | inl (_, none_there) ↦ absurd (none_there i (omega arith) (omega arith) same)
  | inr (j, found, p, q, same') ↦
      let there : j ≡ i = v.distinct j i (omega arith) h (same' ∙ sym same) in
      ap (at e) found ∙ ap (λ k. some (entry e k)) there
]

pub interest-none :
    (e : Epoll) (fd : ℕ) → ((i : ℕ) → i < e.cnt → get_or e.fds i 0 ≢ fd) → interest e fd ≡ none
unfolding interest
interest-none e fd h = elim (find_fd_cases e.cnt 0 e.fds fd) [
  | inl (found, _) ↦ ap (at e) found
  | inr (j, found, p, q, same) ↦ absurd (h j (omega arith) same)
]

-- To compare two tables at `g` it is enough to know where `g` stands in the first.
pub interest_cases :
    (e : Epoll) (g : ℕ)
    → IsValid e
    → ((interest e g ≡ none) × ((i : ℕ) → i < e.cnt → get_or e.fds i 0 ≢ g))
      ⊎ ((i : ℕ) × (interest e g ≡ some (entry e i)) × (i < e.cnt) × (get_or e.fds i 0 ≡ g))
interest_cases e g v = elim (find_fd_cases e.cnt 0 e.fds g) [
  | inl (_, h) ↦
      let absent = λ (i : ℕ) (p : i < e.cnt). h i (omega arith) (omega arith) in
      inl (interest-none e g absent, absent)
  | inr (i, _, p, q, same) ↦ inr (i, interest_at e g i v (omega arith) same, omega arith, same)
]

abbrev pub is_watched : Option (ℕ × ℕ) → Bool
is_watched none = false
is_watched (some _) = true
