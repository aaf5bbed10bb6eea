-- ===== src/Syscall/Epoll/Remove.antt =====
-- `EPOLL_CTL_DEL` of syscall/pipe.rs.
use chod_os.Base.{
  ℕ, ◌-◌, ◌<◌, ◌≡◌, ◌≢◌, refl, sym, ap, ◌∙◌, none, some, List, arith, if◌then◌else◌, ◌==◌, ltb, inl,
  inr, length, get_or, set, length-set, get_or-set_self, get_or-set_ne, ℕ_discrete,
}
use chod_os.Syscall.Pipe.{no_fd}
use chod_os.Syscall.Epoll.{Epoll, epoll_max, remove_entry, move_last, sys_epoll_create}
use chod_os.Syscall.Epoll.Interest.{
  IsValid, entry, interest, interest_at, interest-none, interest_cases, find_fd_cases,
}

-- Which old entry stands at place `j` after the last has moved to place `i`.
abbrev source : ℕ → ℕ → ℕ → ℕ
source i last j = if i == j then last else j

move_last-get :
    (xs : List ℕ) (i last j : ℕ)
    → i < length xs
    → j < last
    → get_or (if ltb i last then set xs i (get_or xs last 0) else xs) j 0
      ≡ get_or xs (source i last j) 0
move_last-get xs i last j h p = elim (ℕ_discrete i j) [
  | yes e ↦ ground (
    arith,
    e,
    get_or-set_self xs i (get_or xs last 0) 0 h,
    ap (λ (k : ℕ). get_or (set xs i (get_or xs last 0)) k 0) e,
  )
  | no ne ↦ ground (arith, get_or-set_ne xs i j (get_or xs last 0) 0 ne)
]

moved-length :
    (xs : List ℕ) (i last : ℕ)
    → length (if ltb i last then set xs i (get_or xs last 0) else xs) ≡ length xs
moved-length xs i last = ground (arith, length-set xs i (get_or xs last 0))

module _ (e : Epoll) (fd i : ℕ) (v : IsValid e) (h : i < e.cnt) (same : get_or e.fds i 0 ≡ fd) where
  last : ℕ
  last = e.cnt - 1

  removed : Epoll
  removed = record (move_last e i last) {
    fds = set (move_last e i last).fds last no_fd;
    cnt = e.cnt - 1;
  }

  removed_old :
      (j : ℕ)
      → j < last
      → (get_or removed.fds j 0 ≡ get_or e.fds (source i last j) 0)
        × (entry removed j ≡ entry e (source i last j))
  unfolding removed last move_last
  removed_old j p = ground (
    arith,
    v.within,
    v.whole_fds,
    v.whole_evs,
    v.whole_datas,
    get_or-set_ne (move_last e i last).fds last j no_fd 0 (omega arith),
    move_last-get e.fds i last j (omega (arith, v.within, v.whole_fds)) p,
    move_last-get e.evs i last j (omega (arith, v.within, v.whole_evs)) p,
    move_last-get e.datas i last j (omega (arith, v.within, v.whole_datas)) p,
  )

  removed-IsValid : IsValid removed
  unfolding removed last move_last
  removed-IsValid = record {
    whole_fds = ground (
      arith,
      length-set (move_last e i last).fds last no_fd,
      moved-length e.fds i last,
      v.whole_fds,
    );
    whole_evs = ground (arith, moved-length e.evs i last, v.whole_evs);
    whole_datas = ground (arith, moved-length e.datas i last, v.whole_datas);
    within = omega (arith, v.within);
    distinct = λ j k p q same_fd. ground (
      arith,
      source_inj j k p q (
          v.distinct (source i last j) (source i last k) (source_in j p) (source_in k q)
            (sym (removed_old j p).0 ∙ same_fd ∙ (removed_old k q).0)),
    );
  }
    where
      source_in : (j : ℕ) → j < last → source i last j < e.cnt
      source_in j p = ground arith

      source_inj : (j k : ℕ) → j < last → k < last → source i last j ≡ source i last k → j ≡ k
      source_inj j k p q eq = ground arith

  removed-interest : (g : ℕ) → interest removed g ≡ (if fd == g then none else interest e g)
  unfolding removed last move_last
  removed-interest g = elim (interest_cases e g v) [
    | inl (absent_is, none_there) ↦
        interest-none removed g
          (λ j p at_j. none_there (source i last j) (ground arith) (sym (removed_old j p).0 ∙ at_j))
        ∙ ground (arith, absent_is)
    | inr (k, found, p, at_k) ↦ elim (ℕ_discrete k i) [
      | yes here ↦
          interest-none removed g (λ j q at_j. gone k here p at_k j q at_j)
          ∙ ground (arith, same, at_k, ap (λ (k : ℕ). get_or e.fds k 0) here)
      | no other ↦
          interest_at removed g (target k) removed-IsValid (target_in k p other)
            ((removed_old (target k) (target_in k p other)).0 ∙ source_target k p other ∙ at_k)
          ∙ ap (λ o. some o)
              ((removed_old (target k) (target_in k p other)).1
                ∙ ap (entry e) {x = source i last (target k)} {y = k} (ground arith))
          ∙ ground (arith, found, v.distinct k i p h, same, at_k)
    ]
  ]
    where
      target : ℕ → ℕ
      target k = if k == last then i else k

      target_in : (k : ℕ) → k < e.cnt → k ≢ i → target k < last
      target_in k p ne = ground arith

      source_target :
          (k : ℕ) → k < e.cnt → k ≢ i → get_or e.fds (source i last (target k)) 0 ≡ get_or e.fds k 0
      source_target k p ne =
          ap (λ j. get_or e.fds j 0) {x = source i last (target k)} {y = k} (ground arith)

      gone :
          (k : ℕ)
          → k ≡ i
          → k < e.cnt
          → get_or e.fds k 0 ≡ g
          → (j : ℕ) → j < last
          → get_or removed.fds j 0 ≡ g
          → ⊥
      gone k here p at_k j q at_j =
          let meet : source i last j ≡ k =
            v.distinct (source i last j) k (ground arith) p
              (sym (removed_old j q).0 ∙ at_j ∙ sym at_k) in
          ground (arith, meet)

-- Removing a file number from a valid table leaves it unwatched, whether or not it was watched, and
-- every other number watched as it was, though the entries may have changed places.
pub remove_entry-interest :
    (e : Epoll) (fd : ℕ)
    → IsValid e
    → IsValid (remove_entry e fd)
      × ((g : ℕ) → interest (remove_entry e fd) g ≡ (if fd == g then none else interest e g))
unfolding remove_entry removed last
remove_entry-interest e fd v = elim (find_fd_cases e.cnt 0 e.fds fd) [
  | inl (found, none_there) ↦
      let absent = λ (i : ℕ) (p : i < e.cnt). none_there i (omega arith) (omega arith) in
      rw (found, remove_entry)
        (v, λ g. ground (arith, interest-none e fd absent, ap (interest e) {x = fd} {y = g}))
  | inr (i, found, _, h, same) ↦
      let here : i < e.cnt = omega arith in
      rw (found, remove_entry)
        (removed-IsValid e fd i v here same, removed-interest e fd i v here same)
]

-- A new instance is valid and watches nothing, whatever the table held.
pub sys_epoll_create-interest :
    (e : Epoll) (flags : ℕ)
    → length e.evs ≡ epoll_max
    → length e.datas ≡ epoll_max
    → let (res, e') = sys_epoll_create e flags in IsValid e' × ((g : ℕ) → interest e' g ≡ none)
unfolding sys_epoll_create
sys_epoll_create-interest e flags a b = (
  record {
    whole_fds = refl;
    whole_evs = a;
    whole_datas = b;
    within = omega arith;
    distinct = λ i j p q _. absurd (omega arith);
  },
  λ g. interest-none _ g (λ i p. absurd (omega arith)),
)
