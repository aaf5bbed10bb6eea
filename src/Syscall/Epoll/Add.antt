-- ===== src/Syscall/Epoll/Add.antt =====
-- `EPOLL_CTL_ADD` and `EPOLL_CTL_MOD` of syscall/pipe.rs.
use chod_os.Base.{
  ℕ, ◌+◌, ◌<◌, ◌≡◌, ◌≢◌, sym, ap, ◌∙◌, false, some, arith, if◌then◌else◌, ◌==◌, ◌&&◌, ◌||◌, ltb,
  lt→ltb, inl, inr, get_or, set, length-set, get_or-set_self, get_or-set_ne, ℕ_discrete, dec_lt,
}
use chod_os.Syscall.Epoll.{Epoll, epoll_max, add_entry}
use chod_os.Syscall.Epoll.Interest.{
  IsValid, entry, interest, interest_at, interest-none, interest_cases, find_fd_cases, is_watched,
}

module _ (e : Epoll) (fd events payload : ℕ) (v : IsValid e) where
  updated : ℕ → Epoll
  updated i = record e { evs = set e.evs i events; datas = set e.datas i payload }

  updated-IsValid : (i : ℕ) → IsValid (updated i)
  unfolding updated
  updated-IsValid i = record {
    whole_fds = v.whole_fds;
    whole_evs = length-set e.evs i events ∙ v.whole_evs;
    whole_datas = length-set e.datas i payload ∙ v.whole_datas;
    within = v.within;
    distinct = v.distinct;
  }

  entry-updated :
      (i j : ℕ)
      → i < e.cnt
      → entry (updated i) j ≡ (if i == j then (events, payload) else entry e j)
  unfolding updated
  entry-updated i j h = elim (ℕ_discrete i j) [
    | yes same ↦ ground (
      arith,
      same,
      v.within,
      v.whole_evs,
      v.whole_datas,
      get_or-set_self e.evs i events 0,
      get_or-set_self e.datas i payload 0,
      ap (λ (k : ℕ). get_or (set e.evs i events) k 0) same,
      ap (λ (k : ℕ). get_or (set e.datas i payload) k 0) same,
    )
    | no ne ↦
        ground (arith, get_or-set_ne e.evs i j events 0 ne, get_or-set_ne e.datas i j payload 0 ne)
  ]

  updated-interest :
      (i : ℕ)
      → i < e.cnt
      → get_or e.fds i 0 ≡ fd
      → (g : ℕ)
      → interest (updated i) g ≡ (if fd == g then some (events, payload) else interest e g)
  unfolding updated
  updated-interest i h same g = elim (interest_cases e g v) [
    | inl (absent_is, absent) ↦
        let other : (fd == g) ≡ false = ground (arith, absent i h) in
        rw (other, absent_is) (interest-none (updated i) g absent)
    | inr (j, found, p, at_j) ↦
        interest_at (updated i) g j (updated-IsValid i) p at_j
        ∙ ap (λ o. some o) (entry-updated i j h)
        ∙ ground (
          arith,
          found,
          same,
          at_j,
          v.distinct i j h p,
          ap (λ (k : ℕ). get_or e.fds k 0) {x = i} {y = j},
        )
  ]

  -- A new entry behind the others.
  appended : Epoll
  appended = record {
    fds = set e.fds e.cnt fd;
    evs = set e.evs e.cnt events;
    datas = set e.datas e.cnt payload;
    cnt = e.cnt + 1;
  }

  module _ (room : e.cnt < epoll_max) (absent : (i : ℕ) → i < e.cnt → get_or e.fds i 0 ≢ fd) where
    appended_old :
        (i : ℕ)
        → i < e.cnt
        → (get_or appended.fds i 0 ≡ get_or e.fds i 0) × (entry appended i ≡ entry e i)
    unfolding appended
    appended_old i h = ground (
      arith,
      get_or-set_ne e.fds e.cnt i fd 0 (omega arith),
      get_or-set_ne e.evs e.cnt i events 0 (omega arith),
      get_or-set_ne e.datas e.cnt i payload 0 (omega arith),
    )

    appended_new : (get_or appended.fds e.cnt 0 ≡ fd) × (entry appended e.cnt ≡ (events, payload))
    unfolding appended
    appended_new = ground (
      arith,
      v.whole_fds,
      v.whole_evs,
      v.whole_datas,
      get_or-set_self e.fds e.cnt fd 0,
      get_or-set_self e.evs e.cnt events 0,
      get_or-set_self e.datas e.cnt payload 0,
    )

    appended-distinct :
        (i j : ℕ)
        → i < e.cnt + 1
        → j < e.cnt + 1
        → get_or appended.fds i 0 ≡ get_or appended.fds j 0
        → i ≡ j
    appended-distinct i j p q same = elim (dec_lt i e.cnt) [
      | yes old_i ↦ elim (dec_lt j e.cnt) [
        | yes old_j ↦
            v.distinct i j old_i old_j
              (sym (appended_old i old_i).0 ∙ same ∙ (appended_old j old_j).0)
        | no new_j ↦
            let last : j ≡ e.cnt = omega arith in
            absurd (
              absent i old_i (
                sym (appended_old i old_i).0
                ∙ same
                ∙ ap (λ k. get_or appended.fds k 0) last
                ∙ appended_new.0))
      ]
      | no new_i ↦ elim (dec_lt j e.cnt) [
        | yes old_j ↦
            let last : i ≡ e.cnt = omega arith in
            absurd (
              absent j old_j (
                sym (appended_old j old_j).0
                ∙ sym same
                ∙ ap (λ k. get_or appended.fds k 0) last
                ∙ appended_new.0))
        | no new_j ↦ omega arith
      ]
    ]

    appended-IsValid : IsValid appended
    unfolding appended
    appended-IsValid = record {
      whole_fds = length-set e.fds e.cnt fd ∙ v.whole_fds;
      whole_evs = length-set e.evs e.cnt events ∙ v.whole_evs;
      whole_datas = length-set e.datas e.cnt payload ∙ v.whole_datas;
      within = omega arith;
      distinct = appended-distinct;
    }

    appended-interest :
        (g : ℕ) → interest appended g ≡ (if fd == g then some (events, payload) else interest e g)
    unfolding appended
    appended-interest g = elim (ℕ_discrete fd g) [
      | yes same ↦
          interest_at appended g e.cnt appended-IsValid (omega arith) (appended_new.0 ∙ same)
          ∙ ap (λ o. some o) appended_new.1
          ∙ ground arith
      | no ne ↦
          let other : (fd == g) ≡ false = ground arith in
          rw other (elim (interest_cases e g v) [
            | inl (absent_is, none_there) ↦
                interest-none appended g (not_appended ne none_there) ∙ sym absent_is
            | inr (i, found, p, at_i) ↦
                interest_at appended g i appended-IsValid (omega arith)
                  ((appended_old i p).0 ∙ at_i)
                ∙ ap (λ o. some o) (appended_old i p).1
                ∙ sym found
          ])
    ]
      where
        not_appended :
            fd ≢ g
            → ((i : ℕ) → i < e.cnt → get_or e.fds i 0 ≢ g)
            → (i : ℕ) → i < e.cnt + 1
            → get_or appended.fds i 0 ≢ g
        not_appended ne none_there i p at_i = elim (dec_lt i e.cnt) [
          | yes old ↦ none_there i old (sym (appended_old i old).0 ∙ at_i)
          | no new ↦
              let last : i ≡ e.cnt = omega arith in
              ne (sym appended_new.0 ∙ sym (ap (λ k. get_or appended.fds k 0) last) ∙ at_i)
        ]

-- Adding or changing a file number in a valid table watches it for the new events, unless it is new
-- and the table is full; every other number keeps what it was watched for.
pub add_entry-interest :
    (e : Epoll) (fd events payload : ℕ)
    → IsValid e
    → let e' = add_entry e fd events payload in
      IsValid e'
      × ((g : ℕ)
          → interest e' g ≡ (
              if (fd == g) && (ltb e.cnt epoll_max || is_watched (interest e fd))
              then some (events, payload)
              else interest e g))
unfolding add_entry updated appended
add_entry-interest e fd events payload v = elim (find_fd_cases e.cnt 0 e.fds fd) [
  | inr (i, found, _, h, same) ↦
      let here : i < e.cnt = omega arith in
      rw (found, add_entry)
        (
          updated-IsValid e fd events payload v i,
          λ g.
              updated-interest e fd events payload v i here same g
              ∙ ground (arith, interest_at e fd i v here same),
        )
  | inl (found, none_there) ↦
      let absent = λ (i : ℕ) (p : i < e.cnt). none_there i (omega arith) (omega arith) in
      rw (found, add_entry)
        (elim (dec_lt e.cnt epoll_max) [
          | yes room ↦ rw (lt→ltb e.cnt epoll_max room) (
            appended-IsValid e fd events payload v room absent,
            λ g. appended-interest e fd events payload v room absent g ∙ ground arith,
          )
          | no full ↦
              let test : ltb e.cnt epoll_max ≡ false = ground arith in
              rw test (v, λ g. ground (arith, interest-none e fd absent))
        ])
]
