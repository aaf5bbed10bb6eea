-- ===== src/Process/Switching/Select.antt =====
-- The scan of `switch_to_next` in process/scheduler.rs, as a search for the highest score.
use chod_os.Base.{
  ℕ, zero, suc, ◌+◌, ◌-◌, ◌*◌, ◌%◌, ◌≤◌, ◌<◌, ◌≡◌, refl, sym, ap, ◌∙◌, true, false, Option, none,
  some, List, arith, if◌then◌else◌, ltb, ltb→lt, subst, length, get_or, ℕ_discrete, Bool-cases, inl,
  inr,
}
use chod_os.Process.Pcb.{Process, Priority, rank, new_kernel_main}
use chod_os.Process.Scheduler.{is_ready, effective_priority}
use chod_os.Process.Switching.{Best, best_from, consider, is_better, same_cpu}

-- A higher effective priority wins, and with equal priorities a process that suits the core.
abbrev pub score : ℕ → ℕ → Process → ℕ
score now cpu p = 2 * rank (effective_priority p now) + (if same_cpu cpu p then 1 else 0)

abbrev score_of : Best → ℕ
score_of b = 2 * rank b.pri + (if b.suits then 1 else 0)

is_better_lem : (best b : Best) → is_better (some best) b ≡ ltb (score_of best) (score_of b)
is_better_lem best b = elim (Bool-cases best.suits) [
  | inl s ↦ elim (Bool-cases b.suits) [
    | inl t ↦ ground (arith, s, t)
    | inr t ↦ ground (arith, s, t)
  ]
  | inr s ↦ elim (Bool-cases b.suits) [
    | inl t ↦ ground (arith, s, t)
    | inr t ↦ ground (arith, s, t)
  ]
]

not_less : (a b : ℕ) → ltb a b ≡ false → b ≤ a
not_less a b h = ground arith

module _ (now cpu : ℕ) (ps : List Process) (start : ℕ) where
  -- The process that round `i` of the loop looks at.
  abbrev pub seat : ℕ → Process
  seat i = get_or ps ((start + i) % length ps) new_kernel_main

  -- The best of the first `k` rounds.
  pub record Found (k : ℕ) (b : Best) : Type 0 where
    pub round : ℕ
    pub from : 1 ≤ round
    pub upto : round ≤ k
    pub place : b.idx ≡ (start + round) % length ps
    pub is : is_ready (seat round) ≡ true
    pub pri : b.pri ≡ effective_priority (seat round) now
    pub suits : b.suits ≡ same_cpu cpu (seat round)
    pub best :
        (i : ℕ)
        → 1 ≤ i
        → i ≤ k
        → is_ready (seat i) ≡ true
        → score now cpu (seat i) ≤ score now cpu (seat round)
    pub first :
        (i : ℕ)
        → 1 ≤ i
        → i < round
        → is_ready (seat i) ≡ true
        → score now cpu (seat i) < score now cpu (seat round)

  unfoldable pub Scanned : ℕ → Option Best → Type 0
  Scanned k none = (i : ℕ) → 1 ≤ i → i ≤ k → is_ready (seat i) ≡ false
  Scanned k (some b) = Found k b

  clash : true ≡ false → ⊥
  clash e = ground (arith, e)

  Found-score : (k : ℕ) (b : Best) (f : Found k b) → score_of b ≡ score now cpu (seat f.round)
  Found-score k b f = ground (arith, f.suits, ap (λ (p : Priority). 2 * rank p) f.pri)

  -- Round `k` is no better than the best of the rounds before.
  kept :
      (k : ℕ) (b : Best)
      → Found k b
      → (is_ready (seat (k + 1)) ≡ true → score now cpu (seat (k + 1)) ≤ score_of b)
      → Found (k + 1) b
  kept k b f worse = record {
    round = f.round;
    from = f.from;
    upto = omega (arith, f.upto);
    place = f.place;
    is = f.is;
    pri = f.pri;
    suits = f.suits;
    best = λ i p q r. elim (ℕ_discrete i (k + 1)) [
      | yes last ↦
          let r' : is_ready (seat (k + 1)) ≡ true = ap (λ j. is_ready (seat j)) (sym last) ∙ r in
          omega (arith, worse r', Found-score k b f, ap (λ j. score now cpu (seat j)) last)
      | no earlier ↦ f.best i p (omega arith) r
    ];
    first = f.first;
  }

  -- Round `k` is better than all rounds before.
  taken :
      (k : ℕ)
      → is_ready (seat (k + 1)) ≡ true
      → ((i : ℕ)
          → 1 ≤ i
          → i ≤ k
          → is_ready (seat i) ≡ true
          → score now cpu (seat i) < score now cpu (seat (k + 1)))
      → Found (k + 1) (record {
        idx = (start + (k + 1)) % length ps;
        pri = effective_priority (seat (k + 1)) now;
        suits = same_cpu cpu (seat (k + 1));
      })
  taken k r better = record {
    round = k + 1;
    from = omega arith;
    upto = omega arith;
    place = refl;
    is = r;
    pri = refl;
    suits = refl;
    best = λ i p q s. elim (ℕ_discrete i (k + 1)) [
      | yes last ↦ omega (arith, ap (λ j. score now cpu (seat j)) last)
      | no earlier ↦ omega (arith, better i p (omega arith) s)
    ];
    first = λ i p q s. better i p (omega arith) s;
  }

  consider-Scanned :
      (k : ℕ) (best : Option Best)
      → Scanned k best
      → Scanned (k + 1) (consider now cpu ((start + (k + 1)) % length ps) (seat (k + 1)) best)
  unfolding Scanned
  consider-Scanned k none none_yet = elim (Bool-cases (is_ready (seat (k + 1)))) [
    | inl r ↦ rw (r, consider) (taken k r (λ i p q s. absurd (clash (sym s ∙ none_yet i p q))))
    | inr r ↦
        rw (r, consider)
          (λ i p q. elim (ℕ_discrete i (k + 1)) [
            | yes last ↦ ap (λ j. is_ready (seat j)) last ∙ r
            | no earlier ↦ none_yet i p (omega arith)
          ])
  ]
  consider-Scanned k (some b) f = elim (Bool-cases (is_ready (seat (k + 1)))) [
    | inr r ↦ rw (r, consider) (kept k b f (λ s. absurd (clash (sym s ∙ r))))
    | inl r ↦ elim (Bool-cases (is_better (some b) next)) [
      | inl better ↦
          let above : score_of b < score now cpu (seat (k + 1)) =
            ltb→lt (score_of b) (score_of next) (sym (is_better_lem b next) ∙ better) in
          rw (r, better, consider)
            (taken k r (λ i p q s. omega (arith, f.best i p q s, Found-score k b f, above)))
      | inr worse ↦
          rw (r, worse, consider)
            (kept k b f (λ s.
              omega (
                arith,
                not_less (score_of b) (score_of next) (sym (is_better_lem b next) ∙ worse),
              )))
    ]
  ]
    where
      next : Best
      next = record {
        idx = (start + (k + 1)) % length ps;
        pri = effective_priority (seat (k + 1)) now;
        suits = same_cpu cpu (seat (k + 1));
      }

  pub best_from-Scanned :
      (left k : ℕ) (best : Option Best)
      → k + left ≡ length ps
      → Scanned k best
      → Scanned (length ps) (best_from now cpu ps start left best)
  unfolding best_from
  best_from-Scanned zero k best e sc = subst (λ n. Scanned n best) (omega arith) sc
  best_from-Scanned (suc left) k best e sc =
      let turn : length ps - left ≡ k + 1 = omega arith in
      rw turn (best_from-Scanned left (k + 1) _ (omega arith) (consider-Scanned k best sc))
