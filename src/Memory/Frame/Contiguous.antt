-- ===== src/Memory/Frame/Contiguous.antt =====
-- `alloc_contiguous` of memory/frame.rs.
use chod_os.Base.{
  ℕ, zero, suc, ◌+◌, ◌*◌, ◌/◌, ◌%◌, ◌≤◌, ◌<◌, ◌≡◌, ◌≢◌, ◌⊎◌, inl, inr, refl, ◌∙◌, true, false,
  Option, none, some, List, arith, if◌then◌else◌, ◌==◌, ℕ_discrete, Bool-cases, dec_lt,
}
use chod_os.Base.Words.{sub64}
use chod_os.Memory.Frame.{
  Frames, is_free, run_scan, mark_used, alloc_contiguous, page_size, max_frames,
}
use chod_os.Memory.Frame.Count.{IsValid, count_free-le}
use chod_os.Memory.Frame.Mark.{
  in_range, is_free-mark_used, count_free-mark_used, length-mark_used, mark_used-words,
}

-- `count` free frames from `start` on.
abbrev pub IsRun : List ℕ → ℕ → ℕ → Type 0
IsRun bm count start = (i : ℕ) → start ≤ i → i < start + count → is_free bm i ≡ true

-- What the scan knows before it looks at `frame`.
record Scanning (bm : List ℕ) (count frame run_start run_len : ℕ) : Type 0 where
  short : run_len < count
  inside : run_len ≤ frame
  begins : run_len ≢ 0 → run_start + run_len ≡ frame
  run : (i : ℕ) → frame ≤ i + run_len → i < frame → is_free bm i ≡ true
  earlier : (t : ℕ) → t + run_len < frame → ¬ (IsRun bm count t)

-- The first run that ends by `limit`, or none.
abbrev FirstRun : List ℕ → ℕ → ℕ → Option ℕ → Type 0
FirstRun bm count limit none = (t : ℕ) → t + count ≤ limit → ¬ (IsRun bm count t)
FirstRun bm count limit (some start) =
    (start + count ≤ limit) × IsRun bm count start × ((t : ℕ) → t < start → ¬ (IsRun bm count t))

module _ (bm : List ℕ) (count : ℕ) where
  abbrev start_of : ℕ → ℕ → ℕ → ℕ
  start_of frame run_start run_len = if run_len == 0 then frame else run_start

  longer :
      (frame run_start run_len : ℕ)
      → Scanning bm count frame run_start run_len
      → is_free bm frame ≡ true
      → run_len + 1 ≢ count
      → Scanning bm count (frame + 1) (start_of frame run_start run_len) (run_len + 1)
  longer frame run_start run_len k free ne = record {
    short = omega (arith, k.short);
    inside = omega (arith, k.inside);
    begins = λ _. ground (arith, k.begins);
    run = λ i p q. elim (ℕ_discrete i frame) [
      | yes e ↦ rw e free
      | no d ↦ k.run i (omega arith) (omega arith)
    ];
    earlier = λ t p. k.earlier t (omega arith);
  }

  broken :
      (frame run_start run_len : ℕ)
      → Scanning bm count frame run_start run_len
      → is_free bm frame ≡ false
      → Scanning bm count (frame + 1) run_start 0
  broken frame run_start run_len k used = record {
    short = omega (arith, k.short);
    inside = omega arith;
    begins = λ z. absurd (z refl);
    run = λ i p q. absurd (omega arith);
    earlier = λ t p. elim (dec_lt (t + run_len) frame) [
      | yes q ↦ k.earlier t q
      | no q ↦ λ r. cc (r frame (omega arith) (omega (arith, k.short)))
    ];
  }

  found :
      (frame run_start run_len : ℕ)
      → Scanning bm count frame run_start run_len
      → is_free bm frame ≡ true
      → run_len + 1 ≡ count
      → (start_of frame run_start run_len + run_len ≡ frame)
        × IsRun bm count (start_of frame run_start run_len)
        × ((t : ℕ) → t < start_of frame run_start run_len → ¬ (IsRun bm count t))
  found frame run_start run_len k free e =
      (ends, all_free, λ t p. k.earlier t (omega (arith, ends)))
    where
      ends : start_of frame run_start run_len + run_len ≡ frame
      ends = ground (arith, k.begins)

      all_free : IsRun bm count (start_of frame run_start run_len)
      all_free i p q = elim (ℕ_discrete i frame) [
        | yes e ↦ rw e free
        | no d ↦ k.run i (omega (arith, ends)) (omega (arith, ends))
      ]

  run_scan-FirstRun :
      (n frame run_start run_len : ℕ)
      → Scanning bm count frame run_start run_len
      → FirstRun bm count (frame + n) (run_scan count bm n frame run_start run_len)
  unfolding run_scan
  run_scan-FirstRun zero frame run_start run_len k = λ t p. k.earlier t (omega (arith, k.short))
  run_scan-FirstRun (suc n) frame run_start run_len k =
      let next : frame + suc n ≡ frame + 1 + n = omega arith in
      rw next (elim (Bool-cases (is_free bm frame)) [
        | inr used ↦
            rw used
              (run_scan-FirstRun n (frame + 1) run_start 0 (broken frame run_start run_len k used))
        | inl free ↦ elim (ℕ_discrete (run_len + 1) count) [
          | yes e ↦
              let (ends, run, first) = found frame run_start run_len k free e in
              rw (free, hit e) (omega (arith, ends), run, first)
          | no ne ↦
              rw (free, miss ne)
                (run_scan-FirstRun n (frame + 1) (start_of frame run_start run_len) (run_len + 1)
                  (longer frame run_start run_len k free ne))
        ]
      ])
    where
      hit : run_len + 1 ≡ count → (run_len + 1 == count) ≡ true
      hit e = ground arith

      miss : run_len + 1 ≢ count → (run_len + 1 == count) ≡ false
      miss ne = ground arith

start-Scanning : (bm : List ℕ) (count : ℕ) → 0 < count → Scanning bm count 0 0 0
start-Scanning bm count h = record {
  short = h;
  inside = omega arith;
  begins = λ z. absurd (z refl);
  run = λ i p q. absurd (omega arith);
  earlier = λ t p. absurd (omega arith);
}

-- What a successful allocation of `count` frames from address `p` on has done.
pub record AllocatedRun (s : Frames) (count p : ℕ) (s' : Frames) : Type 0 where
  pub valid : IsValid s'
  pub aligned : p % page_size ≡ 0
  pub inside : p / page_size + count ≤ max_frames
  pub was_free : IsRun s.bitmap count (p / page_size)
  pub first : (t : ℕ) → t < p / page_size → ¬ (IsRun s.bitmap count t)
  pub changed :
      (g : ℕ)
      → is_free s'.bitmap g
        ≡ (if in_range (p / page_size) count g then false else is_free s.bitmap g)
  pub counted : s.free_frames ≡ count + s'.free_frames

run_state : Frames → ℕ → ℕ → Frames
run_state s count start = record s {
  bitmap = mark_used count start s.bitmap;
  free_frames = sub64 s.free_frames count;
}

run_state-AllocatedRun :
    (s : Frames) (count start : ℕ)
    → IsValid s
    → FirstRun s.bitmap count max_frames (some start)
    → AllocatedRun s count (start * page_size) (run_state s count start)
unfolding run_state
run_state-AllocatedRun s count start v (fits, run, first) =
    let q : start * page_size / page_size ≡ start = omega arith in
    let fewer = count_free-mark_used count start s.bitmap v.whole fits run in
    record {
      valid = record {
        whole = length-mark_used count start s.bitmap ∙ v.whole;
        words = mark_used-words count start s.bitmap v.words;
        counted = omega (arith, v.counted, fewer, count_free-le s.bitmap);
      };
      aligned = omega arith;
      inside = omega arith;
      was_free = rw q run;
      first = rw q first;
      changed = rw q (λ g. is_free-mark_used count start s.bitmap g (omega (arith, v.whole)));
      counted = omega (arith, v.counted, fewer, count_free-le s.bitmap);
    }

-- In a valid allocator a call of `alloc_contiguous` for at least one frame takes the first run of
-- that many free frames, which are then used while no other frame changes and the counter drops by
-- `count`; it fails only where there is no such run. A call for no frame fails.
pub alloc_contiguous_lem :
    (s : Frames) (count : ℕ)
    → IsValid s
    → ((alloc_contiguous s count ≡ none)
        × (0 < count → (t : ℕ) → t + count ≤ max_frames → ¬ (IsRun s.bitmap count t)))
      ⊎ ((p : ℕ) × (s' : Frames) × (alloc_contiguous s count ≡ some (p, s'))
          × (0 < count)
          × AllocatedRun s count p s')
unfolding alloc_contiguous run_state
alloc_contiguous_lem s zero v = inl (refl, λ h. absurd (omega arith))
alloc_contiguous_lem s (suc c) v = go (run_scan (suc c) s.bitmap max_frames 0 0 0) refl (
    run_scan-FirstRun s.bitmap (suc c) max_frames 0 0 0
      (start-Scanning s.bitmap (suc c) (omega arith)))
  where
    some_count : (suc c == 0) ≡ false
    some_count = ground arith

    go :
        (r : Option ℕ)
        → run_scan (suc c) s.bitmap max_frames 0 0 0 ≡ r
        → FirstRun s.bitmap (suc c) (0 + max_frames) r
        → ((alloc_contiguous s (suc c) ≡ none)
            × (0 < suc c → (t : ℕ) → t + suc c ≤ max_frames → ¬ (IsRun s.bitmap (suc c) t)))
          ⊎ ((p : ℕ) × (s' : Frames) × (alloc_contiguous s (suc c) ≡ some (p, s'))
              × (0 < suc c)
              × AllocatedRun s (suc c) p s')
    go none e h = inl (rw (some_count, e, alloc_contiguous), λ _. h)
    go (some start) e h = inr (
      start * page_size,
      run_state s (suc c) start,
      rw (some_count, e, alloc_contiguous),
      omega arith,
      run_state-AllocatedRun s (suc c) start v h,
    )
