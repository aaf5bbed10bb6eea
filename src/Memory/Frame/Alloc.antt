-- ===== src/Memory/Frame/Alloc.antt =====
-- `alloc_frame` and `free_frame` of memory/frame.rs.
use mathlib.Core.Path.{subst₂}
use chod_os.Base.{
  ℕ, zero, suc, ◌+◌, ◌*◌, ◌/◌, ◌%◌, ◌^◌, ◌≤◌, ◌<◌, ◌≡◌, ◌≢◌, ◌↔◌, refl, ap, ◌∙◌, true, false,
  Option, none, some, List, [], ◌∷◌, arith, if◌then◌else◌, ◌==◌, length, get_or, set, digit,
  Bool-cases, dec_lt, ◌⊎◌, inl, inr, ℕ_discrete, get_or-set_self, bit_and, bit_or, bit_and-lt,
  bit_or-lt, pow-lt, eq_of_digits,
}
use chod_os.Base.Words.{u64, not64, sub64}
use chod_os.Memory.Frame.{
  Frames, is_free, set_used, set_free, alloc_scan, alloc_frame, free_frame, page_size, max_frames,
}
use chod_os.Memory.Frame.View.{
  is_free-digit, is_free-set_used, is_free-set_free, length-set_used, length-set_free, word,
  digit_after_or, digit_after_and,
}
use chod_os.Memory.Frame.Count.{
  AreWords, IsValid, count_free-set_used, count_free-set_free, count_free-le, count_free-none,
}
use chod_os.Memory.Frame.Mark.{set_free-words, set_used-words, get_or-word}
use chod_os.Memory.Frame.Scan.{Found, Scanned, alloc_scan-Scanned}

-- What a successful allocation of the frame at address `p` has done.
pub record Allocated (s : Frames) (p : ℕ) (s' : Frames) : Type 0 where
  pub valid : IsValid s'
  pub aligned : p % page_size ≡ 0
  pub inside : p / page_size < max_frames
  pub was_free : is_free s.bitmap (p / page_size) ≡ true
  pub lowest : (j : ℕ) → j < p / page_size → is_free s.bitmap j ≡ false
  pub changed :
      (g : ℕ) → is_free s'.bitmap g ≡ (if p / page_size == g then false else is_free s.bitmap g)
  pub counted : s.free_frames ≡ suc s'.free_frames
  pub exactly :
      s'
      ≡ record s { bitmap = set_used s.bitmap (p / page_size); free_frames = sub64 s.free_frames 1 }

taken-Allocated :
    {s : Frames} (f : ℕ) (bm' : List ℕ)
    → IsValid s
    → Found s.bitmap f bm'
    → Allocated s (f * page_size) (record s { bitmap = bm'; free_frames = sub64 s.free_frames 1 })
taken-Allocated {s} f bm' v h =
    let q : f * page_size / page_size ≡ f = omega arith in
    let fewer = count_free-set_used s.bitmap f v.whole (omega (arith, h.inside, v.whole)) h.free in
    rw h.taken (record {
      valid = record {
        whole = length-set_used s.bitmap f ∙ v.whole;
        words = set_used-words s.bitmap f v.words;
        counted = omega (arith, v.counted, fewer, count_free-le s.bitmap);
      };
      aligned = omega arith;
      inside = omega (arith, h.inside, v.whole);
      was_free = rw q h.free;
      lowest = rw q h.first;
      changed = rw q (λ g. is_free-set_used s.bitmap f g h.inside);
      counted = omega (arith, v.counted, fewer, count_free-le s.bitmap);
      exactly = rw q;
    })

-- The three ways to see one call: the scan's answer decides the result.
alloc_frame_cases :
    (s : Frames)
    → IsValid s
    → ((alloc_frame s ≡ none) × ((j : ℕ) → j < max_frames → is_free s.bitmap j ≡ false))
      ⊎ ((p : ℕ) × (s' : Frames) × (alloc_frame s ≡ some (p, s')) × Allocated s p s')
unfolding alloc_frame
alloc_frame_cases s v = go (alloc_scan 0 s.bitmap) refl (alloc_scan-Scanned 0 s.bitmap v.words)
  where
    go :
        (r : Option (ℕ × List ℕ))
        → alloc_scan 0 s.bitmap ≡ r
        → Scanned 0 s.bitmap r
        → ((alloc_frame s ≡ none) × ((j : ℕ) → j < max_frames → is_free s.bitmap j ≡ false))
          ⊎ ((p : ℕ) × (s' : Frames) × (alloc_frame s ≡ some (p, s')) × Allocated s p s')
    go none e h = inl (rw (e, alloc_frame), λ j k. h j (omega (arith, v.whole)))
    go (some (frame, bm')) e (f, same, found) =
        let here : frame ≡ f = omega arith in
        inr (f * page_size, _, rw (e, alloc_frame) (rw here), taken-Allocated f bm' v found)

-- In a valid allocator, a frame that `alloc_frame` returns was free and is the lowest free one; it
-- is now used, no other frame has changed, the counter has dropped by one, and the address is
-- page-aligned and in range. The allocator is valid again.
pub alloc_frame-Allocated :
    (s s' : Frames) (p : ℕ) → IsValid s → alloc_frame s ≡ some (p, s') → Allocated s p s'
alloc_frame-Allocated s s' p v e = elim (alloc_frame_cases s v) [
  | inl (n, _) ↦ cc
  | inr (q, t, r, a) ↦ subst₂ (Allocated s) (fst_of r) (snd_of r) a
]
  where
    fst_of : {q : ℕ} {t : Frames} → alloc_frame s ≡ some (q, t) → q ≡ p
    fst_of r = cc

    snd_of : {q : ℕ} {t : Frames} → alloc_frame s ≡ some (q, t) → t ≡ s'
    snd_of r = cc

-- In a valid allocator, `alloc_frame` fails exactly when the counter of free frames is zero.
pub alloc_frame-none_iff : (s : Frames) → IsValid s → (alloc_frame s ≡ none) ↔ (s.free_frames ≡ 0)
alloc_frame-none_iff s v = (empty, full)
  where
    empty : alloc_frame s ≡ none → s.free_frames ≡ 0
    empty e = elim (alloc_frame_cases s v) [
      | inl (_, h) ↦ v.counted ∙ count_free-none s.bitmap h
      | inr (q, t, r, a) ↦ cc
    ]

    full : s.free_frames ≡ 0 → alloc_frame s ≡ none
    full z = elim (alloc_frame_cases s v) [
      | inl (e, _) ↦ e
      | inr (q, t, r, a) ↦ absurd (omega (arith, a.counted))
    ]

set-set {ℓ} : {A : Type ℓ} (xs : List A) (i : ℕ) (a b : A) → set (set xs i a) i b ≡ set xs i b
set-set [] i a b = refl
set-set (x ∷ xs) zero a b = refl
set-set (x ∷ xs) (suc i) a b = ap (λ ys. x ∷ ys) (set-set xs i a b)

set-get_or {ℓ} : {A : Type ℓ} (xs : List A) (i : ℕ) (d : A) → set xs i (get_or xs i d) ≡ xs
set-get_or [] i d = refl
set-get_or (x ∷ xs) zero d = refl
set-get_or (x ∷ xs) (suc i) d = ap (λ ys. x ∷ ys) (set-get_or xs i d)

-- Clearing a bit that is set and setting it again gives the word back.
or_after_and :
    (w b : ℕ) → w < 2 ^ 64 → b < 64 → digit w b ≡ 1 → bit_or (bit_and w (not64 (2 ^ b))) (2 ^ b) ≡ w
or_after_and w b hw hb one =
    eq_of_digits 64 _ w (bit_or-lt 64 _ _ (bit_and-lt 64 _ _ hw) (pow-lt b 64 hb)) hw λ i hi.
      elim (ℕ_discrete b i) [
        | yes e ↦ ground (arith, digit_after_or (bit_and w (not64 (2 ^ b))) b i, ap (digit w) e)
        | no ne ↦
            ground
              (arith, digit_after_or (bit_and w (not64 (2 ^ b))) b i, digit_after_and w b i hb hi)
      ]

set_free-set_used :
    (bm : List ℕ) (f : ℕ)
    → AreWords bm
    → f / 64 < length bm
    → is_free bm f ≡ true
    → set_free (set_used bm f) f ≡ bm
unfolding set_free set_used
set_free-set_used bm f words h free =
    rw (get_or-set_self bm (f / 64) (bit_and (word bm f) (not64 (2 ^ (f % 64)))) 0 h) (
      rw (or_after_and (word bm f) (f % 64) (get_or-word bm (f / 64) words) (omega arith) one)
        (set-set bm (f / 64) _ _ ∙ set-get_or bm (f / 64) 0))
  where
    one : digit (word bm f) (f % 64) ≡ 1
    one = ground (arith, is_free-digit bm f)

-- Freeing the frame that was just allocated restores the allocator, every word of the bitmap and
-- both counters.
pub free_frame-alloc_frame :
    (s s' : Frames) (p : ℕ) → IsValid s → alloc_frame s ≡ some (p, s') → free_frame s' p ≡ s
unfolding free_frame
free_frame-alloc_frame s s' p v e =
    let a = alloc_frame-Allocated s s' p v e in
    let f = p / page_size in
    ground (
      arith,
      a.exactly,
      a.inside,
      a.counted,
      v.counted,
      count_free-le s.bitmap,
      is_free-set_used s.bitmap f f (omega (arith, a.inside, v.whole)),
      set_free-set_used s.bitmap f v.words (omega (arith, a.inside, v.whole)) a.was_free,
    )

freed_state : Frames → ℕ → Frames
freed_state s p = record s {
  bitmap = set_free s.bitmap (p / page_size);
  free_frames = u64 (s.free_frames + 1);
}

-- The three branches of `free_frame`.
pub free_frame_outside : (s : Frames) (p : ℕ) → max_frames ≤ p / page_size → free_frame s p ≡ s
unfolding free_frame
free_frame_outside s p h = ground arith

free_frame_free :
    (s : Frames) (p : ℕ) → is_free s.bitmap (p / page_size) ≡ true → free_frame s p ≡ s
unfolding free_frame
free_frame_free s p h = ground arith

free_frame_used :
    (s : Frames) (p : ℕ)
    → p / page_size < max_frames
    → is_free s.bitmap (p / page_size) ≡ false
    → free_frame s p ≡ freed_state s p
unfolding free_frame freed_state
free_frame_used s p h u = ground arith

-- What `free_frame` promises of the address `p`.
pub record Freed (s : Frames) (p : ℕ) (s' : Frames) : Type 0 where
  pub valid : IsValid s'
  pub free : p / page_size < max_frames → is_free s'.bitmap (p / page_size) ≡ true
  pub others : (g : ℕ) → g ≢ p / page_size → is_free s'.bitmap g ≡ is_free s.bitmap g
  pub again : free_frame s' p ≡ s'

freed_state-Freed :
    (s : Frames) (p : ℕ)
    → IsValid s
    → p / page_size < max_frames
    → is_free s.bitmap (p / page_size) ≡ false
    → Freed s p (freed_state s p)
unfolding freed_state
freed_state-Freed s p v h u =
    let f = p / page_size in
    let now : is_free (set_free s.bitmap f) f ≡ true =
      ground (arith, is_free-set_free s.bitmap f f (omega (arith, v.whole))) in
    record {
      valid = record {
        whole = length-set_free s.bitmap f ∙ v.whole;
        words = set_free-words s.bitmap f v.words;
        counted =
            omega (
              arith,
              v.counted,
              count_free-set_free s.bitmap f v.whole h u,
              count_free-le s.bitmap,
            );
      };
      free = λ _. now;
      others = λ g ne. ground (arith, is_free-set_free s.bitmap f g (omega (arith, v.whole)));
      again = free_frame_free _ p now;
    }

-- Freeing any address keeps the allocator valid; afterwards the frame of an address in range is
-- free, no other frame has changed, and freeing the same address a second time changes nothing.
pub free_frame-Freed : (s : Frames) (p : ℕ) → IsValid s → Freed s p (free_frame s p)
free_frame-Freed s p v = elim (dec_lt (p / page_size) max_frames) [
  | no far ↦
      let same = free_frame_outside s p (omega arith) in
      rw same
        (record { valid = v; free = λ h. absurd (far h); others = λ g ne. refl; again = same })
  | yes h ↦ elim (Bool-cases (is_free s.bitmap (p / page_size))) [
    | inl free ↦
        let same = free_frame_free s p free in
        rw same (record { valid = v; free = λ _. free; others = λ g ne. refl; again = same })
    | inr used ↦ rw (free_frame_used s p h used) (freed_state-Freed s p v h used)
  ]
]
