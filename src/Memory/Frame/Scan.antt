-- ===== src/Memory/Frame/Scan.antt =====
-- The word scan of `alloc_frame` of memory/frame.rs.
use chod_os.Base.{
  ℕ, suc, ◌+◌, ◌-◌, ◌*◌, ◌/◌, ◌%◌, ◌^◌, ◌<◌, ◌≡◌, ◌≢◌, refl, sym, ap, ◌∙◌, true, false, Option,
  none, some, List, [], ◌∷◌, arith, ◌==◌, length, digit, ℕ_discrete, dec_lt, bit_and, digit-zero,
  trailing_zeros, trailing_zeros-Lowest, Lowest,
}
use chod_os.Base.Words.{not64}
use chod_os.Memory.Frame.{is_free, set_used, after_word, alloc_scan}
use chod_os.Memory.Frame.View.{is_free-digit}
use chod_os.Memory.Frame.Count.{AreWords}

-- Frame 64 of a bitmap is frame 0 of the words after the first.
is_free-later : (w : ℕ) (ws : List ℕ) (f : ℕ) → is_free (w ∷ ws) (f + 64) ≡ is_free ws f
unfolding is_free
is_free-later w ws f =
    let q : (f + 64) / 64 ≡ suc (f / 64) = omega arith in
    let r : (f + 64) % 64 ≡ f % 64 = omega arith in rw (q, r)

set_used-later : (w : ℕ) (ws : List ℕ) (f : ℕ) → set_used (w ∷ ws) (f + 64) ≡ w ∷ set_used ws f
unfolding set_used
set_used-later w ws f =
    let q : (f + 64) / 64 ≡ suc (f / 64) = omega arith in
    let r : (f + 64) % 64 ≡ f % 64 = omega arith in rw (q, r)

-- The first free frame of a bitmap, and the bitmap without it.
pub record Found (bm : List ℕ) (f : ℕ) (bm' : List ℕ) : Type 0 where
  pub inside : f / 64 < length bm
  pub free : is_free bm f ≡ true
  pub taken : bm' ≡ set_used bm f
  pub first : (j : ℕ) → j < f → is_free bm j ≡ false

-- The frames of the first word are its digits.
is_free-first : (w : ℕ) (ws : List ℕ) (j : ℕ) → j < 64 → is_free (w ∷ ws) j ≡ (digit w j == 1)
is_free-first w ws j h =
    let q : j / 64 ≡ 0 = omega arith in
    let r : j % 64 ≡ j = omega arith in is_free-digit (w ∷ ws) j ∙ rw (q, r)

is_free-first_zero : (ws : List ℕ) (j : ℕ) → j < 64 → is_free (0 ∷ ws) j ≡ false
is_free-first_zero ws j h = ground (arith, is_free-first 0 ws j, digit-zero j)

Found-here :
    (w : ℕ) (ws : List ℕ)
    → Lowest 64 w
    → let b = trailing_zeros 64 w in Found (w ∷ ws) b (bit_and w (not64 (2 ^ b)) ∷ ws)
unfolding set_used
Found-here w ws l = record {
  inside = omega (arith, l.inside);
  free = ground (arith, is_free-first w ws (trailing_zeros 64 w) l.inside, l.one);
  taken =
      let q : trailing_zeros 64 w / 64 ≡ 0 = omega (arith, l.inside) in
      let r : trailing_zeros 64 w % 64 ≡ trailing_zeros 64 w = omega (arith, l.inside) in rw (q, r);
  first = λ j k. ground (arith, is_free-first w ws j (omega (arith, l.inside)), l.below j k);
}

Found-later :
    (ws : List ℕ) (f : ℕ) (ws' : List ℕ) → Found ws f ws' → Found (0 ∷ ws) (f + 64) (0 ∷ ws')
Found-later ws f ws' h = record {
  inside = omega (arith, h.inside);
  free = is_free-later 0 ws f ∙ h.free;
  taken = ap (λ t. 0 ∷ t) h.taken ∙ sym (set_used-later 0 ws f);
  first = λ j k. earlier j (dec_lt j 64) k;
}
  where
    earlier : (j : ℕ) → Dec (j < 64) → j < f + 64 → is_free (0 ∷ ws) j ≡ false
    earlier j (yes p) k = is_free-first_zero ws j p
    earlier j (no p) k =
        ap (is_free (0 ∷ ws)) {x = j} {y = j - 64 + 64} (omega arith)
        ∙ is_free-later 0 ws (j - 64)
        ∙ h.first (j - 64) (omega arith)

-- What the scan returns: the lowest free frame, or `none` where every frame is used.
abbrev pub Scanned : ℕ → List ℕ → Option (ℕ × List ℕ) → Type 0
Scanned k bm none = (j : ℕ) → j / 64 < length bm → is_free bm j ≡ false
Scanned k bm (some (frame, bm')) = (f : ℕ) × (frame ≡ k * 64 + f) × Found bm f bm'

after_word-Scanned :
    (k : ℕ) (ws : List ℕ) (r : Option (ℕ × List ℕ))
    → Scanned (k + 1) ws r
    → Scanned k (0 ∷ ws) (after_word 0 r)
unfolding after_word
after_word-Scanned k ws none h = λ j p. frame j p (dec_lt j 64)
  where
    frame : (j : ℕ) → j / 64 < suc (length ws) → Dec (j < 64) → is_free (0 ∷ ws) j ≡ false
    frame j p (yes q) = is_free-first_zero ws j q
    frame j p (no q) =
        ap (is_free (0 ∷ ws)) {x = j} {y = j - 64 + 64} (omega arith)
        ∙ is_free-later 0 ws (j - 64)
        ∙ h (j - 64) (omega arith)
after_word-Scanned k ws (some (frame, ws')) (f, e, found) =
    (f + 64, omega arith, Found-later ws f ws' found)

pub alloc_scan-Scanned : (k : ℕ) (bm : List ℕ) → AreWords bm → Scanned k bm (alloc_scan k bm)
unfolding alloc_scan
alloc_scan-Scanned k [] h = λ j p. absurd (omega arith)
alloc_scan-Scanned k (w ∷ ws) h = elim (ℕ_discrete w 0) [
  | yes e ↦ rw e (after_word-Scanned k ws _ (alloc_scan-Scanned (k + 1) ws h.1))
  | no ne ↦
      rw (nonzero ne)
        (trailing_zeros 64 w, refl, Found-here w ws (trailing_zeros-Lowest 64 w h.0 ne))
]
  where
    nonzero : w ≢ 0 → (w == 0) ≡ false
    nonzero ne = ground arith
