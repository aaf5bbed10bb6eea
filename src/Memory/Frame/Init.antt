-- ===== src/Memory/Frame/Init.antt =====
-- `init` of memory/frame.rs.
use chod_os.Base.{
  ℕ, zero, suc, ◌+◌, ◌-◌, ◌/◌, ◌%◌, ◌≤◌, ◌<◌, ◌≡◌, inl, inr, refl, sym, ◌∙◌, Bool, true, false,
  List, [], ◌∷◌, arith, ◌==◌, ◌||◌, ◌&&◌, min, length, replicate, length-replicate, Bool-cases,
  get_or, digit-zero,
}
use chod_os.Base.Words.{u64}
use chod_os.Memory.Frame.{
  Entry, is_free, set_free, free_range, start_frame, end_frame, init_from, init, page_size,
  max_frames, bitmap_words,
}
use chod_os.Memory.Frame.View.{is_free-set_free, is_free-digit, length-set_free}
use chod_os.Memory.Frame.Count.{
  AreWords, IsValid, count_free, count_free-set_free, count_free-le, count_free-none,
}
use chod_os.Memory.Frame.Mark.{in_range, set_free-words}

-- The bitmap and the counter that the loops of `init` carry.
record Carried (bm : List ℕ) (free : ℕ) : Type 0 where
  whole : length bm ≡ bitmap_words
  words : AreWords bm
  counted : free ≡ count_free bm

-- Freeing a range of used frames keeps the counter exact, and frees those frames only.
free_range_lem :
    (n frame : ℕ) (bm : List ℕ) (free : ℕ)
    → Carried bm free
    → (0 < n → frame + n ≤ max_frames)
    → ((i : ℕ) → frame ≤ i → i < frame + n → is_free bm i ≡ false)
    → Carried (free_range n frame bm free).0 (free_range n frame bm free).1
      × ((g : ℕ) → is_free (free_range n frame bm free).0 g ≡ (in_range frame n g || is_free bm g))
unfolding free_range
free_range_lem zero frame bm free k h used = (k, λ g. ground arith)
free_range_lem (suc n) frame bm free k h' used =
    let h = h' (omega arith) in
    let here = used frame (omega arith) (omega arith) in
    let (kept, freed) =
      free_range_lem n (frame + 1) (set_free bm frame) (u64 (free + 1))
        (record {
          whole = length-set_free bm frame ∙ k.whole;
          words = set_free-words bm frame k.words;
          counted = omega (
            arith,
            k.counted,
            count_free-le bm,
            count_free-set_free bm frame k.whole (omega arith) here,
          );
        })
        (λ left. omega arith)
        (λ i p q. ground (
          arith,
          is_free-set_free bm frame i (omega (arith, k.whole)),
          used i (omega arith) (omega arith),
        )) in
    (kept, λ g. ground (arith, freed g, is_free-set_free bm frame g (omega (arith, k.whole))))

-- The frames of a region of the memory map, as far as the bitmap goes.
abbrev pub frames_of : Entry → ℕ
frames_of e = min (end_frame e) max_frames - start_frame e

abbrev pub covers : ℕ → Entry → ℕ → Bool
covers usable e g = (e.type_ == usable) && in_range (start_frame e) (frames_of e) g

abbrev pub any_covers : ℕ → List Entry → ℕ → Bool
any_covers usable [] g = false
any_covers usable (e ∷ es) g = covers usable e g || any_covers usable es g

-- No frame lies in two usable regions, which the boot loader promises of its memory map.
abbrev pub AreDisjoint : ℕ → List Entry → Type 0
AreDisjoint usable [] = Unit {0}
AreDisjoint usable (e ∷ es) =
    ((g : ℕ) → covers usable e g ≡ true → any_covers usable es g ≡ false) × AreDisjoint usable es

init_from_lem :
    (usable : ℕ) (es : List Entry) (bm : List ℕ) (free total : ℕ)
    → Carried bm free
    → AreDisjoint usable es
    → ((g : ℕ) → any_covers usable es g ≡ true → is_free bm g ≡ false)
    → let s = init_from usable es bm free total in
      IsValid s × ((g : ℕ) → is_free s.bitmap g ≡ (any_covers usable es g || is_free bm g))
unfolding init_from
init_from_lem usable [] bm free total k d used =
    (record { whole = k.whole; words = k.words; counted = k.counted }, λ g. refl)
init_from_lem usable (e ∷ es) bm free total k (apart, d) used =
    elim (Bool-cases (e.type_ == usable)) [
      | inr other ↦
          let (v, view) =
            init_from_lem usable es bm free total k d (λ g c. used g (ground arith)) in
          rw other (v, λ g. ground (arith, view g))
      | inl taken ↦
          let n = frames_of e in
          let (kept, freed) =
            free_range_lem n (start_frame e) bm free k (λ left. omega arith)
              (λ i p q. used i (ground arith)) in
          let (v, view) =
            init_from_lem usable es _ _ (u64 (total + e.length / page_size)) kept d
              (λ g c. ground (arith, freed g, used g, apart g)) in
          rw taken (v, λ g. ground (arith, view g, freed g))
    ]

zero-is_free : (n g : ℕ) → is_free (replicate n 0) g ≡ false
zero-is_free n g =
    ground (arith, is_free-digit (replicate n 0) g, zero_word n (g / 64), digit-zero (g % 64))
  where
    zero_word : (n i : ℕ) → get_or {A = ℕ} (replicate n 0) i 0 ≡ 0
    zero_word zero i = refl
    zero_word (suc n) zero = refl
    zero_word (suc n) (suc i) = zero_word n i

zero-AreWords : (n : ℕ) → AreWords (replicate n 0)
zero-AreWords zero = tt
zero-AreWords (suc n) = (omega arith, zero-AreWords n)

zero-Carried : (n : ℕ) → n ≡ bitmap_words → Carried (replicate n 0) 0
zero-Carried n e = record {
  whole = length-replicate n 0 ∙ e;
  words = zero-AreWords n;
  counted = sym (count_free-none (replicate n 0) (λ j _. zero-is_free n j));
}

init_from-zero :
    (n usable : ℕ) (es : List Entry)
    → n ≡ bitmap_words
    → AreDisjoint usable es
    → let s = init_from usable es (replicate n 0) 0 0 in
      IsValid s × ((g : ℕ) → is_free s.bitmap g ≡ any_covers usable es g)
init_from-zero n usable es e d =
    let (v, view) =
      init_from_lem usable es (replicate n 0) 0 0 (zero-Carried n e) d (λ g c. zero-is_free n g) in
    (v, λ g. ground (arith, view g, zero-is_free n g))

-- On a memory map whose usable regions do not overlap, `init` gives a valid allocator, in which the
-- free frames are exactly those that lie in a usable region and below the bitmap's end.
pub init-IsValid :
    (usable : ℕ) (es : List Entry)
    → AreDisjoint usable es
    → IsValid (init usable es)
      × ((g : ℕ) → is_free (init usable es).bitmap g ≡ any_covers usable es g)
unfolding init
init-IsValid usable es d = init_from-zero bitmap_words usable es refl d
