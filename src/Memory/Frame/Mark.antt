-- ===== src/Memory/Frame/Mark.antt =====
-- The loops of memory/frame.rs that free and take a range of frames.
use chod_os.Base.{
  ℕ, zero, suc, ◌+◌, ◌*◌, ◌/◌, ◌≤◌, ◌<◌, ◌^◌, ◌≡◌, refl, ◌∙◌, Bool, true, false, List, [], ◌∷◌,
  arith, if◌then◌else◌, leb, ltb, ◌&&◌, length, set, get_or, bit_or-lt, bit_and-lt, pow-lt, ◌%◌,
}
use chod_os.Memory.Frame.{set_free, set_used, is_free, mark_used, bitmap_words, max_frames}
use chod_os.Memory.Frame.View.{is_free-set_used, length-set_used}
use chod_os.Memory.Frame.Count.{AreWords, count_free, count_free-set_used}

-- `start ≤ g < start + n`
abbrev pub in_range : ℕ → ℕ → ℕ → Bool
in_range start n g = leb start g && ltb g (start + n)

pub length-mark_used : (n start : ℕ) (bm : List ℕ) → length (mark_used n start bm) ≡ length bm
unfolding mark_used
length-mark_used zero start bm = refl
length-mark_used (suc n) start bm =
    length-mark_used n (start + 1) (set_used bm start) ∙ length-set_used bm start

-- The loop takes exactly the frames of its range.
pub is_free-mark_used :
    (n start : ℕ) (bm : List ℕ) (g : ℕ)
    → start + n ≤ length bm * 64
    → is_free (mark_used n start bm) g ≡ (if in_range start n g then false else is_free bm g)
unfolding mark_used
is_free-mark_used zero start bm g h = ground arith
is_free-mark_used (suc n) start bm g h = ground (
  arith,
  is_free-mark_used n (start + 1) (set_used bm start) g,
  length-set_used bm start,
  is_free-set_used bm start g,
)

-- Taking frames that are all free takes as many off the count.
pub count_free-mark_used :
    (n start : ℕ) (bm : List ℕ)
    → length bm ≡ bitmap_words
    → start + n ≤ max_frames
    → ((i : ℕ) → start ≤ i → i < start + n → is_free bm i ≡ true)
    → count_free bm ≡ n + count_free (mark_used n start bm)
unfolding mark_used
count_free-mark_used zero start bm whole h free = omega arith
count_free-mark_used (suc n) start bm whole h free = omega (
  arith,
  count_free-set_used bm start whole (omega arith) (free start (omega arith) (omega arith)),
  count_free-mark_used n (start + 1) (set_used bm start) (length-set_used bm start ∙ whole)
      (omega arith)
      (λ i p q.
        ground
          (arith, is_free-set_used bm start i (omega arith), free i (omega arith) (omega arith))),
)

AreWords-set : (xs : List ℕ) (i v : ℕ) → AreWords xs → v < 2 ^ 64 → AreWords (set xs i v)
AreWords-set [] i v h p = tt
AreWords-set (x ∷ xs) zero v h p = (p, h.1)
AreWords-set (x ∷ xs) (suc i) v h p = (h.0, AreWords-set xs i v h.1 p)

pub get_or-word : (xs : List ℕ) (i : ℕ) → AreWords xs → get_or xs i 0 < 2 ^ 64
get_or-word [] i h = omega arith
get_or-word (x ∷ xs) zero h = h.0
get_or-word (x ∷ xs) (suc i) h = get_or-word xs i h.1

pub set_free-words : (bm : List ℕ) (f : ℕ) → AreWords bm → AreWords (set_free bm f)
unfolding set_free
set_free-words bm f h =
    AreWords-set bm (f / 64) _ h
      (bit_or-lt 64 _ _ (get_or-word bm (f / 64) h) (pow-lt (f % 64) 64 (omega arith)))

pub set_used-words : (bm : List ℕ) (f : ℕ) → AreWords bm → AreWords (set_used bm f)
unfolding set_used
set_used-words bm f h = AreWords-set bm (f / 64) _ h (bit_and-lt 64 _ _ (get_or-word bm (f / 64) h))

pub mark_used-words : (n start : ℕ) (bm : List ℕ) → AreWords bm → AreWords (mark_used n start bm)
unfolding mark_used
mark_used-words zero start bm h = h
mark_used-words (suc n) start bm h =
    mark_used-words n (start + 1) (set_used bm start) (set_used-words bm start h)
