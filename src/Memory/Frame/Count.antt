-- ===== src/Memory/Frame/Count.antt =====
-- The number of free frames of the bitmap of memory/frame.rs, which FREE_FRAMES is to hold.
use chod_os.Base.{
  ℕ, zero, suc, ◌+◌, ◌≤◌, ◌<◌, ◌≡◌, ◌≢◌, refl, ap, Bool, true, false, List, arith, if◌then◌else◌,
  length, ℕ_discrete, All, ◌^◌,
}
use chod_os.Memory.Frame.{Frames, is_free, set_free, set_used, bitmap_words, max_frames}
use chod_os.Memory.Frame.View.{is_free-set_free, is_free-set_used}

pub count_below : ℕ → (ℕ → Bool) → ℕ
count_below zero p = 0
count_below (suc n) p = (if p n then 1 else 0) + count_below n p

pub count_below-le : (n : ℕ) (p : ℕ → Bool) → count_below n p ≤ n
unfolding count_below
count_below-le zero p = omega arith
count_below-le (suc n) p = ground (arith, count_below-le n p)

pub count_below-eq :
    (n : ℕ) (p q : ℕ → Bool) → ((i : ℕ) → i < n → p i ≡ q i) → count_below n p ≡ count_below n q
unfolding count_below
count_below-eq zero p q h = omega arith
count_below-eq (suc n) p q h =
    ground (arith, h n (omega arith), count_below-eq n p q (λ i k. h i (omega arith)))

-- Turning one test from false to true adds one.
pub count_below-flip :
    (n f : ℕ) (p q : ℕ → Bool)
    → f < n
    → p f ≡ false
    → q f ≡ true
    → ((i : ℕ) → i ≢ f → p i ≡ q i)
    → count_below n q ≡ suc (count_below n p)
unfolding count_below
count_below-flip zero f p q h a b same = absurd (omega arith)
count_below-flip (suc n) f p q h a b same = elim (ℕ_discrete n f) [
  | yes e ↦ ground (arith, count_below-eq n p q (λ i k. same i (omega arith)), ap p e, ap q e)
  | no ne ↦ ground (arith, same n ne, count_below-flip n f p q (omega arith) a b same)
]

pub count_below-none :
    (n : ℕ) (p : ℕ → Bool) → ((i : ℕ) → i < n → p i ≡ false) → count_below n p ≡ 0
unfolding count_below
count_below-none zero p h = refl
count_below-none (suc n) p h =
    ground (arith, h n (omega arith), count_below-none n p (λ i k. h i (omega arith)))

-- Every word fits in 64 bits.
abbrev pub AreWords : List ℕ → Type 0
AreWords = All (λ w. w < 2 ^ 64)

pub count_free : List ℕ → ℕ
count_free bm = count_below max_frames (is_free bm)

-- What the allocator keeps: a whole bitmap of 64-bit words, and the count of its free frames.
pub record IsValid (s : Frames) : Type 0 where
  pub whole : length s.bitmap ≡ bitmap_words
  pub words : AreWords s.bitmap
  pub counted : s.free_frames ≡ count_free s.bitmap

module _ (bm : List ℕ) (f : ℕ) (whole : length bm ≡ bitmap_words) (h : f < max_frames) where
  pub count_free-set_free : is_free bm f ≡ false → count_free (set_free bm f) ≡ suc (count_free bm)
  unfolding count_free
  count_free-set_free used =
      count_below-flip max_frames f (is_free bm) (is_free (set_free bm f)) h used
        (ground (arith, is_free-set_free bm f f (omega arith)))
        (λ i ne. ground (arith, is_free-set_free bm f i (omega arith)))

  pub count_free-set_used : is_free bm f ≡ true → count_free bm ≡ suc (count_free (set_used bm f))
  unfolding count_free
  count_free-set_used free =
      count_below-flip max_frames f (is_free (set_used bm f)) (is_free bm) h
        (ground (arith, is_free-set_used bm f f (omega arith))) free
        (λ i ne. ground (arith, is_free-set_used bm f i (omega arith)))

pub count_free-le : (bm : List ℕ) → count_free bm ≤ max_frames
unfolding count_free
count_free-le bm = count_below-le max_frames (is_free bm)

pub count_free-none :
    (bm : List ℕ) → ((j : ℕ) → j < max_frames → is_free bm j ≡ false) → count_free bm ≡ 0
unfolding count_free
count_free-none bm h = count_below-none max_frames (is_free bm) h
