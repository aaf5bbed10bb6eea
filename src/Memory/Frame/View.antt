-- ===== src/Memory/Frame/View.antt =====
-- The bitmap of memory/frame.rs seen frame by frame: what each write does to every bit.
use chod_os.Base.{
  ℕ, ◌-◌, ◌*◌, ◌/◌, ◌%◌, ◌^◌, ◌<◌, ◌≤◌, ◌≡◌, ◌⊎◌, ap, true, false, List, arith, if◌then◌else◌, ◌==◌,
  get_or, set, length, ℕ_discrete, bit_and, bit_or, get_or-set_self, get_or-set_ne, length-set,
  digit, digit-le-one, digit-bit_and, digit-bit_or, digit-pow_self, digit-pow_ne, digit-complement,
  bit_and-pow, pow-pos, pow-lt,
}
use chod_os.Base.Words.{not64}
use chod_os.Memory.Frame.{set_free, set_used, is_free}

abbrev pub word : List ℕ → ℕ → ℕ
word bitmap f = get_or bitmap (f / 64) 0

-- The test of the code reads one digit.
pub is_free-digit : (bm : List ℕ) (f : ℕ) → is_free bm f ≡ (digit (word bm f) (f % 64) == 1)
unfolding is_free
is_free-digit bm f = ground (
  arith,
  bit_and-pow (word bm f) (f % 64),
  pow-pos (f % 64),
  digit-le-one (word bm f) (f % 64),
  small (digit (word bm f) (f % 64)) (2 ^ (f % 64)) (digit-le-one (word bm f) (f % 64)),
)
  where
    small : (d p : ℕ) → d ≤ 1 → ((d ≡ 0) × (d * p ≡ 0)) ⊎ ((d ≡ 1) × (d * p ≡ p))
    small d p h = grind arith

-- One digit of a word after `w |= 1 << b` and after `w &= !(1 << b)`.
pub digit_after_or : (w b i : ℕ) → digit (bit_or w (2 ^ b)) i ≡ (if b == i then 1 else digit w i)
digit_after_or w b i = elim (ℕ_discrete b i) [
  | yes e ↦ ground (
    arith,
    digit-bit_or w (2 ^ b) i,
    ap (λ (k : ℕ). digit (2 ^ b) k) e,
    digit-pow_self b,
    digit-le-one w i,
  )
  | no ne ↦ ground (arith, digit-bit_or w (2 ^ b) i, digit-pow_ne b i ne)
]

pub digit_after_and :
    (w b i : ℕ)
    → b < 64
    → i < 64
    → digit (bit_and w (not64 (2 ^ b))) i ≡ (if b == i then 0 else digit w i)
digit_after_and w b i hb hi = elim (ℕ_discrete b i) [
  | yes e ↦ ground (
    arith,
    digit-bit_and w (not64 (2 ^ b)) i,
    mask,
    ap (λ (k : ℕ). digit (2 ^ b) k) e,
    digit-pow_self b,
  )
  | no ne ↦
      ground (arith, digit-bit_and w (not64 (2 ^ b)) i, mask, digit-pow_ne b i ne, digit-le-one w i)
]
  where
    mask : digit (not64 (2 ^ b)) i ≡ 1 - digit (2 ^ b) i
    mask = digit-complement 64 (2 ^ b) i (pow-lt b 64 hb) hi

-- Writing a word shows in the frames of that word, and in no other.
module _ (bm : List ℕ) (f g : ℕ) (h : f / 64 < length bm) where
  word-set : (v : ℕ) → word (set bm (f / 64) v) g ≡ (if f / 64 == g / 64 then v else word bm g)
  word-set v = elim (ℕ_discrete (f / 64) (g / 64)) [
    | yes e ↦
        ground
          (arith, get_or-set_self bm (f / 64) v 0, ap (λ (k : ℕ). get_or (set bm (f / 64) v) k 0) e)
    | no ne ↦ ground (arith, get_or-set_ne bm (f / 64) (g / 64) v 0 ne)
  ]

  -- `set_free` frees its frame and leaves every other as it was.
  pub is_free-set_free : is_free (set_free bm f) g ≡ (if f == g then true else is_free bm g)
  unfolding set_free
  is_free-set_free = ground (
    arith,
    is_free-digit (set_free bm f) g,
    is_free-digit bm g,
    word-set (bit_or (word bm f) (2 ^ (f % 64))),
    digit_after_or (word bm f) (f % 64) (g % 64),
    ap (λ (k : ℕ). get_or bm k 0) {x = f / 64} {y = g / 64},
  )

  pub is_free-set_used : is_free (set_used bm f) g ≡ (if f == g then false else is_free bm g)
  unfolding set_used
  is_free-set_used = ground (
    arith,
    is_free-digit (set_used bm f) g,
    is_free-digit bm g,
    word-set (bit_and (word bm f) (not64 (2 ^ (f % 64)))),
    digit_after_and (word bm f) (f % 64) (g % 64) (omega arith) (omega arith),
    ap (λ (k : ℕ). get_or bm k 0) {x = f / 64} {y = g / 64},
  )

pub length-set_free : (bm : List ℕ) (f : ℕ) → length (set_free bm f) ≡ length bm
unfolding set_free
length-set_free bm f = length-set bm (f / 64) _

pub length-set_used : (bm : List ℕ) (f : ℕ) → length (set_used bm f) ≡ length bm
unfolding set_used
length-set_used bm f = length-set bm (f / 64) _
