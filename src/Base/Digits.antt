-- ===== src/Base/Digits.antt =====
-- Binary digits of native numbers: the laws of `&`, `|`, `!` and `1 << b` that the kernel's
-- bitmaps, masks and flag words rest on.
use Prim.Native.Nat.{
  ℕ, zero, suc, ◌+◌, ◌-◌, ◌*◌, ◌/◌, ◌%◌, ◌^◌, ◌≤◌, ◌<◌, min, max, bit_and, bit_or, digits,
  bit_and-bitwise, bit_or-bitwise,
}
use mathlib.Core.Path.{◌≡◌, refl, ap, ◌∙◌}
use mathlib.Core.Logic.{◌≢◌}
use native.Mathlib.Nat.{
  pow-suc, one-le-pow, div-add-mod', add-mul-mod_self_right, mod-lt, mod-eq_of_lt,
}
use native.Mathlib.Omega.{arith}

-- Digit `i` of `w`, lowest first.
abbrev pub digit : ℕ → ℕ → ℕ
digit w zero = w % 2
digit w (suc i) = digit (w / 2) i

-- The native operations count the digits to go by their first argument; any larger count will do.
module _ (z : ℕ → ℕ) (f : ℕ → ℕ → ℕ) where
  more_fuel : (n m a b : ℕ) → a ≤ n → a ≤ m → digits z f n a b ≡ digits z f m a b
  more_fuel n m zero b p q = stop n m
    where
      stop : (n m : ℕ) → digits z f n 0 b ≡ digits z f m 0 b
      stop zero zero = refl
      stop zero (suc m) = refl
      stop (suc n) zero = refl
      stop (suc n) (suc m) = refl
  more_fuel zero m (suc a) b p q = absurd (omega arith)
  more_fuel (suc n) zero (suc a) b p q = absurd (omega arith)
  more_fuel (suc n) (suc m) (suc a) b p q =
      ap (λ (t : ℕ). t * 2 + f (suc a % 2) (b % 2))
        (more_fuel n m (suc a / 2) (b / 2) (omega arith) (omega arith))

pub bit_and_halves : (a b : ℕ) → bit_and a b ≡ bit_and (a / 2) (b / 2) * 2 + min (a % 2) (b % 2)
bit_and_halves zero b = omega (arith, bit_and-bitwise 0 b, bit_and-bitwise 0 (b / 2))
bit_and_halves (suc a) b = omega (
  arith,
  bit_and-bitwise (suc a) b,
  bit_and-bitwise (suc a / 2) (b / 2),
  more_fuel (λ b. zero) min a (suc a / 2) (suc a / 2) (b / 2) (omega arith) (omega arith),
)

pub bit_or_halves : (a b : ℕ) → bit_or a b ≡ bit_or (a / 2) (b / 2) * 2 + max (a % 2) (b % 2)
bit_or_halves zero b = omega (arith, bit_or-bitwise 0 b, bit_or-bitwise 0 (b / 2))
bit_or_halves (suc a) b = omega (
  arith,
  bit_or-bitwise (suc a) b,
  bit_or-bitwise (suc a / 2) (b / 2),
  more_fuel (λ b. b) max a (suc a / 2) (suc a / 2) (b / 2) (omega arith) (omega arith),
)

pub digit-le-one : (w i : ℕ) → digit w i ≤ 1
digit-le-one w zero = omega arith
digit-le-one w (suc i) = digit-le-one (w / 2) i

pub digit-zero : (i : ℕ) → digit 0 i ≡ 0
digit-zero zero = refl
digit-zero (suc i) = digit-zero i

pub digit-bit_and : (a b i : ℕ) → digit (bit_and a b) i ≡ min (digit a i) (digit b i)
digit-bit_and a b zero = omega (arith, bit_and_halves a b)
digit-bit_and a b (suc i) =
    ap (λ w. digit w i) (omega (arith, bit_and_halves a b)) ∙ digit-bit_and (a / 2) (b / 2) i

pub digit-bit_or : (a b i : ℕ) → digit (bit_or a b) i ≡ max (digit a i) (digit b i)
digit-bit_or a b zero = omega (arith, bit_or_halves a b)
digit-bit_or a b (suc i) =
    ap (λ w. digit w i) (omega (arith, bit_or_halves a b)) ∙ digit-bit_or (a / 2) (b / 2) i

-- `1 << b` has the one digit `b`.
pub digit-pow_self : (b : ℕ) → digit (2 ^ b) b ≡ 1
digit-pow_self zero = refl
digit-pow_self (suc b) = ap (λ w. digit w b) (omega (arith, pow-suc 2 b)) ∙ digit-pow_self b

pub digit-pow_ne : (b i : ℕ) → b ≢ i → digit (2 ^ b) i ≡ 0
digit-pow_ne zero zero h = absurd (h refl)
digit-pow_ne zero (suc i) h = digit-zero i
digit-pow_ne (suc b) zero h = omega (arith, pow-suc 2 b)
digit-pow_ne (suc b) (suc i) h =
    ap (λ w. digit w i) (omega (arith, pow-suc 2 b)) ∙ digit-pow_ne b i (λ e. h (ap suc e))

-- `!m` at a width of `n` bits.
pub digit-complement : (n m i : ℕ) → m < 2 ^ n → i < n → digit (2 ^ n - 1 - m) i ≡ 1 - digit m i
digit-complement zero m i h k = absurd (omega arith)
digit-complement (suc n) m zero h k = omega (arith, pow-suc 2 n)
digit-complement (suc n) m (suc i) h k =
    ap (λ w. digit w i) (omega (arith, pow-suc 2 n))
    ∙ digit-complement n (m / 2) i (omega (arith, pow-suc 2 n)) (omega arith)

pub bit_and-zero : (a : ℕ) → bit_and a 0 ≡ 0
bit_and-zero a = fall a a (omega arith)
  where
    fall : (n a : ℕ) → a ≤ n → bit_and a 0 ≡ 0
    fall n zero h = refl
    fall zero (suc a) h = absurd (omega arith)
    fall (suc n) (suc a) h =
        omega (arith, bit_and_halves (suc a) 0, fall n (suc a / 2) (omega arith))

-- A mask of one bit leaves that digit in its place.
pub bit_and-pow : (w b : ℕ) → bit_and w (2 ^ b) ≡ digit w b * 2 ^ b
bit_and-pow w zero = omega (arith, bit_and_halves w 1, bit_and-zero (w / 2))
bit_and-pow w (suc b) =
    let half : 2 ^ suc b / 2 ≡ 2 ^ b = omega (arith, pow-suc 2 b) in
    bit_and_halves w (2 ^ suc b)
    ∙ rw half (
        omega (
          arith,
          pow-suc 2 b,
          bit_and-pow (w / 2) b,
          ap (λ (t : ℕ). digit (w / 2) b * t) (pow-suc 2 b),
        ))

-- Words with the same digits are equal.
pub eq_of_digits :
    (n a b : ℕ) → a < 2 ^ n → b < 2 ^ n → ((i : ℕ) → i < n → digit a i ≡ digit b i) → a ≡ b
eq_of_digits zero a b p q h = omega arith
eq_of_digits (suc n) a b p q h = omega (
  arith,
  h 0 (omega arith),
  eq_of_digits n (a / 2) (b / 2) (omega (arith, pow-suc 2 n)) (omega (arith, pow-suc 2 n))
      (λ i k. h (suc i) (omega arith)),
)

pub bit_or-lt : (n a b : ℕ) → a < 2 ^ n → b < 2 ^ n → bit_or a b < 2 ^ n
bit_or-lt zero a b p q =
    let za : a ≡ 0 = omega arith in let zb : b ≡ 0 = omega arith in rw (za, zb) (omega arith)
bit_or-lt (suc n) a b p q = omega (
  arith,
  bit_or_halves a b,
  pow-suc 2 n,
  bit_or-lt n (a / 2) (b / 2) (omega (arith, pow-suc 2 n)) (omega (arith, pow-suc 2 n)),
)

pub bit_and-lt : (n a b : ℕ) → a < 2 ^ n → bit_and a b < 2 ^ n
bit_and-lt zero a b p = let za : a ≡ 0 = omega arith in rw za (omega (arith, bit_and-bitwise 0 b))
bit_and-lt (suc n) a b p = omega (
  arith,
  bit_and_halves a b,
  pow-suc 2 n,
  bit_and-lt n (a / 2) (b / 2) (omega (arith, pow-suc 2 n)),
)

pub pow-pos : (b : ℕ) → 0 < 2 ^ b
pow-pos b = omega (arith, one-le-pow b 2 (omega arith))

pub pow-lt : (b n : ℕ) → b < n → 2 ^ b < 2 ^ n
pow-lt b zero h = absurd (omega arith)
pow-lt zero (suc n) h = omega (arith, pow-suc 2 n, pow-pos n)
pow-lt (suc b) (suc n) h = omega (arith, pow-suc 2 n, pow-suc 2 b, pow-lt b n (omega arith))

mod-double : (m a : ℕ) → 0 < m → a % (2 * m) ≡ a / 2 % m * 2 + a % 2
mod-double m a h =
    let low : ℕ = a / 2 % m * 2 + a % 2 in
    let small : a / 2 % m < m = mod-lt (a / 2) h in
    let split : a ≡ low + a / 2 / m * (2 * m) =
      omega (arith, div-add-mod' (a / 2) m, twice (a / 2 / m)) in
    ap (λ (k : ℕ). k % (2 * m)) split
    ∙ add-mul-mod_self_right low (a / 2 / m) (2 * m)
    ∙ mod-eq_of_lt (omega arith)
  where
    twice : (q : ℕ) → q * (2 * m) ≡ 2 * (q * m)
    twice q = grind arith

-- A mask of the lowest digits takes a remainder.
pub bit_and-mask : (n a : ℕ) → bit_and a (2 ^ n - 1) ≡ a % 2 ^ n
bit_and-mask zero a = omega (arith, bit_and-zero a)
bit_and-mask (suc n) a =
    let half : (2 ^ suc n - 1) / 2 ≡ 2 ^ n - 1 = omega (arith, pow-suc 2 n, pow-pos n) in
    let double : 2 ^ suc n ≡ 2 * 2 ^ n = omega (arith, pow-suc 2 n) in
    bit_and_halves a (2 ^ suc n - 1)
    ∙ rw half (
        omega (
          arith,
          pow-suc 2 n,
          pow-pos n,
          bit_and-mask n (a / 2),
          mod-double (2 ^ n) a (pow-pos n),
          ap (λ (k : ℕ). a % k) double,
        ))

-- Digits that do not meet are added.
pub bit_or-add : (n a b : ℕ) → b < 2 ^ n → bit_or (a * 2 ^ n) b ≡ a * 2 ^ n + b
bit_or-add zero a b h =
    let nothing : b ≡ 0 = omega arith in rw nothing (nothing_right (a * 1) ∙ omega arith)
  where
    nothing_right : (a : ℕ) → bit_or a 0 ≡ a
    nothing_right a = fall a a (omega arith)
      where
        fall : (n a : ℕ) → a ≤ n → bit_or a 0 ≡ a
        fall n zero h = refl
        fall zero (suc a) h = absurd (omega arith)
        fall (suc n) (suc a) h =
            omega (arith, bit_or_halves (suc a) 0, fall n (suc a / 2) (omega arith))
bit_or-add (suc n) a b h =
    let half : a * 2 ^ suc n / 2 ≡ a * 2 ^ n = omega (arith, doubled) in
    bit_or_halves (a * 2 ^ suc n) b
    ∙ rw half (omega (arith, doubled, bit_or-add n a (b / 2) (omega (arith, pow-suc 2 n))))
  where
    doubled : a * 2 ^ suc n ≡ 2 * (a * 2 ^ n)
    doubled = ap (λ k. a * k) (pow-suc 2 n) ∙ shuffle (2 ^ n)
      where
        shuffle : (k : ℕ) → a * (k * 2) ≡ 2 * (a * k)
        shuffle k = grind arith

pub bit_or_comm : (n a b : ℕ) → a < 2 ^ n → b < 2 ^ n → bit_or a b ≡ bit_or b a
bit_or_comm n a b p q =
    eq_of_digits n (bit_or a b) (bit_or b a) (bit_or-lt n a b p q) (bit_or-lt n b a q p)
      (λ i h. omega (arith, digit-bit_or a b i, digit-bit_or b a i))
