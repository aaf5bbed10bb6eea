-- ===== src/Paging/Bits.antt =====
-- The words of page tables: `|` of a page's address and the bits below it.
use chod_os.Base.{
  ◌-◌, ℕ, zero, suc, ◌+◌, ◌*◌, ◌/◌, ◌%◌, ◌^◌, ◌≡◌, ◌<◌, ◌≤◌, refl, ap, ◌∙◌, arith, bit_or,
  bit_or_halves, bit_and, bit_and_halves, bit_and-mask,
}
use chod_os.Base.Words.{not64}
use native.Mathlib.Nat.{pow-suc, div-div-eq-div-mul}

bit_or-zero : (a : ℕ) → bit_or a 0 ≡ a
bit_or-zero a = fall a a (omega arith)
  where
    fall : (n a : ℕ) → a ≤ n → bit_or a 0 ≡ a
    fall n zero h = refl
    fall zero (suc a) h = absurd (omega arith)
    fall (suc n) (suc a) h =
        omega (arith, bit_or_halves (suc a) 0, fall n (suc a / 2) (omega arith))

pub bit_or-shift : (k a b : ℕ) → b < 2 ^ k → bit_or (a * 2 ^ k) b ≡ a * 2 ^ k + b
bit_or-shift zero a b h =
    ap (bit_or (a * 1)) {x = b} {y = 0} (omega arith) ∙ bit_or-zero (a * 1) ∙ omega arith
bit_or-shift (suc k) a b h =
    let twice : a * 2 ^ suc k ≡ a * 2 ^ k * 2 = ap (λ (t : ℕ). a * t) (pow-suc 2 k) ∙ grind arith in
    omega (
      arith,
      twice,
      bit_or_halves (a * 2 ^ suc k) b,
      ap (λ t. bit_or t (b / 2)) {x = a * 2 ^ suc k / 2} {y = a * 2 ^ k} (omega (arith, twice)),
      bit_or-shift k a (b / 2) (omega (arith, h, pow-suc 2 k)),
    )

-- `page | flags`.
pub bit_or-page : (p b : ℕ) → p % 4096 ≡ 0 → b < 4096 → bit_or p b ≡ p + b
bit_or-page p b h k =
    ap (λ t. bit_or t b) {x = p} {y = p / 4096 * 2 ^ 12} (omega arith)
    ∙ bit_or-shift 12 (p / 4096) b (omega arith)
    ∙ omega arith

-- `e | PTE_PRESENT`.
pub bit_or-one : (e : ℕ) → bit_or e 1 ≡ e / 2 * 2 + 1
bit_or-one e = omega (arith, bit_or_halves e 1, bit_or-zero (e / 2))

bit_and-shift : (k a b : ℕ) → bit_and a (b * 2 ^ k) ≡ bit_and (a / 2 ^ k) b * 2 ^ k
bit_and-shift zero a b =
    ap (bit_and a) {x = b * 2 ^ 0} {y = b} (omega arith)
    ∙ ap (λ t. bit_and t b) {x = a} {y = a / 2 ^ 0} (omega arith)
    ∙ omega arith
bit_and-shift (suc k) a b =
    let twice : (c : ℕ) → c * 2 ^ suc k ≡ c * 2 ^ k * 2 =
      λ c. ap (λ (t : ℕ). c * t) (pow-suc 2 k) ∙ grind arith in
    let halves : a / 2 / 2 ^ k ≡ a / 2 ^ suc k =
      div-div-eq-div-mul a 2 (2 ^ k) ∙ ap (λ (t : ℕ). a / t) (omega (arith, pow-suc 2 k)) in
    omega (
      arith,
      twice b,
      bit_and_halves a (b * 2 ^ suc k),
      ap (λ t. bit_and (a / 2) t) {x = b * 2 ^ suc k / 2} {y = b * 2 ^ k} (omega (arith, twice b)),
      bit_and-shift k (a / 2) b,
      ap (λ t. bit_and t b * 2 ^ k) halves,
      twice (bit_and (a / 2 ^ suc k) b),
    )

-- `a & !0xFFF`.
pub page_of-mask : (a : ℕ) → a < 2 ^ 64 → bit_and a (not64 4095) ≡ a / 4096 * 4096
page_of-mask a h =
    bit_and-shift 12 a (2 ^ 52 - 1)
    ∙ ap (λ (t : ℕ). t * 2 ^ 12) (bit_and-mask 52 (a / 2 ^ 12))
    ∙ omega (arith, h)
