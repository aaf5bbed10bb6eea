-- ===== src/Base/Zeros.antt =====
-- `u64::trailing_zeros`, which finds the lowest one of a word.
use Prim.Native.Nat.{ℕ, zero, suc, ◌/◌, ◌%◌, ◌^◌, ◌<◌}
use mathlib.Core.Path.{◌≡◌}
use mathlib.Core.Logic.{◌≢◌}
use native.Mathlib.Nat.{pow-suc}
use native.Mathlib.Omega.{arith}
use native.Mathlib.Decide.{ℕ_discrete}
use chod_os.Base.Digits.{digit}
use chod_os.Base.Tests.{◌==◌, if◌then◌else◌}

-- Over the bits left to look at.
unfoldable pub trailing_zeros : ℕ → ℕ → ℕ
trailing_zeros zero w = 0
trailing_zeros (suc n) w = if w % 2 == 1 then 0 else suc (trailing_zeros n (w / 2))

-- A word that is not zero has its lowest one where `trailing_zeros` says.
pub record Lowest (n w : ℕ) : Type 0 where
  pub inside : trailing_zeros n w < n
  pub one : digit w (trailing_zeros n w) ≡ 1
  pub below : (j : ℕ) → j < trailing_zeros n w → digit w j ≡ 0

pub trailing_zeros-Lowest : (n w : ℕ) → w < 2 ^ n → w ≢ 0 → Lowest n w
unfolding trailing_zeros
trailing_zeros-Lowest zero w h ne = absurd (ne (omega arith))
trailing_zeros-Lowest (suc n) w h ne = elim (ℕ_discrete (w % 2) 1) [
  | yes odd ↦
      let here : trailing_zeros (suc n) w ≡ 0 = ground arith in
      record { inside = omega arith; one = rw here odd; below = λ j k. absurd (omega arith) }
  | no even ↦
      let later : trailing_zeros (suc n) w ≡ suc (trailing_zeros n (w / 2)) = ground arith in
      let half = trailing_zeros-Lowest n (w / 2) (omega (arith, pow-suc 2 n)) (omega arith) in
      record {
        inside = omega (arith, half.inside);
        one = rw later half.one;
        below = λ j k. lower j even (omega arith) half.below;
      }
]
  where
    lower :
        (j : ℕ)
        → w % 2 ≢ 1
        → j < suc (trailing_zeros n (w / 2))
        → ((i : ℕ) → i < trailing_zeros n (w / 2) → digit (w / 2) i ≡ 0)
        → digit w j ≡ 0
    lower zero even k h = omega arith
    lower (suc j) even k h = h j (omega arith)
