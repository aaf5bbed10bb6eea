-- ===== src/Process/Handle/Rights.antt =====
-- The rights of process/handle.rs as sets of bits.
use chod_os.Base.{
  ℕ, ◌^◌, ◌≤◌, ◌<◌, ◌≡◌, refl, ap, true, arith, ◌↔◌, ==_iff, bit_and, bit_and-lt, digit,
  digit-bit_and, eq_of_digits,
}
use chod_os.Process.Handle.{Capability, covers, restrict}

-- The code's test for the rights that a call requires says that every bit required is held.
pub covers_iff :
    (rights other : ℕ)
    → rights < 2 ^ 32
    → other < 2 ^ 32
    → (covers rights other ≡ true) ↔ ((i : ℕ) → i < 32 → digit other i ≤ digit rights i)
unfolding covers
covers_iff rights other p q = (
  λ e i h. omega (
    arith,
    ap (λ w. digit w i) ((==_iff (bit_and rights other) other).0 e),
    digit-bit_and rights other i,
  ),
  λ held. (==_iff (bit_and rights other) other).1 (
      eq_of_digits 32 (bit_and rights other) other (bit_and-lt 32 rights other p) q
        (λ i h. omega (arith, held i h, digit-bit_and rights other i))),
)

-- A restricted capability is for the same object, and a call may do with it what it may do with the
-- capability and what the mask allows, and nothing else: rights are never gained.
pub restrict-covers :
    (cap : Capability) (mask required : ℕ)
    → cap.rights < 2 ^ 32
    → mask < 2 ^ 32
    → required < 2 ^ 32
    → ((restrict cap mask).object ≡ cap.object)
      × ((covers (restrict cap mask).rights required ≡ true)
          ↔ ((covers cap.rights required ≡ true) × (covers mask required ≡ true)))
unfolding restrict
restrict-covers cap mask required p q r = (
  refl,
  (
    λ e.
        let held =
          (covers_iff (bit_and cap.rights mask) required (bit_and-lt 32 cap.rights mask p) r).0 e in
        (
          (covers_iff cap.rights required p r).1
              (λ i h. omega (arith, held i h, digit-bit_and cap.rights mask i)),
          (covers_iff mask required q r).1
              (λ i h. omega (arith, held i h, digit-bit_and cap.rights mask i)),
        ),
    λ both.
        (covers_iff (bit_and cap.rights mask) required (bit_and-lt 32 cap.rights mask p) r).1
          (λ i h. omega (
            arith,
            (covers_iff cap.rights required p r).0 both.0 i h,
            (covers_iff mask required q r).0 both.1 i h,
            digit-bit_and cap.rights mask i,
          )),
  ),
)
