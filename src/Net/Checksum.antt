-- ===== src/Net/Checksum.antt =====
-- net/checksum.rs: the Internet checksum of RFC 1071.
use chod_os.Base.{
  ℕ, zero, suc, ◌+◌, ◌-◌, ◌*◌, ◌/◌, ◌%◌, ◌^◌, ◌≤◌, ◌<◌, ◌≡◌, ap, ◌∙◌, List, [], ◌∷◌, ◌++◌, arith,
  ◌==◌, if◌then◌else◌, bit_or, bit_and, bit_or-add, bit_and-mask, All, length, ℕ_discrete,
}
use chod_os.Base.Words.{u8, u16, u32}
use chod_os.Net.Bytes.{IsByte, high}

-- The loop over the pairs of bytes, and the odd byte behind them.
unfoldable pub word_sum : ℕ → List ℕ → ℕ
word_sum sum [] = sum
word_sum sum (a ∷ []) = u32 (sum + u32 (a * 2 ^ 8))
word_sum sum (a ∷ b ∷ rest) = word_sum (u32 (sum + bit_or (u32 (a * 2 ^ 8)) b)) rest

-- The loop that adds the carries, `fuel` rounds at most.
unfoldable pub fold : ℕ → ℕ → ℕ
fold zero sum = sum
fold (suc fuel) sum =
    let again = fold fuel (u32 (bit_and sum 65535 + sum / 2 ^ 16)) in
    if sum / 2 ^ 16 == 0 then sum else again

-- Two rounds are enough for a sum of 32 bits.
unfoldable pub internet_checksum : List ℕ → ℕ
internet_checksum bytes = 2 ^ 16 - 1 - u16 (fold 2 (word_sum 0 bytes))

-- The sum of the bytes as big-endian words, without the bounds of the machine.
pub total : List ℕ → ℕ
total [] = 0
total (a ∷ []) = a * 256
total (a ∷ b ∷ rest) = a * 256 + b + total rest

word_sum_lem :
    (sum : ℕ) (bytes : List ℕ)
    → All IsByte bytes
    → sum + total bytes < 2 ^ 32
    → word_sum sum bytes ≡ sum + total bytes
unfolding word_sum total
word_sum_lem sum [] ok h = omega arith
word_sum_lem sum (a ∷ []) ok h = omega arith
word_sum_lem sum (a ∷ b ∷ rest) (p, (q, ok)) h =
    let whole : u32 (a * 2 ^ 8) ≡ a * 2 ^ 8 = omega arith in
    let joined : bit_or (u32 (a * 2 ^ 8)) b ≡ a * 256 + b =
      ap (λ w. bit_or w b) whole ∙ bit_or-add 8 a b q in
    let small : u32 (sum + bit_or (u32 (a * 2 ^ 8)) b) ≡ sum + (a * 256 + b) = omega arith in
    ap (λ s. word_sum s rest) small
    ∙ word_sum_lem (sum + (a * 256 + b)) rest ok (omega arith)
    ∙ omega arith

-- What the carries come to: the remainder by 65535, with 65535 in the place of 0.
abbrev pub ones : ℕ → ℕ
ones s = if s == 0 then 0 else (s - 1) % 65535 + 1

pub fold_lem : (sum : ℕ) → sum < 2 ^ 32 → fold 2 sum ≡ ones sum
unfolding fold
fold_lem sum h =
    ground (arith, bit_and-mask 16 sum, bit_and-mask 16 (u32 (bit_and sum 65535 + sum / 2 ^ 16)))

-- The checksum in closed form.
pub internet_checksum_lem :
    (bytes : List ℕ)
    → All IsByte bytes
    → total bytes < 2 ^ 32
    → internet_checksum bytes ≡ 65535 - ones (total bytes)
unfolding internet_checksum
internet_checksum_lem bytes ok h =
    let sum = word_sum_lem 0 bytes ok (omega (arith, h)) in
    ground (arith, ap (fold 2) sum, fold_lem (total bytes) h)

total-append : (xs ys : List ℕ) → length xs % 2 ≡ 0 → total (xs ++ ys) ≡ total xs + total ys
unfolding total
total-append [] ys e = omega arith
total-append (a ∷ []) ys e = absurd (omega arith)
total-append (a ∷ b ∷ xs) ys e = omega (arith, total-append xs ys (omega arith))

total-bound : (xs : List ℕ) → All IsByte xs → 2 * total xs ≤ (length xs + 1) * 65535
unfolding total
total-bound [] ok = omega arith
total-bound (a ∷ []) (p, _) = omega arith
total-bound (a ∷ b ∷ xs) (p, (q, ok)) = omega (arith, total-bound xs ok)

All-append : (xs ys : List ℕ) → All IsByte xs → All IsByte ys → All IsByte (xs ++ ys)
All-append [] ys p q = q
All-append (x ∷ xs) ys (b, p) q = (b, All-append xs ys p q)

cancel : (s c t : ℕ) → c ≡ 65535 - ones s → t ≡ s + c % 65536 → 65535 - ones t ≡ 0
cancel s c t e sum = elim (ℕ_discrete s 0) [
  | yes none ↦ ground arith
  | no some ↦
      let c' : c ≡ 65534 - (s - 1) % 65535 = ground arith in
      let t' : t ≡ s + c = omega arith in
      let last : (t - 1) % 65535 ≡ 65534 = omega (arith, c', t', some) in ground (arith, last)
]

-- A message whose checksum field, at an even place, was filled with the checksum of the message with
-- that field at zero, has checksum zero: the receiver accepts it. The message is at most 131070
-- bytes, so that the 32-bit sum does not wrap; an Internet packet has at most 65535.
pub internet_checksum_verifies :
    (xs ys : List ℕ)
    → All IsByte xs
    → All IsByte ys
    → length xs % 2 ≡ 0
    → length xs + 2 + length ys ≤ 131069
    → let csum = internet_checksum (xs ++ (0 ∷ 0 ∷ ys)) in
      internet_checksum (xs ++ (high csum ∷ u8 csum ∷ ys)) ≡ 0
unfolding total
internet_checksum_verifies xs ys ok_x ok_y even short =
    let csum = internet_checksum (xs ++ (0 ∷ 0 ∷ ys)) in
    let before =
      internet_checksum_lem (xs ++ (0 ∷ 0 ∷ ys))
        (All-append xs (0 ∷ 0 ∷ ys) ok_x (omega arith, (omega arith, ok_y)))
        (omega (arith, blank, bound_x, bound_y)) in
    let after =
      internet_checksum_lem (xs ++ (high csum ∷ u8 csum ∷ ys))
        (All-append xs (high csum ∷ u8 csum ∷ ys) ok_x (omega arith, (omega arith, ok_y)))
        (omega (arith, filled csum, bound_x, bound_y)) in
    after
    ∙ cancel (total xs + total ys) csum (total (xs ++ (high csum ∷ u8 csum ∷ ys)))
        (before ∙ ap (λ t. 65535 - ones t) blank) (filled csum)
  where
    bound_x : 2 * total xs ≤ (length xs + 1) * 65535
    bound_x = total-bound xs ok_x

    bound_y : 2 * total ys ≤ (length ys + 1) * 65535
    bound_y = total-bound ys ok_y

    blank : total (xs ++ (0 ∷ 0 ∷ ys)) ≡ total xs + total ys
    blank = omega (arith, total-append xs (0 ∷ 0 ∷ ys) even)

    filled : (c : ℕ) → total (xs ++ (high c ∷ u8 c ∷ ys)) ≡ total xs + total ys + c % 65536
    filled c = omega (arith, total-append xs (high c ∷ u8 c ∷ ys) even)
