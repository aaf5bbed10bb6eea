-- ===== src/Base/Slices.antt =====
-- Parts of lists: what `take`, `drop` and the joins of lists do to lengths and places.
use Prim.Native.Nat.{ℕ, zero, suc, ◌+◌, ◌-◌, ◌<◌, ◌≤◌, min}
use mathlib.Core.Path.{◌≡◌, refl, sym, ap, ◌∙◌}
use mathlib.Core.List.{List, [], ◌∷◌, ◌++◌}
use native.Mathlib.Omega.{arith}
use chod_os.Base.Lists.{length, get_or, take, drop, replicate}

module _ {ℓ} {A : Type ℓ} where
  pub length-drop : (n : ℕ) (xs : List A) → length (drop n xs) ≡ length xs - n
  length-drop zero xs = omega arith
  length-drop (suc n) [] = omega arith
  length-drop (suc n) (x ∷ xs) = omega (arith, length-drop n xs)

  pub drop_all : (n : ℕ) (xs : List A) → length xs ≤ n → drop n xs ≡ []
  drop_all zero [] h = refl
  drop_all zero (x ∷ xs) h = absurd (omega arith)
  drop_all (suc n) [] h = refl
  drop_all (suc n) (x ∷ xs) h = drop_all n xs (omega arith)

  pub take-min : (n : ℕ) (xs : List A) → take (min n (length xs)) xs ≡ take n xs
  take-min zero xs = ap (λ k. take k xs) {x = min 0 (length xs)} {y = 0} (omega arith)
  take-min (suc n) [] = ap (λ k. take {A = A} k []) {x = min (suc n) 0} {y = 0} (omega arith)
  take-min (suc n) (x ∷ xs) =
      ap (λ k. take k (x ∷ xs)) {x = min (suc n) (suc (length xs))} {y = suc (min n (length xs))}
        (omega arith)
      ∙ ap (λ ys. x ∷ ys) (take-min n xs)

  pub drop-min : (n : ℕ) (xs : List A) → drop (min n (length xs)) xs ≡ drop n xs
  drop-min zero xs = ap (λ k. drop k xs) {x = min 0 (length xs)} {y = 0} (omega arith)
  drop-min (suc n) [] = ap (λ k. drop {A = A} k []) {x = min (suc n) 0} {y = 0} (omega arith)
  drop-min (suc n) (x ∷ xs) =
      ap (λ k. drop k (x ∷ xs)) {x = min (suc n) (suc (length xs))} {y = suc (min n (length xs))}
        (omega arith)
      ∙ drop-min n xs

  -- A longer take is a take and then another.
  pub take-add : (m n : ℕ) (xs : List A) → take (m + n) xs ≡ take m xs ++ take n (drop m xs)
  take-add zero n xs = ap (λ k. take k xs) {x = 0 + n} {y = n} (omega arith)
  take-add (suc m) n [] = empty (suc m + n) ∙ sym (empty n)
    where
      empty : (k : ℕ) → take {A = A} k [] ≡ []
      empty zero = refl
      empty (suc k) = refl
  take-add (suc m) n (x ∷ xs) =
      ap (λ k. take k (x ∷ xs)) {x = suc m + n} {y = suc (m + n)} (omega arith)
      ∙ ap (λ ys. x ∷ ys) (take-add m n xs)

  pub drop-drop : (m n : ℕ) (xs : List A) → drop n (drop m xs) ≡ drop (m + n) xs
  drop-drop zero n xs = ap (λ k. drop k xs) {x = n} {y = 0 + n} (omega arith)
  drop-drop (suc m) n [] = empty n ∙ sym (empty (suc m + n))
    where
      empty : (k : ℕ) → drop {A = A} k [] ≡ []
      empty zero = refl
      empty (suc k) = refl
  drop-drop (suc m) n (x ∷ xs) =
      drop-drop m n xs ∙ ap (λ k. drop k (x ∷ xs)) {x = suc (m + n)} {y = suc m + n} (omega arith)

  pub get_or-append_left :
      (xs ys : List A) (i : ℕ) (d : A) → i < length xs → get_or (xs ++ ys) i d ≡ get_or xs i d
  get_or-append_left [] ys i d h = absurd (omega arith)
  get_or-append_left (x ∷ xs) ys zero d h = refl
  get_or-append_left (x ∷ xs) ys (suc i) d h = get_or-append_left xs ys i d (omega arith)

  pub get_or-append_right :
      (xs ys : List A) (i : ℕ) (d : A)
      → length xs ≤ i
      → get_or (xs ++ ys) i d ≡ get_or ys (i - length xs) d
  get_or-append_right [] ys i d h = ap (λ k. get_or ys k d) {x = i} {y = i - 0} (omega arith)
  get_or-append_right (x ∷ xs) ys zero d h = absurd (omega arith)
  get_or-append_right (x ∷ xs) ys (suc i) d h =
      get_or-append_right xs ys i d (omega arith)
      ∙ ap (λ k. get_or ys k d) {x = i - length xs} {y = suc i - suc (length xs)} (omega arith)

  pub get_or-take :
      (n : ℕ) (xs : List A) (i : ℕ) (d : A) → i < n → get_or (take n xs) i d ≡ get_or xs i d
  get_or-take zero xs i d h = absurd (omega arith)
  get_or-take (suc n) [] i d h = refl
  get_or-take (suc n) (x ∷ xs) zero d h = refl
  get_or-take (suc n) (x ∷ xs) (suc i) d h = get_or-take n xs i d (omega arith)

  pub get_or-drop :
      (n : ℕ) (xs : List A) (i : ℕ) (d : A) → get_or (drop n xs) i d ≡ get_or xs (n + i) d
  get_or-drop zero xs i d = ap (λ k. get_or xs k d) {x = i} {y = 0 + i} (omega arith)
  get_or-drop (suc n) [] i d = refl
  get_or-drop (suc n) (x ∷ xs) i d =
      get_or-drop n xs i d
      ∙ ap (λ k. get_or (x ∷ xs) k d) {x = suc (n + i)} {y = suc n + i} (omega arith)

  pub get_or-outside : (xs : List A) (i : ℕ) (d : A) → length xs ≤ i → get_or xs i d ≡ d
  get_or-outside [] i d h = refl
  get_or-outside (x ∷ xs) zero d h = absurd (omega arith)
  get_or-outside (x ∷ xs) (suc i) d h = get_or-outside xs i d (omega arith)

  pub get_or-replicate : (n : ℕ) (d : A) (i : ℕ) → get_or (replicate n d) i d ≡ d
  get_or-replicate zero d i = refl
  get_or-replicate (suc n) d zero = refl
  get_or-replicate (suc n) d (suc i) = get_or-replicate n d i

  pub take-append : (xs ys : List A) → take (length xs) (xs ++ ys) ≡ xs
  take-append [] ys = refl
  take-append (x ∷ xs) ys = ap (λ zs. x ∷ zs) (take-append xs ys)

  pub drop-append : (xs ys : List A) → drop (length xs) (xs ++ ys) ≡ ys
  drop-append [] ys = refl
  drop-append (x ∷ xs) ys = drop-append xs ys
