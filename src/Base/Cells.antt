-- ===== src/Base/Cells.antt =====
-- A memory with a byte at each address, a number that is read as a byte, and little-endian words in
-- it.
use Prim.Native.Nat.{ℕ, zero, suc, ◌+◌, ◌*◌, ◌/◌, ◌%◌, ◌^◌, ◌≤◌, ◌<◌}
use mathlib.Core.Path.{◌≡◌, refl, ap, ◌∙◌}
use mathlib.Core.Logic.{◌⊎◌, inl, inr}
use mathlib.Core.List.{List, [], ◌∷◌}
use native.Mathlib.Omega.{arith}
use native.Mathlib.Nat.{pow-suc, div-add-mod', add-mul-mod_self_right, mod-lt, mod-eq_of_lt}
use chod_os.Base.Tests.{◌==◌, if◌then◌else◌}
use chod_os.Base.Lists.{length, get_or}
use chod_os.Base.Words.{u64}

abbrev pub Memory : Type 0
Memory = ℕ → ℕ

abbrev pub poke : Memory → ℕ → ℕ → Memory
poke mem a v q = if q == a then v else mem q

unfoldable pub store_bytes : ℕ → Memory → ℕ → ℕ → Memory
store_bytes zero mem a v = mem
store_bytes (suc n) mem a v = store_bytes n (poke mem a (v % 256)) (a + 1) (v / 256)

unfoldable pub load_bytes : ℕ → Memory → ℕ → ℕ
load_bytes zero mem a = 0
load_bytes (suc n) mem a = load_bytes n mem (a + 1) * 256 + mem a % 256

-- `*(a as *mut u64) = v` and `*(a as *const u64)`.
unfoldable pub store64 : Memory → ℕ → ℕ → Memory
unfolding store_bytes
store64 mem a v = store_bytes 8 mem a v

unfoldable pub load64 : Memory → ℕ → ℕ
unfolding load_bytes
load64 mem a = load_bytes 8 mem a

-- Words stored one after another.
unfoldable pub store_words : Memory → ℕ → List ℕ → Memory
store_words mem a [] = mem
store_words mem a (v ∷ vs) = store_words (store64 mem a v) (a + 8) vs

-- `copy_nonoverlapping` from a list of bytes.
unfoldable pub copy_bytes : Memory → ℕ → List ℕ → Memory
copy_bytes mem a [] = mem
copy_bytes mem a (b ∷ bs) = copy_bytes (poke mem a b) (a + 1) bs

store_bytes_outside :
    (n : ℕ) (mem : Memory) (a v q : ℕ) → (q < a) ⊎ (a + n ≤ q) → store_bytes n mem a v q ≡ mem q
unfolding store_bytes
store_bytes_outside zero mem a v q out = refl
store_bytes_outside (suc n) mem a v q out =
    store_bytes_outside n (poke mem a (v % 256)) (a + 1) (v / 256) q (ground (arith, out))
    ∙ ground (arith, out)

load_bytes_eq :
    (n : ℕ) (f g : Memory) (a : ℕ)
    → ((q : ℕ) → a ≤ q → q < a + n → f q ≡ g q)
    → load_bytes n f a ≡ load_bytes n g a
unfolding load_bytes
load_bytes_eq zero f g a same = refl
load_bytes_eq (suc n) f g a same = omega (
  arith,
  same a (omega arith) (omega arith),
  load_bytes_eq n f g (a + 1) (λ q p r. same q (omega arith) (omega arith)),
)

load-store_bytes_apart :
    (n m : ℕ) (mem : Memory) (a v b : ℕ)
    → (b + m ≤ a) ⊎ (a + n ≤ b)
    → load_bytes m (store_bytes n mem a v) b ≡ load_bytes m mem b
load-store_bytes_apart n m mem a v b apart = load_bytes_eq m (store_bytes n mem a v) mem b (λ q p r.
    store_bytes_outside n mem a v q
      (elim apart [ inl below ↦ inl (omega arith) | inr above ↦ inr (omega arith) ]))

-- A number's lowest digit in base 256 and the rest of it, up to `n` further digits.
mod-256 : (m v : ℕ) → 0 < m → v % (m * 256) ≡ v / 256 % m * 256 + v % 256
mod-256 m v h =
    let low : ℕ = v / 256 % m * 256 + v % 256 in
    let small : v / 256 % m < m = mod-lt (v / 256) h in
    let split : v ≡ low + v / 256 / m * (m * 256) =
      omega (arith, div-add-mod' (v / 256) m, shuffle (v / 256 / m)) in
    ap (λ (k : ℕ). k % (m * 256)) split
    ∙ add-mul-mod_self_right low (v / 256 / m) (m * 256)
    ∙ mod-eq_of_lt (omega arith)
  where
    shuffle : (q : ℕ) → q * (m * 256) ≡ q * m * 256
    shuffle q = grind arith

load-store_bytes :
    (n : ℕ) (mem : Memory) (a v : ℕ) → load_bytes n (store_bytes n mem a v) a ≡ v % 256 ^ n
unfolding load_bytes store_bytes
load-store_bytes zero mem a v = omega arith
load-store_bytes (suc n) mem a v = omega (
  arith,
  load-store_bytes n (poke mem a (v % 256)) (a + 1) (v / 256),
  store_bytes_outside n (poke mem a (v % 256)) (a + 1) (v / 256) a (inl (omega arith)),
  here,
  mod-256 (256 ^ n) v positive,
  ap (λ (k : ℕ). v % k) (pow-suc 256 n),
)
  where
    here : poke mem a (v % 256) a ≡ v % 256
    here = ground arith

    positive : 0 < 256 ^ n
    positive = grow n
      where
        grow : (n : ℕ) → 0 < 256 ^ n
        grow zero = omega arith
        grow (suc n) = omega (arith, pow-suc 256 n, grow n)

pub load64-store64 : (mem : Memory) (a v : ℕ) → load64 (store64 mem a v) a ≡ u64 v
unfolding load64 store64
load64-store64 mem a v = load-store_bytes 8 mem a v

pub load64-store64_apart :
    (mem : Memory) (a v b : ℕ)
    → (b + 8 ≤ a) ⊎ (a + 8 ≤ b)
    → load64 (store64 mem a v) b ≡ load64 mem b
unfolding load64 store64
load64-store64_apart mem a v b apart = load-store_bytes_apart 8 8 mem a v b apart

pub load64-store_words_apart :
    (mem : Memory) (a : ℕ) (vs : List ℕ) (b : ℕ)
    → (b + 8 ≤ a) ⊎ (a + 8 * length vs ≤ b)
    → load64 (store_words mem a vs) b ≡ load64 mem b
unfolding store_words
load64-store_words_apart mem a [] b apart = refl
load64-store_words_apart mem a (v ∷ vs) b apart =
    load64-store_words_apart (store64 mem a v) (a + 8) vs b
      (elim apart [ inl below ↦ inl (omega arith) | inr above ↦ inr (omega arith) ])
    ∙ load64-store64_apart mem a v b
        (elim apart [ inl below ↦ inl below | inr above ↦ inr (omega arith) ])

-- The word at place `i` of those stored.
pub load64-store_words :
    (mem : Memory) (a : ℕ) (vs : List ℕ) (i b : ℕ)
    → i < length vs
    → b ≡ a + 8 * i
    → load64 (store_words mem a vs) b ≡ u64 (get_or vs i 0)
unfolding store_words
load64-store_words mem a [] i b h e = absurd (omega arith)
load64-store_words mem a (v ∷ vs) zero b h e =
    load64-store_words_apart (store64 mem a v) (a + 8) vs b (inl (omega arith))
    ∙ ap (λ (k : ℕ). load64 (store64 mem a v) k) {x = b} {y = a} (omega arith)
    ∙ load64-store64 mem a v
load64-store_words mem a (v ∷ vs) (suc i) b h e =
    load64-store_words (store64 mem a v) (a + 8) vs i b (omega arith) (omega arith)

load_bytes-lt : (n : ℕ) (mem : Memory) (a : ℕ) → load_bytes n mem a < 256 ^ n
unfolding load_bytes
load_bytes-lt zero mem a = omega arith
load_bytes-lt (suc n) mem a = omega (arith, pow-suc 256 n, load_bytes-lt n mem (a + 1))

pub load64-lt : (mem : Memory) (a : ℕ) → load64 mem a < 2 ^ 64
unfolding load64
load64-lt mem a = load_bytes-lt 8 mem a

pub load64_eq :
    (f g : Memory) (a : ℕ) → ((q : ℕ) → a ≤ q → q < a + 8 → f q ≡ g q) → load64 f a ≡ load64 g a
unfolding load64
load64_eq f g a same = load_bytes_eq 8 f g a same

pub store64_outside : (mem : Memory) (a v q : ℕ) → (q < a) ⊎ (a + 8 ≤ q) → store64 mem a v q ≡ mem q
unfolding store64
store64_outside mem a v q out = store_bytes_outside 8 mem a v q out
