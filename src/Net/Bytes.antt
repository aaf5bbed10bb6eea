-- ===== src/Net/Bytes.antt =====
-- Bytes, addresses and big-endian words of the frames of net/. An address is a record of its bytes,
-- a frame a list of bytes.
use chod_os.Base.{
  ℕ, ◌+◌, ◌*◌, ◌/◌, ◌^◌, ◌<◌, ◌≡◌, ap, ◌∙◌, Bool, true, false, ◌&&◌, List, [], ◌∷◌, arith, ◌==◌,
  bit_or, bit_or-add, get_or, All, ==_refl, ◌⊎◌, inl, inr, ℕ_discrete,
}
use chod_os.Base.Words.{u8, u16}

-- `[u8; 6]`
pub record Mac : Type 0 where
  pub m0 : ℕ
  pub m1 : ℕ
  pub m2 : ℕ
  pub m3 : ℕ
  pub m4 : ℕ
  pub m5 : ℕ

-- `[u8; 4]`
pub record Ip : Type 0 where
  pub i0 : ℕ
  pub i1 : ℕ
  pub i2 : ℕ
  pub i3 : ℕ

abbrev pub mac_bytes : Mac → List ℕ
mac_bytes m = m.m0 ∷ m.m1 ∷ m.m2 ∷ m.m3 ∷ m.m4 ∷ m.m5 ∷ []

abbrev pub ip_bytes : Ip → List ℕ
ip_bytes a = a.i0 ∷ a.i1 ∷ a.i2 ∷ a.i3 ∷ []

-- The addresses that a frame holds from index `i` on.
abbrev pub mac_at : List ℕ → ℕ → Mac
mac_at bytes i = record {
  m0 = get_or bytes i 0;
  m1 = get_or bytes (i + 1) 0;
  m2 = get_or bytes (i + 2) 0;
  m3 = get_or bytes (i + 3) 0;
  m4 = get_or bytes (i + 4) 0;
  m5 = get_or bytes (i + 5) 0;
}

abbrev pub ip_at : List ℕ → ℕ → Ip
ip_at bytes i = record {
  i0 = get_or bytes i 0;
  i1 = get_or bytes (i + 1) 0;
  i2 = get_or bytes (i + 2) 0;
  i3 = get_or bytes (i + 3) 0;
}

-- `==` of two `[u8; 4]`.
abbrev pub same_ip : Ip → Ip → Bool
same_ip a b = (a.i0 == b.i0) && (a.i1 == b.i1) && (a.i2 == b.i2) && (a.i3 == b.i3)

-- `(n >> 8) as u8`
abbrev pub high : ℕ → ℕ
high n = u8 (n / 2 ^ 8)

-- `((bytes[i] as u16) << 8) | bytes[i + 1] as u16`
abbrev pub word_at : List ℕ → ℕ → ℕ
word_at bytes i = bit_or (u16 (get_or bytes i 0 * 2 ^ 8)) (get_or bytes (i + 1) 0)

abbrev pub IsByte : ℕ → Type 0
IsByte b = b < 256

abbrev pub IsMac : Mac → Type 0
IsMac m = All IsByte (mac_bytes m)

abbrev pub IsIp : Ip → Type 0
IsIp a = All IsByte (ip_bytes a)

-- Two bytes make the word that they were taken from.
pub join_bytes : (a b : ℕ) → IsByte a → IsByte b → bit_or (u16 (a * 2 ^ 8)) b ≡ a * 256 + b
join_bytes a b p q =
    let whole : u16 (a * 2 ^ 8) ≡ a * 2 ^ 8 = omega arith in
    ap (λ w. bit_or w b) whole ∙ bit_or-add 8 a b q

pub join-split : (n : ℕ) → n < 2 ^ 16 → bit_or (u16 (high n * 2 ^ 8)) (u8 n) ≡ n
join-split n h = join_bytes (high n) (u8 n) (omega arith) (omega arith) ∙ omega arith

pub same_ip_refl : (a : Ip) → same_ip a a ≡ true
same_ip_refl a = ground (arith, ==_refl a.i0, ==_refl a.i1, ==_refl a.i2, ==_refl a.i3)

-- Two addresses are equal or the code's test tells them apart.
pub same_ip_cases : (a b : Ip) → (a ≡ b) ⊎ (same_ip a b ≡ false)
same_ip_cases a b = elim (ℕ_discrete a.i0 b.i0) [
  | no n0 ↦ inr (ground arith)
  | yes e0 ↦ elim (ℕ_discrete a.i1 b.i1) [
    | no n1 ↦ inr (ground arith)
    | yes e1 ↦ elim (ℕ_discrete a.i2 b.i2) [
      | no n2 ↦ inr (ground arith)
      | yes e2 ↦ elim (ℕ_discrete a.i3 b.i3) [
        | no n3 ↦ inr (ground arith)
        | yes e3 ↦ inl (λ k. record { i0 = e0 k; i1 = e1 k; i2 = e2 k; i3 = e3 k })
      ]
    ]
  ]
]
