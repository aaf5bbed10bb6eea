-- ===== src/Input/Keyboard/Modes.antt =====
-- Shift and caps lock of kbd.rs.
use chod_os.Base.{
  ℕ, ◌+◌, ◌<◌, ◌≡◌, refl, ap, ◌∙◌, Bool, true, false, not, ◌&&◌, ◌||◌, List, [], ◌∷◌, arith,
  if◌then◌else◌, ◌==◌, leb, bit_and, Bool-cases, Option-cases, All, dec_lt, ◌%◌, bit_and-mask, inl,
  inr,
}
use chod_os.Ring.{push}
use chod_os.Input.Keyboard.{Kbd, buf_cap, push_key, ascii_of, handle_scancode}

-- What a sequence of scancodes leaves of the modes: of the shift keys the last code counts, and caps lock
-- turns over with each press.
abbrev pub shift_after : Bool → List ℕ → Bool
shift_after b [] = b
shift_after b (c ∷ cs) =
    shift_after
      (if (c == 42) || (c == 54) then true else (if (c == 170) || (c == 182) then false else b)) cs

abbrev pub caps_after : Bool → List ℕ → Bool
caps_after b [] = b
caps_after b (c ∷ cs) = caps_after (if c == 58 then not b else b) cs

abbrev pub type_all : Kbd → List ℕ → Kbd
type_all k [] = k
type_all k (c ∷ cs) = type_all (handle_scancode k c) cs

push_key-modes :
    (k : Kbd) (ascii : ℕ)
    → ((push_key k ascii).shift ≡ k.shift) × ((push_key k ascii).caps ≡ k.caps)
unfolding push_key
push_key-modes k ascii = elim (Option-cases (push buf_cap k.ring ascii)) [
  | inl e ↦ rw (e, push_key) (refl, refl)
  | inr (r, e) ↦ rw (e, push_key) (refl, refl)
]

handle_scancode-flags :
    (k : Kbd) (c : ℕ)
    → let make = bit_and c 127 in
      ((handle_scancode k c).shift
        ≡ (if (make == 42) || (make == 54) then not (leb 128 c) else k.shift))
      × ((handle_scancode k c).caps ≡ (
          if ((make == 42) || (make == 54)) || not (not (leb 128 c) && (make == 58))
          then k.caps
          else not k.caps))
unfolding handle_scancode
handle_scancode-flags k c =
    let make = bit_and c 127 in
    let pushed = push_key-modes k (ascii_of k make) in
    elim (Bool-cases ((make == 42) || (make == 54))) [
      | inl shift_key ↦ rw (shift_key, handle_scancode) (refl, refl)
      | inr other ↦ elim (Bool-cases (not (leb 128 c) && (make == 58))) [
        | inl caps_key ↦ rw (other, caps_key, handle_scancode) (refl, refl)
        | inr plain ↦ elim (Bool-cases (leb 128 c || leb 128 make)) [
          | inl nothing ↦ rw (other, plain, nothing, handle_scancode) (refl, refl)
          | inr key ↦ elim (Bool-cases (not (ascii_of k make == 0))) [
            | inl typed ↦ rw (other, plain, key, typed, handle_scancode) pushed
            | inr untyped ↦ rw (other, plain, key, untyped, handle_scancode) (refl, refl)
          ]
        ]
      ]
    ]

shift_codes :
    (c m : ℕ) (b : Bool)
    → c < 256
    → m ≡ c % 128
    → (if (m == 42) || (m == 54) then not (leb 128 c) else b)
      ≡ (if (c == 42) || (c == 54) then true else (if (c == 170) || (c == 182) then false else b))
shift_codes c m b p e = elim (dec_lt c 128) [
  | yes press ↦ let same : m ≡ c = omega arith in ground (arith, same, press)
  | no release ↦ let same : c ≡ m + 128 = omega arith in ground (arith, same)
]

caps_codes :
    (c m : ℕ) (b : Bool)
    → c < 256
    → m ≡ c % 128
    → (if ((m == 42) || (m == 54)) || not (not (leb 128 c) && (m == 58)) then b else not b)
      ≡ (if c == 58 then not b else b)
caps_codes c m b p e = elim (dec_lt c 128) [
  | yes press ↦ let same : m ≡ c = omega arith in ground (arith, same, press)
  | no release ↦ let same : c ≡ m + 128 = omega arith in ground (arith, same)
]

handle_scancode-modes :
    (k : Kbd) (c : ℕ)
    → c < 256
    → ((handle_scancode k c).shift ≡ (
        if (c == 42) || (c == 54)
        then true
        else (if (c == 170) || (c == 182) then false else k.shift)))
      × ((handle_scancode k c).caps ≡ (if c == 58 then not k.caps else k.caps))
handle_scancode-modes k c p =
    let (shift, caps) = handle_scancode-flags k c in
    let make = bit_and-mask 7 c in
    (
      shift ∙ shift_codes c (bit_and c 127) k.shift p make,
      caps ∙ caps_codes c (bit_and c 127) k.caps p make,
    )

-- After any sequence of scancodes, shift is on if the last code of a shift key was a press, and as it
-- was if there was none; caps lock has turned over once for each press of its key.
pub type_all-modes :
    (k : Kbd) (codes : List ℕ)
    → All (λ c. c < 256) codes
    → ((type_all k codes).shift ≡ shift_after k.shift codes)
      × ((type_all k codes).caps ≡ caps_after k.caps codes)
type_all-modes k [] p = (refl, refl)
type_all-modes k (c ∷ cs) (p, ps) =
    let (shift, caps) = handle_scancode-modes k c p in
    let (shifts, capss) = type_all-modes (handle_scancode k c) cs ps in
    (shifts ∙ ap (λ b. shift_after b cs) shift, capss ∙ ap (λ b. caps_after b cs) caps)
