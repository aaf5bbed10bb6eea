-- ===== src/Input/Keyboard.antt =====
-- kbd.rs: scancodes to characters, and the ring that they are read from.
pub mod Modes
pub mod Letters
use chod_os.Base.{
  ℕ, zero, suc, ◌+◌, ◌*◌, ◌^◌, ◌≤◌, ◌<◌, ◌≡◌, ◌≢◌, refl, sym, ap, ◌∙◌, Bool, true, false, not, ◌&&◌,
  ◌||◌, Option, none, some, List, [], ◌∷◌, ◌++◌, arith, if◌then◌else◌, ◌==◌, ltb, leb, bit_and,
  length, get_or, replicate, Bool-cases, Option-cases, ℕ_discrete, All, dec_lt, ◌%◌, bit_and-mask,
  ◌-◌, inl, inr, ◌⊎◌,
}
use chod_os.Ring.{Ring, push, pop, has_data}
use chod_os.Ring.View.{IsValid, contents, used, push_lem}
use chod_os.Input.Events.{evt_cap, push_event, key_event, push_event_lem}

abbrev pub buf_cap : ℕ
buf_cap = 64

-- The statics of the driver, and the ring of input_direct.rs that it also feeds.
pub record Kbd : Type 0 where
  pub ring : Ring
  pub events : Ring
  pub shift : Bool
  pub caps : Bool

unfoldable pub push_key : Kbd → ℕ → Kbd
push_key k ascii = elim (push buf_cap k.ring ascii) [
  | none ↦ k
  | some r ↦ record k { ring = r; events = push_event k.events (key_event ascii) }
]

unfoldable pub try_pop : Kbd → Option ℕ × Kbd
try_pop k = elim (pop buf_cap k.ring) [
  | none ↦ (none, k)
  | some (byte, r) ↦ (some byte, record k { ring = r })
]

unfoldable pub has_key : Kbd → Bool
has_key k = has_data k.ring

-- The rounds of the loop: the driver as each round finds it, and what the serial port has. `none` is a
-- reader that still waits.
unfoldable pub read_key_blocking : List (Kbd × Option ℕ) → Option (ℕ × Kbd)
read_key_blocking [] = none
read_key_blocking ((k, serial) ∷ rounds) =
    let later = read_key_blocking rounds in
    let (byte, k') = try_pop k in
    elim byte [
      | some b ↦ some (b, k')
      | none ↦ elim serial [ some b ↦ some (b, k') | none ↦ later ]
    ]

abbrev pub lower : List ℕ
lower =
    (0 ∷ 27 ∷ 49 ∷ 50 ∷ 51 ∷ 52 ∷ 53 ∷ 54 ∷ 55 ∷ 56 ∷ 57 ∷ 48 ∷ 45 ∷ 61 ∷ 8 ∷ 9 ∷ 113 ∷ 119 ∷ 101
      ∷ 114 ∷ 116 ∷ 121 ∷ 117 ∷ 105 ∷ 111 ∷ 112 ∷ 91 ∷ 93 ∷ 10 ∷ 0 ∷ 97 ∷ 115 ∷ 100 ∷ 102 ∷ 103
      ∷ 104 ∷ 106 ∷ 107 ∷ 108 ∷ 59 ∷ 39 ∷ 96 ∷ 0 ∷ 92 ∷ 122 ∷ 120 ∷ 99 ∷ 118 ∷ 98 ∷ 110 ∷ 109 ∷ 44
      ∷ 46 ∷ 47 ∷ 0 ∷ 42 ∷ 0 ∷ 32 ∷ [])
    ++ replicate 70 0

abbrev pub upper : List ℕ
upper =
    (0 ∷ 27 ∷ 33 ∷ 64 ∷ 35 ∷ 36 ∷ 37 ∷ 94 ∷ 38 ∷ 42 ∷ 40 ∷ 41 ∷ 95 ∷ 43 ∷ 8 ∷ 9 ∷ 81 ∷ 87 ∷ 69 ∷ 82
      ∷ 84 ∷ 89 ∷ 85 ∷ 73 ∷ 79 ∷ 80 ∷ 123 ∷ 125 ∷ 10 ∷ 0 ∷ 65 ∷ 83 ∷ 68 ∷ 70 ∷ 71 ∷ 72 ∷ 74 ∷ 75
      ∷ 76 ∷ 58 ∷ 34 ∷ 126 ∷ 0 ∷ 124 ∷ 90 ∷ 88 ∷ 67 ∷ 86 ∷ 66 ∷ 78 ∷ 77 ∷ 60 ∷ 62 ∷ 63 ∷ 0 ∷ 42 ∷ 0
      ∷ 32 ∷ [])
    ++ replicate 70 0

abbrev pub is_alpha : ℕ → Bool
is_alpha make =
    (leb 16 make && leb make 25) || (leb 30 make && leb make 38) || (leb 44 make && leb make 50)

abbrev pub xor : Bool → Bool → Bool
xor true b = not b
xor false b = b

-- What the table gives for a key under the present modes.
abbrev pub ascii_of : Kbd → ℕ → ℕ
ascii_of k make =
    let use_upper = if is_alpha make then xor k.shift k.caps else k.shift in
    if use_upper then get_or upper make 0 else get_or lower make 0

unfoldable pub handle_scancode : Kbd → ℕ → Kbd
handle_scancode k scancode =
    let is_break = leb 128 scancode in
    let make = bit_and scancode 127 in
    let ascii = ascii_of k make in
    if (make == 42) || (make == 54)
    then record k { shift = not is_break }
    else (if not is_break && (make == 58)
        then record k { caps = not k.caps }
        else (if is_break || leb 128 make
            then k
            else (if not (ascii == 0) then push_key k ascii else k)))
