-- ===== src/Input/Events.antt =====
-- input_direct.rs: events packed into one word, and the ring from the interrupts to the driver task.
use chod_os.Base.{
  ℕ, ◌+◌, ◌*◌, ◌/◌, ◌%◌, ◌^◌, ◌≤◌, ◌<◌, ◌≡◌, ap, ◌∙◌, min, Option, none, some, [], ◌∷◌, ◌++◌, arith,
  if◌then◌else◌, ltb, bit_and, bit_or, bit_or-add, bit_or_comm, bit_and-mask, length, inl, inr,
}
use chod_os.Base.Words.{u8}
use chod_os.Ring.{Ring, push, pop}
use chod_os.Ring.View.{IsValid, contents, push_lem, length-contents}

abbrev pub evt_key : ℕ
evt_key = 0

abbrev pub evt_mouse_move : ℕ
evt_mouse_move = 1

abbrev pub evt_mouse_click : ℕ
evt_mouse_click = 2

abbrev pub evt_cap : ℕ
evt_cap = 64

-- An event for which there is no room is dropped.
unfoldable pub push_event : Ring → ℕ → Ring
push_event r v = elim (push evt_cap r v) [ none ↦ r | some r' ↦ r' ]

unfoldable pub pop_event : Ring → Option (ℕ × Ring)
pop_event r = pop evt_cap r

abbrev pub key_event : ℕ → ℕ
key_event ascii = bit_or evt_key (ascii * 2 ^ 2)

-- `x.max(0).min(2047)` of an i32, which is given as its word.
abbrev pub clamp : ℕ → ℕ
clamp x = if ltb x (2 ^ 31) then min x 2047 else 0

unfoldable pub move_event : ℕ → ℕ → ℕ
move_event x y = bit_or (bit_or evt_mouse_move (clamp x * 2 ^ 10)) (clamp y * 2 ^ 21)

unfoldable pub click_event : ℕ → ℕ → ℕ → ℕ
click_event x y btns =
    bit_or (bit_or (bit_or evt_mouse_click (bit_and btns 7 * 2 ^ 2)) (clamp x * 2 ^ 10))
      (clamp y * 2 ^ 21)

unfoldable pub push_key : Ring → ℕ → Ring
push_key r ascii = push_event r (key_event ascii)

unfoldable pub push_mouse_move : Ring → ℕ → ℕ → Ring
push_mouse_move r x y = push_event r (move_event x y)

unfoldable pub push_mouse_click : Ring → ℕ → ℕ → ℕ → Ring
push_mouse_click r x y btns = push_event r (click_event x y btns)

-- How the consumer takes an event apart.
abbrev pub kind_of : ℕ → ℕ
kind_of v = bit_and v 3

abbrev pub ascii_of : ℕ → ℕ
ascii_of v = u8 (bit_and (v / 2 ^ 2) 255)

-- The places of the buttons and of the coordinates, as the layout at the top of the file gives them.
abbrev pub buttons_of : ℕ → ℕ
buttons_of v = v / 2 ^ 2 % 2 ^ 3

abbrev pub x_of : ℕ → ℕ
x_of v = v / 2 ^ 10 % 2 ^ 11

abbrev pub y_of : ℕ → ℕ
y_of v = v / 2 ^ 21 % 2 ^ 11

-- A value in the low digits and one above them are added.
pack :
    (n a b : ℕ) → b < 2 ^ n → a * 2 ^ n < 2 ^ 32 → b < 2 ^ 32 → bit_or b (a * 2 ^ n) ≡ b + a * 2 ^ n
pack n a b p q r = bit_or_comm 32 b (a * 2 ^ n) r q ∙ bit_or-add n a b p ∙ omega arith

clamp-bound : (x : ℕ) → clamp x ≤ 2047
clamp-bound x = ground arith

key_event_lem : (ascii : ℕ) → ascii < 256 → key_event ascii ≡ ascii * 4
key_event_lem ascii p = pack 2 ascii 0 (omega arith) (omega arith) (omega arith) ∙ omega arith

move_event_lem : (x y : ℕ) → move_event x y ≡ 1 + clamp x * 1024 + clamp y * 2097152
unfolding move_event
move_event_lem x y =
    let inner = pack 10 (clamp x) 1 (omega arith) (ground arith) (omega arith) in
    ap (λ w. bit_or w (clamp y * 2 ^ 21)) inner
    ∙ pack 21 (clamp y) (1 + clamp x * 2 ^ 10) (ground arith) (ground arith) (ground arith)

click_event_lem :
    (x y btns : ℕ) → click_event x y btns ≡ 2 + btns % 8 * 4 + clamp x * 1024 + clamp y * 2097152
unfolding click_event
click_event_lem x y btns =
    let low : bit_and btns 7 ≡ btns % 8 = bit_and-mask 3 btns in
    let first = pack 2 (bit_and btns 7) 2 (omega arith) (omega (arith, low)) (omega arith) in
    let second =
      pack 10 (clamp x) (2 + bit_and btns 7 * 2 ^ 2) (omega (arith, low))
        (omega (arith, clamp-bound x)) (omega (arith, low)) in
    let third =
      pack 21 (clamp y) (2 + bit_and btns 7 * 2 ^ 2 + clamp x * 2 ^ 10)
        (omega (arith, low, clamp-bound x)) (omega (arith, clamp-bound y))
        (omega (arith, low, clamp-bound x)) in
    ap (λ w. bit_or (bit_or w (clamp x * 2 ^ 10)) (clamp y * 2 ^ 21)) first
    ∙ ap (λ w. bit_or w (clamp y * 2 ^ 21)) second
    ∙ third
    ∙ omega (arith, low)

-- Whatever is packed is found again: the kind and the character of a key, and of the mouse the kind,
-- the lowest three buttons and the coordinates, cut to 0 to 2047 each.
pub event_round_trip :
    (ascii x y btns : ℕ)
    → ascii < 256
    → (kind_of (key_event ascii) ≡ evt_key)
      × (ascii_of (key_event ascii) ≡ ascii)
      × (kind_of (move_event x y) ≡ evt_mouse_move)
      × (x_of (move_event x y) ≡ clamp x)
      × (y_of (move_event x y) ≡ clamp y)
      × (kind_of (click_event x y btns) ≡ evt_mouse_click)
      × (buttons_of (click_event x y btns) ≡ btns % 8)
      × (x_of (click_event x y btns) ≡ clamp x)
      × (y_of (click_event x y btns) ≡ clamp y)
event_round_trip ascii x y btns p =
    let key = key_event_lem ascii p in
    let move = move_event_lem x y in
    let click = click_event_lem x y btns in
    (
      bit_and-mask 2 (key_event ascii) ∙ omega (arith, key),
      omega (arith, key, bit_and-mask 8 (key_event ascii / 2 ^ 2)),
      bit_and-mask 2 (move_event x y) ∙ omega (arith, move),
      omega (arith, move, clamp-bound x),
      omega (arith, move, clamp-bound x, clamp-bound y),
      bit_and-mask 2 (click_event x y btns) ∙ omega (arith, click),
      omega (arith, click),
      omega (arith, click, clamp-bound x),
      omega (arith, click, clamp-bound x, clamp-bound y),
    )

-- An event is stored behind the others, or dropped where 63 are waiting.
pub push_event_lem :
    (r : Ring) (v : ℕ)
    → IsValid evt_cap r
    → IsValid evt_cap (push_event r v)
      × (contents evt_cap (push_event r v) ≡ (
          if ltb (length (contents evt_cap r)) 63
          then contents evt_cap r ++ (v ∷ [])
          else contents evt_cap r))
unfolding push_event
push_event_lem r v valid = elim (push_lem evt_cap r v valid) [
  | inl (e, full) ↦ rw (e, push_event) (valid, ground (arith, length-contents evt_cap r))
  | inr (r', e, room, p) ↦
      rw (e, push_event) (p.valid, p.stored ∙ ground (arith, length-contents evt_cap r))
]
