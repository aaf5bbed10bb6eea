-- ===== src/Input/Keyboard/Letters.antt =====
-- The letters of kbd.rs.
use chod_os.Base.{
  ℕ, zero, suc, ◌+◌, ◌≤◌, ◌<◌, ◌≡◌, refl, ap, ◌∙◌, Bool, true, false, not, ◌&&◌, ◌||◌, [], ◌∷◌,
  ◌++◌, arith, if◌then◌else◌, ◌==◌, ltb, leb, bit_and, length, get_or, ℕ_discrete, bit_and-mask,
  ◌-◌, inl, inr,
}
use chod_os.Ring.View.{IsValid, contents, used, push_lem}
use chod_os.Input.Events.{evt_cap, key_event, push_event_lem}
use chod_os.Input.Keyboard.{
  Kbd, buf_cap, push_key, lower, upper, is_alpha, xor, ascii_of, handle_scancode,
}

abbrev letter_ok : ℕ → Bool
letter_ok m =
    not (is_alpha m)
    || ((get_or upper m 0 + 32 == get_or lower m 0)
        && leb 97 (get_or lower m 0)
        && leb (get_or lower m 0) 122)

abbrev all_below : (ℕ → Bool) → ℕ → Bool
all_below f zero = true
all_below f (suc n) = f n && all_below f n

all_below_lem : (f : ℕ → Bool) (n i : ℕ) → all_below f n ≡ true → i < n → f i ≡ true
all_below_lem f zero i e h = absurd (omega arith)
all_below_lem f (suc n) i e h = elim (ℕ_discrete i n) [
  | yes here ↦ ap f here ∙ ground (arith, e)
  | no earlier ↦ all_below_lem f n i (ground (arith, e)) (omega arith)
]

letters_ok : all_below letter_ok 128 ≡ true
letters_ok = refl

letter_lem :
    (make : ℕ)
    → make < 128
    → is_alpha make ≡ true
    → (97 ≤ get_or lower make 0)
      × (get_or lower make 0 ≤ 122)
      × (get_or upper make 0 ≡ get_or lower make 0 - 32)
letter_lem make h alpha =
    ranges (get_or lower make 0) (get_or upper make 0) (is_alpha make) alpha
      (all_below_lem letter_ok 128 make letters_ok h)
  where
    ranges :
        (l u : ℕ) (b : Bool)
        → b ≡ true
        → (not b || ((u + 32 == l) && leb 97 l && leb l 122)) ≡ true
        → (97 ≤ l) × (l ≤ 122) × (u ≡ l - 32)
    ranges l u b e ok = (ground (arith, e, ok), ground (arith, e, ok), ground (arith, e, ok))

abbrev typed : Kbd → ℕ → ℕ
typed k make = if xor k.shift k.caps then get_or lower make 0 - 32 else get_or lower make 0

pressed :
    (k : Kbd) (make : ℕ)
    → make < 128
    → is_alpha make ≡ true
    → handle_scancode k make ≡ push_key k (typed k make)
unfolding handle_scancode
pressed k make h alpha =
    let (at_least, at_most, capital) = letter_lem make h alpha in
    let whole : bit_and make 127 ≡ make = bit_and-mask 7 make ∙ omega arith in
    let no_shift : ((make == 42) || (make == 54)) ≡ false = ground (arith, alpha) in
    let no_caps : (make == 58) ≡ false = ground (arith, alpha) in
    let press : leb 128 make ≡ false = ground arith in
    let ascii : ascii_of k make ≡ typed k make = ground (arith, alpha, capital) in
    let some_key : (typed k make == 0) ≡ false = ground (arith, at_least) in
    rw (whole, no_shift, no_caps, press, ascii, some_key, handle_scancode) refl

released :
    (k : Kbd) (make : ℕ) → make < 128 → is_alpha make ≡ true → handle_scancode k (make + 128) ≡ k
unfolding handle_scancode
released k make h alpha =
    let whole : bit_and (make + 128) 127 ≡ make = bit_and-mask 7 (make + 128) ∙ omega arith in
    let no_shift : ((make == 42) || (make == 54)) ≡ false = ground (arith, alpha) in
    let release : leb 128 (make + 128) ≡ true = ground arith in
    rw (whole, no_shift, release, handle_scancode) refl

push_key_lem :
    (k : Kbd) (ascii : ℕ)
    → IsValid buf_cap k.ring
    → IsValid evt_cap k.events
    → used buf_cap k.ring + 1 < buf_cap
    → (contents buf_cap (push_key k ascii).ring ≡ contents buf_cap k.ring ++ (ascii ∷ []))
      × (contents evt_cap (push_key k ascii).events ≡ (
          if ltb (length (contents evt_cap k.events)) 63
          then contents evt_cap k.events ++ (key_event ascii ∷ [])
          else contents evt_cap k.events))
unfolding push_key
push_key_lem k ascii vr ve room = elim (push_lem buf_cap k.ring ascii vr) [
  | inl (e, full) ↦ absurd (omega arith)
  | inr (r, e, _, p) ↦ rw (e, push_key) (p.stored, (push_event_lem k.events (key_event ascii) ve).1)
]

-- Pressing a letter with room in the ring types the letter of the table, from a to z, as a capital if
-- exactly one of shift and caps lock is on; it is put behind what is waiting to be read and, as an
-- event, behind the events, which drop it where they are full. Releasing the key does nothing.
pub handle_scancode-letter :
    (k : Kbd) (make : ℕ)
    → IsValid buf_cap k.ring
    → IsValid evt_cap k.events
    → used buf_cap k.ring + 1 < buf_cap
    → make < 128
    → is_alpha make ≡ true
    → let k' = handle_scancode k make in
      let letter = get_or lower make 0 in
      let typed = if xor k.shift k.caps then letter - 32 else letter in
      (97 ≤ letter)
      × (letter ≤ 122)
      × (contents buf_cap k'.ring ≡ contents buf_cap k.ring ++ (typed ∷ []))
      × (contents evt_cap k'.events ≡ (
          if ltb (length (contents evt_cap k.events)) 63
          then contents evt_cap k.events ++ (key_event typed ∷ [])
          else contents evt_cap k.events))
      × (handle_scancode k (make + 128) ≡ k)
handle_scancode-letter k make vr ve room h alpha =
    let (at_least, at_most, _) = letter_lem make h alpha in
    let (stored, event) = push_key_lem k (typed k make) vr ve room in
    let press = pressed k make h alpha in
    (
      at_least,
      at_most,
      ap (λ (k' : Kbd). contents buf_cap k'.ring) press ∙ stored,
      ap (λ (k' : Kbd). contents evt_cap k'.events) press ∙ event,
      released k make h alpha,
    )
