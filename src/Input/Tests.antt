-- ===== src/Input/Tests.antt =====
-- An idle keyboard with empty rings; the key of the letter a has code 30.
use chod_os.Base.{
  ℕ, ◌+◌, ◌-◌, ◌≤◌, ◌≡◌, refl, true, false, [], ◌∷◌, ◌++◌, arith, replicate, length,
  length-replicate, if◌then◌else◌, ltb, get_or,
}
use chod_os.Ring.{Ring}
use chod_os.Ring.View.{IsValid, contents, empty_lem}
use chod_os.Input.Events.{evt_cap, key_event}
use chod_os.Input.Keyboard.{Kbd, buf_cap, handle_scancode, lower, xor}
use chod_os.Input.Keyboard.Letters.{handle_scancode-letter}

abbrev empty : Ring
empty = record { buf = replicate 64 0; head = 0; tail = 0 }

abbrev quiet : Kbd
quiet = record { ring = empty; events = empty; shift = false; caps = true }

empty-IsValid : IsValid 64 empty
empty-IsValid = (empty_lem 64 empty (omega arith) (length-replicate {A = ℕ} 64 0) refl refl).0

handle_scancode-letter_example :
    (97 ≤ get_or lower 30 0)
    × (get_or lower 30 0 ≤ 122)
    × (contents buf_cap (handle_scancode quiet 30).ring
        ≡ contents buf_cap empty
          ++ ((if xor false true then get_or lower 30 0 - 32 else get_or lower 30 0) ∷ []))
    × (contents evt_cap (handle_scancode quiet 30).events ≡ (
        if ltb (length (contents evt_cap empty)) 63
        then contents evt_cap empty
          ++ (key_event (if xor false true then get_or lower 30 0 - 32 else get_or lower 30 0) ∷ [])
        else contents evt_cap empty))
    × (handle_scancode quiet (30 + 128) ≡ quiet)
handle_scancode-letter_example =
    handle_scancode-letter quiet 30 empty-IsValid empty-IsValid (omega arith) (omega arith) refl
