-- ===== src/Keyboard/Tests.antt =====
-- The state of the keyboard on a few scan codes.
use continuum_os.Common.{◌≡◌, refl, ◌%◌, ◌==◌, false, not, if◌then◌else◌, [], ◌∷◌}
use continuum_os.Keyboard.{Keyboard, read_keyboard, next_state, kb_to_ascii, toupper}
use continuum_os.Keyboard.State.{
  read_all, last_shift, caps_presses, ends_in_prefix, or_before, read_all-State,
}

abbrev at_rest : Keyboard
at_rest = record { shift_pressed = false; caps_lock_active = false; extended = false }

-- Shift down and `a`.
types_a : kb_to_ascii (read_keyboard 30 (read_keyboard 42 at_rest).1).0 ≡ 65
unfolding read_keyboard next_state kb_to_ascii toupper
types_a = refl

read_all-State_example :
    let k' = read_all (42 ∷ 30 ∷ 58 ∷ 170 ∷ []) at_rest in
    (k'.shift_pressed ≡ or_before false (last_shift (42 ∷ 30 ∷ 58 ∷ 170 ∷ [])))
    × (k'.caps_lock_active
        ≡ (if caps_presses (42 ∷ 30 ∷ 58 ∷ 170 ∷ []) % 2 == 1 then not false else false))
    × (k'.extended ≡ ends_in_prefix false (42 ∷ 30 ∷ 58 ∷ 170 ∷ []))
read_all-State_example = read_all-State (42 ∷ 30 ∷ 58 ∷ 170 ∷ []) at_rest
