-- ===== src/Keyboard/State.antt =====
-- What the scan codes so far make of the state of src/kernel/keyboard.cpp.
use continuum_os.Common.{
  ℕ, ◌+◌, ◌%◌, ◌≡◌, refl, ap, ◌∙◌, Bool, true, false, not, Option, none, some, List, [], ◌∷◌, arith,
  ◌==◌, if◌then◌else◌, Bool-cases, inl, inr,
}
use continuum_os.Keyboard.{Keyboard, is_shift, is_shift_release, next_state, read_keyboard}

-- The state behind a sequence of scan codes.
unfoldable pub read_all : List ℕ → Keyboard → Keyboard
read_all [] k = k
read_all (code ∷ codes) k = read_all codes (read_keyboard code k).1

-- Whether the last shift key that moved went down, where one moved.
unfoldable pub last_shift : List ℕ → Option Bool
last_shift [] = none
last_shift (code ∷ codes) = elim (last_shift codes) [
  | some b ↦ some b
  | none ↦ if is_shift code then some true else (if is_shift_release code then some false else none)
]

-- How often caps lock went down.
unfoldable pub caps_presses : List ℕ → ℕ
caps_presses [] = 0
caps_presses (code ∷ codes) = (if code == 58 then 1 else 0) + caps_presses codes

-- Whether the last code was the prefix 0xE0.
unfoldable pub ends_in_prefix : Bool → List ℕ → Bool
ends_in_prefix before [] = before
ends_in_prefix before (code ∷ codes) = ends_in_prefix (code == 224) codes

abbrev pub or_before : Bool → Option Bool → Bool
or_before before none = before
or_before before (some b) = b

read_all-shift :
    (codes : List ℕ) (k : Keyboard)
    → (read_all codes k).shift_pressed ≡ or_before k.shift_pressed (last_shift codes)
unfolding read_all last_shift read_keyboard next_state
read_all-shift [] k = refl
read_all-shift (code ∷ codes) k = read_all-shift codes (next_state code k) ∙ on (last_shift codes)
  where
    own : Option Bool
    own = if is_shift code then some true else (if is_shift_release code then some false else none)

    here : (next_state code k).shift_pressed ≡ or_before k.shift_pressed own
    here = elim (Bool-cases (code == 224)) [
      | inl e ↦
          let up : is_shift code ≡ false = ground arith in
          let down : is_shift_release code ≡ false = ground arith in rw (e, up, down) refl
      | inr e ↦ elim (Bool-cases (is_shift code)) [
        | inl s ↦ rw (e, s) refl
        | inr s ↦ elim (Bool-cases (is_shift_release code)) [
          | inl r ↦ rw (e, s, r) refl
          | inr r ↦ rw (e, s, r) refl
        ]
      ]
    ]

    on :
        (r : Option Bool)
        → or_before (next_state code k).shift_pressed r
          ≡ or_before k.shift_pressed
              (elim r as (λ x. Option Bool) [ some b ↦ some b | none ↦ own ])
    on none = here
    on (some b) = refl

read_all-caps :
    (codes : List ℕ) (k : Keyboard)
    → (read_all codes k).caps_lock_active
      ≡ (if caps_presses codes % 2 == 1 then not k.caps_lock_active else k.caps_lock_active)
unfolding read_all caps_presses read_keyboard next_state
read_all-caps [] k = refl
read_all-caps (code ∷ codes) k =
    read_all-caps codes (next_state code k)
    ∙ ap (λ b. if caps_presses codes % 2 == 1 then not b else b) here
    ∙ elim (Bool-cases (code == 58)) [
      | inl e ↦ rw e (flips k.caps_lock_active (caps_presses codes))
      | inr e ↦ rw e (
          ap (λ n. if n % 2 == 1 then not k.caps_lock_active else k.caps_lock_active) (omega arith))
    ]
  where
    flips :
        (b : Bool) (n : ℕ)
        → (if n % 2 == 1 then not (not b) else not b) ≡ (if (1 + n) % 2 == 1 then not b else b)
    flips b n = elim (Bool-cases (n % 2 == 1)) [
      | inl o ↦ let even : ((1 + n) % 2 == 1) ≡ false = ground arith in rw (o, even) (twice b)
      | inr o ↦ let odd : ((1 + n) % 2 == 1) ≡ true = ground arith in rw (o, odd) refl
    ]
      where
        twice : (b : Bool) → not (not b) ≡ b
        twice true = refl
        twice false = refl

    here :
        (next_state code k).caps_lock_active
        ≡ (if code == 58 then not k.caps_lock_active else k.caps_lock_active)
    here = elim (Bool-cases (code == 224)) [
      | inl e ↦ let other : (code == 58) ≡ false = ground arith in rw (e, other) refl
      | inr e ↦ rw e refl
    ]

read_all-extended :
    (codes : List ℕ) (k : Keyboard) → (read_all codes k).extended ≡ ends_in_prefix k.extended codes
unfolding read_all ends_in_prefix read_keyboard next_state
read_all-extended [] k = refl
read_all-extended (code ∷ codes) k =
    read_all-extended codes (next_state code k) ∙ ap (λ b. ends_in_prefix b codes) here
  where
    here : (next_state code k).extended ≡ (code == 224)
    here = elim (Bool-cases (code == 224)) [ inl e ↦ rw e refl | inr e ↦ rw e refl ]

-- After any scan codes, shift is held where the last shift key that moved went down, and as before
-- where none moved; caps lock has changed as often as its key went down; and an extended code is
-- expected where the last code was the prefix.
pub read_all-State :
    (codes : List ℕ) (k : Keyboard)
    → let k' = read_all codes k in
      (k'.shift_pressed ≡ or_before k.shift_pressed (last_shift codes))
      × (k'.caps_lock_active
          ≡ (if caps_presses codes % 2 == 1 then not k.caps_lock_active else k.caps_lock_active))
      × (k'.extended ≡ ends_in_prefix k.extended codes)
read_all-State codes k = (read_all-shift codes k, read_all-caps codes k, read_all-extended codes k)
