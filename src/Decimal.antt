-- ===== src/Decimal.antt =====
-- src/utils.cpp: numbers as decimal digits. A string that is written is the list of its characters.
pub mod Value
mod Tests
use continuum_os.Common.{
  ℕ, zero, suc, ◌+◌, ◌-◌, ◌*◌, ◌/◌, ◌%◌, ◌^◌, List, [], ◌∷◌, ◌++◌, Bool, true, false, ltb, ◌==◌,
  if◌then◌else◌, length, take,
}
use continuum_os.Common.Int.{ℤ, pos, negsuc}

-- The digits of a number, the last first, while there is room.
pub digits : ℕ → ℕ → List ℕ
digits zero value = []
digits (suc room) value =
    let rest = digits room (value / 10) in if value == 0 then [] else (48 + value % 10) ∷ rest

pub reverse : List ℕ → List ℕ
reverse [] = []
reverse (x ∷ xs) = reverse xs ++ x ∷ []

-- What is written to `out`, and the answer.
pub uitoa : ℕ → ℕ → List ℕ × ℕ
uitoa value max_len =
    let out = take max_len (reverse (digits 16 value)) in
    if value == 0 then (if ltb 0 max_len then 48 ∷ [] else [], 1) else (out, length out)

-- The digits of the buffer before it is turned round; the loop has a turn for each digit, and an int
-- has at most ten.
abbrev magnitude : ℕ → List ℕ
magnitude n = if n == 0 then 48 ∷ [] else digits 10 n

-- The digits of -2 ^ 31: `-num` is past the largest int and leaves the number as it is, by the
-- machine's negation, and `num % 10` is then 0 or less.
pub negative_digits : ℕ → ℕ → List ℕ
negative_digits zero value = []
negative_digits (suc room) value =
    let rest = negative_digits room (value / 10) in
    if value == 0 then [] else (48 - value % 10) ∷ rest

-- Of an int, from -2 ^ 31 to 2 ^ 31 - 1.
pub int_to_string : ℤ → List ℕ
int_to_string (pos n) = reverse (magnitude n)
int_to_string (negsuc n) =
    if ltb (suc n) (2 ^ 31)
    then reverse (magnitude (suc n) ++ 45 ∷ [])
    else reverse (negative_digits 10 (suc n) ++ 45 ∷ [])

pub low_16 : ℕ → ℕ
low_16 addr = addr % 2 ^ 16

pub high_16 : ℕ → ℕ
high_16 addr = addr / 2 ^ 16 % 2 ^ 16
