-- ===== src/Decimal/Value.antt =====
-- The number that a string of decimal digits stands for.
use continuum_os.Common.{
  ℕ, zero, suc, ◌+◌, ◌-◌, ◌*◌, ◌/◌, ◌%◌, ◌^◌, ◌≤◌, ◌<◌, ◌≡◌, refl, ap, ◌∙◌, List, [], ◌∷◌, ◌++◌,
  true, false, arith, ltb, ◌==◌, length, length-append, get_or, take, if◌then◌else◌, Bool-cases,
  inl, inr,
}
use continuum_os.Common.Int.{ℤ, pos, negsuc}
use continuum_os.Decimal.{digits, reverse, uitoa, int_to_string, magnitude, low_16, high_16}

-- Read from the left, with `acc` for what stands before.
unfoldable pub number : ℕ → List ℕ → ℕ
number acc [] = acc
number acc (c ∷ cs) = number (acc * 10 + (c - 48)) cs

-- A minus sign in front.
unfoldable pub signed : List ℕ → ℤ
signed [] = pos 0
signed (c ∷ cs) = if c == 45 then negsuc (number 0 cs - 1) else pos (number 0 (c ∷ cs))

unfoldable pub power : ℕ → ℕ
power zero = 1
power (suc n) = 10 * power n

number-append :
    (acc : ℕ) (cs : List ℕ) (c : ℕ) → number acc (cs ++ c ∷ []) ≡ number acc cs * 10 + (c - 48)
unfolding number
number-append acc [] c = refl
number-append acc (d ∷ cs) c = number-append (acc * 10 + (d - 48)) cs c

-- Enough room writes the whole number.
number-digits :
    (room value : ℕ) → value < power room → number 0 (reverse (digits room value)) ≡ value
unfolding power digits reverse number
number-digits zero value h = omega arith
number-digits (suc room) value h = elim (Bool-cases (value == 0)) [
  | inl z ↦ rw z (ground arith)
  | inr n ↦
      rw
        (
          n,
          number-append 0 (reverse (digits room (value / 10))) (48 + value % 10),
          number-digits room (value / 10) (omega arith),
        )
        (omega arith)
]

length-reverse : (xs : List ℕ) → length (reverse xs) ≡ length xs
unfolding reverse
length-reverse [] = refl
length-reverse (x ∷ xs) = omega (arith, length-append (reverse xs) (x ∷ []), length-reverse xs)

length-digits-le : (k room value : ℕ) → value < power k → length (digits room value) ≤ k
unfolding power digits
length-digits-le k zero value h = omega arith
length-digits-le zero (suc room) value h =
    let z : (value == 0) ≡ true = ground arith in rw z (omega arith)
length-digits-le (suc k) (suc room) value h = elim (Bool-cases (value == 0)) [
  | inl z ↦ rw z (omega arith)
  | inr n ↦ rw n (omega (arith, length-digits-le k room (value / 10) (omega arith)))
]

take_all : (n : ℕ) (xs : List ℕ) → length xs ≤ n → take n xs ≡ xs
take_all zero [] h = refl
take_all zero (x ∷ xs) h = absurd (omega arith)
take_all (suc n) [] h = refl
take_all (suc n) (x ∷ xs) h = ap (λ l. x ∷ l) (take_all n xs (omega arith))

ten : power 10 ≡ 10000000000
unfolding power
ten = refl

sixteen : power 16 ≡ 10000000000000000
unfolding power
sixteen = refl

-- With room for ten characters `uitoa` writes an unsigned word in full: the digits read back as the
-- word, and the answer is their number.
pub number-uitoa :
    (value max_len : ℕ)
    → value < 2 ^ 32
    → 10 ≤ max_len
    → (number 0 (uitoa value max_len).0 ≡ value)
      × ((uitoa value max_len).1 ≡ length (uitoa value max_len).0)
unfolding uitoa number
number-uitoa value max_len small room = elim (Bool-cases (value == 0)) [
  | inl z ↦
      let some_room : ltb 0 max_len ≡ true = ground arith in rw (z, some_room) (ground arith, refl)
  | inr n ↦
      let written = reverse (digits 16 value) in
      let whole : take max_len written ≡ written = take_all max_len written (
        omega (
          arith,
          length-reverse (digits 16 value),
          length-digits-le 10 16 value (omega (arith, ten)),
        )) in
      rw (n, whole) (number-digits 16 value (omega (arith, sixteen)), refl)
]

number-magnitude : (n : ℕ) → n < 2 ^ 32 → number 0 (reverse (magnitude n)) ≡ n
unfolding number reverse
number-magnitude n h = elim (Bool-cases (n == 0)) [
  | inl z ↦ rw z (ground arith)
  | inr ne ↦ rw ne (number-digits 10 n (omega (arith, ten)))
]

head-append : (xs : List ℕ) (x d : ℕ) → get_or (xs ++ x ∷ []) 0 d ≡ get_or xs 0 x
head-append [] x d = refl
head-append (y ∷ xs) x d = refl

head-digits-le : (room value d : ℕ) → 48 ≤ d → 48 ≤ get_or (reverse (digits room value)) 0 d
unfolding digits reverse
head-digits-le zero value d h = h
head-digits-le (suc room) value d h = elim (Bool-cases (value == 0)) [
  | inl z ↦ rw z h
  | inr n ↦
      rw (n, head-append (reverse (digits room (value / 10))) (48 + value % 10) d)
        (head-digits-le room (value / 10) (48 + value % 10) (omega arith))
]

head-magnitude-le : (n : ℕ) → 48 ≤ get_or (reverse (magnitude n)) 0 48
unfolding reverse
head-magnitude-le n = elim (Bool-cases (n == 0)) [
  | inl z ↦ rw z (omega arith)
  | inr ne ↦ rw ne (head-digits-le 10 n 48 (omega arith))
]

signed_digits : (xs : List ℕ) → 48 ≤ get_or xs 0 48 → signed xs ≡ pos (number 0 xs)
unfolding signed number
signed_digits [] h = refl
signed_digits (c ∷ cs) h = let digit : (c == 45) ≡ false = ground arith in rw digit refl

reverse-append : (xs : List ℕ) (x : ℕ) → reverse (xs ++ x ∷ []) ≡ x ∷ reverse xs
unfolding reverse
reverse-append [] x = refl
reverse-append (y ∷ xs) x = ap (λ l. l ++ y ∷ []) (reverse-append xs x)

signed_minus : (xs : List ℕ) → signed (45 ∷ xs) ≡ negsuc (number 0 xs - 1)
unfolding signed
signed_minus xs = refl

-- The values of an int but the least, -2 ^ 31.
abbrev pub InRange : ℤ → Type 0
InRange (pos n) = n < 2 ^ 31
InRange (negsuc n) = suc n < 2 ^ 31

-- `int_to_string` writes an int above -2 ^ 31 as characters that read back as the int, its sign
-- included.
pub signed-int_to_string : (z : ℤ) → InRange z → signed (int_to_string z) ≡ z
unfolding int_to_string
signed-int_to_string (pos n) h =
    signed_digits (reverse (magnitude n)) (head-magnitude-le n)
    ∙ ap pos (number-magnitude n (omega arith))
signed-int_to_string (negsuc n) h =
    let small : ltb (suc n) (2 ^ 31) ≡ true = ground arith in
    rw small (
      ap signed (reverse-append (magnitude (suc n)) 45)
      ∙ signed_minus (reverse (magnitude (suc n)))
      ∙ ap (λ k. negsuc (k - 1)) (number-magnitude (suc n) (omega arith))
      ∙ ap negsuc (omega arith))

-- The two halves of an address make it up.
pub high_16-low_16 : (addr : ℕ) → addr < 2 ^ 32 → high_16 addr * 2 ^ 16 + low_16 addr ≡ addr
unfolding high_16 low_16
high_16-low_16 addr h = omega arith
