-- ===== src/Common/Bits.antt =====
-- Bits of a machine word: `testbit x j` is `(x >> j) & 1`. The laws say what `&`, `|`, `^` and the
-- complement of a word do to each bit, at every width.
use Prim.Native.Nat.{
  ℕ, zero, suc, ◌+◌, ◌-◌, ◌*◌, ◌/◌, ◌%◌, ◌^◌, ◌≤◌, ◌<◌, min, max, bit_and, bit_or, bit_xor, digits,
  differ, bit_and-bitwise, bit_or-bitwise, bit_xor-bitwise,
}
use mathlib.Core.Path.{◌≡◌, refl, ap, ◌∙◌}
use mathlib.Core.Logic.{◌≢◌}
use native.Mathlib.Nat.{pow-suc, one-le-pow}
use native.Mathlib.Omega.{arith}

-- The lowest digit apart; the count of digits to go may be any bound on `a`.
module _ (z : ℕ → ℕ) (f : ℕ → ℕ → ℕ) where
  digits_bound : (a b m : ℕ) → (n : ℕ) → a ≤ n → a ≤ m → digits z f m a b ≡ digits z f n a b
  digits_bound zero b zero zero h k = refl
  digits_bound zero b zero (suc n) h k = refl
  digits_bound zero b (suc m) zero h k = refl
  digits_bound zero b (suc m) (suc n) h k = refl
  digits_bound (suc a) b zero n h k = absurd (omega arith)
  digits_bound (suc a) b (suc m) zero h k = absurd (omega arith)
  digits_bound (suc a) b (suc m) (suc n) h k =
      rw (digits_bound (suc a / 2) (b / 2) m n (omega arith) (omega arith))

  digits_low :
      (a b : ℕ)
      → digits z f (suc a) (suc a) b
        ≡ digits z f (suc a / 2) (suc a / 2) (b / 2) * 2 + f (suc a % 2) (b % 2)
  digits_low a b = rw (digits_bound (suc a / 2) (b / 2) a (suc a / 2) (omega arith) (omega arith))

and_low : (a b : ℕ) → bit_and a b ≡ bit_and (a / 2) (b / 2) * 2 + min (a % 2) (b % 2)
and_low zero b = simp bit_and-bitwise (omega arith)
and_low (suc a) b = simp bit_and-bitwise (digits_low (λ _. 0) min a b)

or_low : (a b : ℕ) → bit_or a b ≡ bit_or (a / 2) (b / 2) * 2 + max (a % 2) (b % 2)
or_low zero b = simp bit_or-bitwise (omega arith)
or_low (suc a) b = simp bit_or-bitwise (digits_low (λ y. y) max a b)

differ-zero : (y : ℕ) → differ zero y ≡ y
differ-zero zero = refl
differ-zero (suc y) = refl

xor_low : (a b : ℕ) → bit_xor a b ≡ bit_xor (a / 2) (b / 2) * 2 + differ (a % 2) (b % 2)
xor_low zero b = simp bit_xor-bitwise (omega arith)
xor_low (suc a) b = simp bit_xor-bitwise (digits_low (λ y. y) differ a b)

differ_digits : (x y : ℕ) → x < 2 → y < 2 → differ x y ≡ (x + y) % 2
differ_digits zero zero h k = refl
differ_digits zero (suc zero) h k = refl
differ_digits (suc zero) zero h k = refl
differ_digits (suc zero) (suc zero) h k = refl
differ_digits zero (suc (suc y)) h k = absurd (omega arith)
differ_digits (suc zero) (suc (suc y)) h k = absurd (omega arith)
differ_digits (suc (suc x)) y h k = absurd (omega arith)

unfoldable pub testbit : ℕ → ℕ → ℕ
testbit x zero = x % 2
testbit x (suc j) = testbit (x / 2) j

pub testbit-lt : (x j : ℕ) → testbit x j < 2
unfolding testbit
testbit-lt x zero = omega arith
testbit-lt x (suc j) = testbit-lt (x / 2) j

-- The halves of an operation that works digit by digit.
half_and :
    (a b : ℕ)
    → (bit_and a b / 2 ≡ bit_and (a / 2) (b / 2)) × (bit_and a b % 2 ≡ min (a % 2) (b % 2))
half_and a b = omega (arith, and_low a b)

half_or :
    (a b : ℕ) → (bit_or a b / 2 ≡ bit_or (a / 2) (b / 2)) × (bit_or a b % 2 ≡ max (a % 2) (b % 2))
half_or a b = omega (arith, or_low a b)

half_xor :
    (a b : ℕ)
    → (bit_xor a b / 2 ≡ bit_xor (a / 2) (b / 2)) × (bit_xor a b % 2 ≡ (a % 2 + b % 2) % 2)
half_xor a b = omega (arith, xor_low a b, differ_digits (a % 2) (b % 2) (omega arith) (omega arith))

pub testbit-and : (j a b : ℕ) → testbit (bit_and a b) j ≡ min (testbit a j) (testbit b j)
unfolding testbit
testbit-and zero a b = (half_and a b).1
testbit-and (suc j) a b = rw ((half_and a b).0) (testbit-and j (a / 2) (b / 2))

pub testbit-or : (j a b : ℕ) → testbit (bit_or a b) j ≡ max (testbit a j) (testbit b j)
unfolding testbit
testbit-or zero a b = (half_or a b).1
testbit-or (suc j) a b = rw ((half_or a b).0) (testbit-or j (a / 2) (b / 2))

pub testbit-xor : (j a b : ℕ) → testbit (bit_xor a b) j ≡ (testbit a j + testbit b j) % 2
unfolding testbit
testbit-xor zero a b = (half_xor a b).1
testbit-xor (suc j) a b = rw ((half_xor a b).0) (testbit-xor j (a / 2) (b / 2))

pub testbit_zero : (j : ℕ) → testbit 0 j ≡ 0
unfolding testbit
testbit_zero zero = refl
testbit_zero (suc j) = testbit_zero j

half_pow : (k : ℕ) → (2 ^ suc k / 2 ≡ 2 ^ k) × (2 ^ suc k % 2 ≡ 0)
half_pow k = omega (arith, pow-suc 2 k)

pub testbit-pow_self : (j : ℕ) → testbit (2 ^ j) j ≡ 1
unfolding testbit
testbit-pow_self zero = refl
testbit-pow_self (suc j) = rw ((half_pow j).0) (testbit-pow_self j)

pub testbit-pow_ne : (j k : ℕ) → j ≢ k → testbit (2 ^ k) j ≡ 0
unfolding testbit
testbit-pow_ne zero zero h = absurd (h refl)
testbit-pow_ne zero (suc k) h = (half_pow k).1
testbit-pow_ne (suc j) zero h = testbit_zero j
testbit-pow_ne (suc j) (suc k) h = rw ((half_pow k).0) (testbit-pow_ne j k (omega arith))

-- `~m` at width `w` is `2 ^ w - 1 - m`.
pub testbit-complement :
    (w j m : ℕ) → m < 2 ^ w → j < w → testbit (2 ^ w - 1 - m) j ≡ 1 - testbit m j
unfolding testbit
testbit-complement zero j m h k = absurd (omega arith)
testbit-complement (suc w) zero m h k = omega (arith, pow-suc 2 w)
testbit-complement (suc w) (suc j) m h k =
    rw (halved w m h) (testbit-complement w j (m / 2) (omega (arith, pow-suc 2 w)) (omega arith))
  where
    halved : (w m : ℕ) → m < 2 ^ suc w → (2 ^ suc w - 1 - m) / 2 ≡ 2 ^ w - 1 - m / 2
    halved w m h = omega (arith, pow-suc 2 w)

-- Words are told apart by their bits.
pub eq_of_testbit :
    (w a b : ℕ) → a < 2 ^ w → b < 2 ^ w → ((j : ℕ) → j < w → testbit a j ≡ testbit b j) → a ≡ b
unfolding testbit
eq_of_testbit zero a b h k same = omega arith
eq_of_testbit (suc w) a b h k same = omega (
  arith,
  same 0 (omega arith),
  pow-suc 2 w,
  eq_of_testbit w (a / 2) (b / 2) (omega (arith, pow-suc 2 w)) (omega (arith, pow-suc 2 w))
      (λ j l. same (suc j) (omega arith)),
)

and_zero_below : (n a : ℕ) → a ≤ n → bit_and a 0 ≡ 0
and_zero_below zero zero h = refl
and_zero_below zero (suc a) h = absurd (omega arith)
and_zero_below (suc n) zero h = refl
and_zero_below (suc n) (suc a) h =
    omega (arith, and_low (suc a) 0, and_zero_below n (suc a / 2) (omega arith))

-- `x & (1 << j)` is the bit in its place.
pub and_pow : (j a : ℕ) → bit_and a (2 ^ j) ≡ testbit a j * 2 ^ j
unfolding testbit
and_pow zero a = omega (arith, and_low a 1, and_zero_below (a / 2) (a / 2) (omega arith))
and_pow (suc j) a = omega (
  arith,
  and_low a (2 ^ suc j),
  half_pow j,
  and_pow j (a / 2),
  ap (λ (t : ℕ). testbit (a / 2) j * t) (pow-suc 2 j),
  ap (λ (t : ℕ). bit_and (a / 2) t) ((half_pow j).0),
)

pub and-lt : (w a b : ℕ) → a < 2 ^ w → bit_and a b < 2 ^ w
and-lt zero a b h =
    omega
      (arith, and_low a b, and_zero_left (b / 2), ap (λ (t : ℕ). bit_and t (b / 2)) (a_half a h))
  where
    a_half : (a : ℕ) → a < 1 → a / 2 ≡ 0
    a_half a h = omega arith

    and_zero_left : (b : ℕ) → bit_and 0 b ≡ 0
    and_zero_left b = bit_and-bitwise 0 b
and-lt (suc w) a b h =
    omega (arith, pow-suc 2 w, and_low a b, and-lt w (a / 2) (b / 2) (omega (arith, pow-suc 2 w)))

or_zero : (a b : ℕ) → a ≡ 0 → b ≡ 0 → bit_or a b ≡ 0
or_zero zero b h k = bit_or-bitwise 0 b ∙ k
or_zero (suc a) b h k = absurd (omega arith)

pub or-lt : (w a b : ℕ) → a < 2 ^ w → b < 2 ^ w → bit_or a b < 2 ^ w
or-lt zero a b h k = omega (arith, or_zero a b (omega arith) (omega arith))
or-lt (suc w) a b h k = omega (
  arith,
  pow-suc 2 w,
  or_low a b,
  or-lt w (a / 2) (b / 2) (omega (arith, pow-suc 2 w)) (omega (arith, pow-suc 2 w)),
)

xor_zero : (a b : ℕ) → a ≡ 0 → b ≡ 0 → bit_xor a b ≡ 0
xor_zero zero b h k = bit_xor-bitwise 0 b ∙ k
xor_zero (suc a) b h k = absurd (omega arith)

pub xor-lt : (w a b : ℕ) → a < 2 ^ w → b < 2 ^ w → bit_xor a b < 2 ^ w
xor-lt zero a b h k = omega (arith, xor_zero a b (omega arith) (omega arith))
xor-lt (suc w) a b h k = omega (
  arith,
  pow-suc 2 w,
  half_xor a b,
  xor-lt w (a / 2) (b / 2) (omega (arith, pow-suc 2 w)) (omega (arith, pow-suc 2 w)),
)

-- Only equal words cancel.
pub eq_of_xor : (w a b : ℕ) → a < 2 ^ w → b < 2 ^ w → bit_xor a b ≡ 0 → a ≡ b
eq_of_xor zero a b h k e = omega arith
eq_of_xor (suc w) a b h k e = omega (
  arith,
  pow-suc 2 w,
  half_xor a b,
  eq_of_xor w (a / 2) (b / 2) (omega (arith, pow-suc 2 w)) (omega (arith, pow-suc 2 w))
      (omega (arith, half_xor a b)),
)

-- A mask of ones takes a word as it is.
pub and_ones : (w a : ℕ) → a < 2 ^ w → bit_and a (2 ^ w - 1) ≡ a
and_ones w a h =
    eq_of_testbit w (bit_and a (2 ^ w - 1)) a (and-lt w a (2 ^ w - 1) h) h
      λ j l. omega (arith, testbit-and j a (2 ^ w - 1), ones w j l, testbit-lt a j)
  where
    ones : (w j : ℕ) → j < w → testbit (2 ^ w - 1) j ≡ 1
    ones w j l =
        let e : 2 ^ w - 1 - 0 ≡ 2 ^ w - 1 = omega arith in
        omega (
          arith,
          testbit-complement w j 0 (one-le-pow w 2 (omega arith)) l,
          testbit_zero j,
          ap (λ (t : ℕ). testbit t j) e,
        )

-- `& ~15` on 32 bits.
pub and_not15 : (a : ℕ) → a < 2 ^ 32 → bit_and a 0xffff_fff0 ≡ a / 16 * 16
and_not15 a h = omega (
  arith,
  and_low a 0xffff_fff0,
  and_low (a / 2) 0x7fff_fff8,
  and_low (a / 2 / 2) 0x3fff_fffc,
  and_low (a / 2 / 2 / 2) 0x1fff_fffe,
  and_ones 28 (a / 2 / 2 / 2 / 2) (omega arith),
)

-- A mask without its lowest digits.
and_double : (a b : ℕ) → bit_and a (2 * b) ≡ bit_and (a / 2) b * 2
and_double a b = omega (arith, and_low a (2 * b), ap (bit_and (a / 2)) half)
  where
    half : 2 * b / 2 ≡ b
    half = omega arith

and_sixteen : (a b : ℕ) → bit_and a (2 * (2 * (2 * (2 * b)))) ≡ bit_and (a / 2 / 2 / 2 / 2) b * 16
and_sixteen a b = omega (
  arith,
  and_double a (2 * (2 * (2 * b))),
  and_double (a / 2) (2 * (2 * b)),
  and_double (a / 2 / 2) (2 * b),
  and_double (a / 2 / 2 / 2) b,
)

-- `& ~4095` on 32 bits.
pub and_not4095 : (a : ℕ) → a < 2 ^ 32 → bit_and a 0xffff_f000 ≡ a / 4096 * 4096
and_not4095 a h =
    let b = a / 2 / 2 / 2 / 2 in
    let c = b / 2 / 2 / 2 / 2 in
    omega (
      arith,
      and_sixteen a 0xfff_ff00,
      and_sixteen b 0xff_fff0,
      and_sixteen c 0xf_ffff,
      and_ones 20 (c / 2 / 2 / 2 / 2) (omega arith),
    )
