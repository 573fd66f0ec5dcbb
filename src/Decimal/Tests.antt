-- ===== src/Decimal/Tests.antt =====
-- Runs and instances of the theorems on decimal digits.
use continuum_os.Common.{◌≡◌, refl, [], ◌∷◌, arith}
use continuum_os.Common.Int.{negsuc}
use continuum_os.Decimal.{digits, negative_digits, reverse, uitoa, int_to_string}
use continuum_os.Decimal.Value.{signed, signed-int_to_string}

uitoa_run : uitoa 2026 10 ≡ (50 ∷ 48 ∷ 50 ∷ 54 ∷ [], 4)
unfolding uitoa digits reverse
uitoa_run = refl

-- -2 ^ 31 is written as `-./,),(-*,(`.
least_int_run :
    int_to_string (negsuc 2147483647) ≡ 45 ∷ 46 ∷ 47 ∷ 44 ∷ 41 ∷ 44 ∷ 40 ∷ 45 ∷ 42 ∷ 44 ∷ 40 ∷ []
unfolding int_to_string negative_digits reverse
least_int_run = refl

signed-int_to_string_example : signed (int_to_string (negsuc 41)) ≡ negsuc 41
signed-int_to_string_example = signed-int_to_string (negsuc 41) (omega arith)
