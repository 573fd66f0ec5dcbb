-- ===== src/Strings/Compare.antt =====
-- What the answer 0 of `strcmp` means.
use continuum_os.Common.{
  ℕ, zero, suc, ◌-◌, ◌≡◌, ◌≢◌, ◌↔◌, refl, ◌∙◌, [], ◌∷◌, arith, Bool, true, false, ◌==◌, ltb,
  if◌then◌else◌, Bool-cases, inl, inr,
}
use continuum_os.Common.Int.{pos}
use continuum_os.Strings.{Text, difference, strcmp, is_zero, same}

unfoldable pub nul_free : Text → Bool
nul_free [] = true
nul_free (c ∷ cs) = let rest = nul_free cs in if c == 0 then false else rest

is_zero_pos : (n : ℕ) → n ≢ 0 → is_zero (pos n) ≡ false
is_zero_pos zero ne = absurd (ne refl)
is_zero_pos (suc n) ne = refl

pub difference_apart : (a b : ℕ) → (a == b) ≡ false → is_zero (difference a b) ≡ false
unfolding difference
difference_apart a b h = elim (Bool-cases (ltb a b)) [
  | inl l ↦ rw l refl
  | inr g ↦ rw g (is_zero_pos (a - b) (ground arith))
]

same_refl : (xs : Text) → same xs xs ≡ true
unfolding same strcmp difference
same_refl [] = refl
same_refl (x ∷ xs) = let self : (x == x) ≡ true = ground arith in rw self (same_refl xs)

equal_if_same :
    (xs ys : Text) → nul_free xs ≡ true → nul_free ys ≡ true → same xs ys ≡ true → xs ≡ ys
unfolding same strcmp nul_free
equal_if_same [] [] p q h = refl
equal_if_same [] (y ∷ ys) p q h = absurd (ends y ys q h)
  where
    ends : (y : ℕ) (ys : Text) → nul_free (y ∷ ys) ≡ true → same [] (y ∷ ys) ≡ true → ⊥
    ends y ys q h = elim (Bool-cases (0 == y)) [
      | inl z ↦ ground arith
      | inr n ↦ grind (arith, difference_apart 0 y n)
    ]
equal_if_same (x ∷ xs) [] p q h = absurd (ends x xs p h)
  where
    ends : (x : ℕ) (xs : Text) → nul_free (x ∷ xs) ≡ true → same (x ∷ xs) [] ≡ true → ⊥
    ends x xs q h = elim (Bool-cases (x == 0)) [
      | inl z ↦ ground arith
      | inr n ↦ grind (arith, difference_apart x 0 n)
    ]
equal_if_same (x ∷ xs) (y ∷ ys) p q h = elim (Bool-cases (x == y)) [
  | inl e ↦
      let heads : x ≡ y = ground arith in
      let p' : nul_free xs ≡ true = ground arith in
      let q' : nul_free ys ≡ true = ground arith in
      let rest : same xs ys ≡ same (x ∷ xs) (y ∷ ys) = rw e refl in
      rw (heads, equal_if_same xs ys p' q' (rest ∙ h)) refl
  | inr n ↦
      let apart : same (x ∷ xs) (y ∷ ys) ≡ false = rw n (difference_apart x y n) in absurd (cc)
]

-- `strcmp` answers 0 on two strings exactly where they are equal.
pub same_iff :
    (xs ys : Text) → nul_free xs ≡ true → nul_free ys ≡ true → (same xs ys ≡ true) ↔ (xs ≡ ys)
same_iff xs ys p q = (equal_if_same xs ys p q, λ e. rw e (same_refl ys))
