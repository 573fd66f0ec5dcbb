-- ===== src/Strings/Tokens.antt =====
-- What one call of `strtok` takes from the string.
use continuum_os.Common.{
  ℕ, ◌≤◌, ◌<◌, ◌≡◌, ◌≢◌, refl, sym, ap, ◌∙◌, [], ◌∷◌, ◌++◌, Option, none, some, arith, Bool, true,
  false, ◌==◌, if◌then◌else◌, Bool-cases, inl, inr, length, get_or,
}
use continuum_os.Strings.{Text, skip, token, token_of, strtok}

-- No character of the string is the delimiter.
unfoldable pub lacks : ℕ → Text → Bool
lacks delim [] = true
lacks delim (c ∷ cs) = let rest = lacks delim cs in if c == delim then false else rest

-- What a call comes to: no token, or one that is not empty and has no delimiter, with less behind it.
pub data Taken (delim : ℕ) (s : Text) (r : Option (Text × Text)) : Type 0 where
  nothing : r ≡ none → Taken delim s r
  took :
      (t rest : Text)
      → r ≡ some (t, rest)
      → t ≢ []
      → lacks delim t ≡ true
      → length rest < length s
      → Taken delim s r

skip-le : (delim : ℕ) (s : Text) → length (skip delim s) ≤ length s
unfolding skip
skip-le delim [] = omega arith
skip-le delim (c ∷ cs) = elim (Bool-cases (c == delim)) [
  | inl y ↦ rw y (omega (arith, skip-le delim cs))
  | inr n ↦ rw n (omega arith)
]

token-le : (delim : ℕ) (s : Text) → length (token delim s).1 ≤ length s
unfolding token
token-le delim [] = omega arith
token-le delim (c ∷ cs) = elim (Bool-cases (c == delim)) [
  | inl y ↦ rw y (omega arith)
  | inr n ↦ rw n (omega (arith, token-le delim cs))
]

token-lacks : (delim : ℕ) (s : Text) → lacks delim (token delim s).0 ≡ true
unfolding token lacks
token-lacks delim [] = refl
token-lacks delim (c ∷ cs) = elim (Bool-cases (c == delim)) [
  | inl y ↦ rw y refl
  | inr n ↦ rw (n, n) (token-lacks delim cs)
]

-- The first character behind the skipped ones is no delimiter.
pub skip_head :
    (delim : ℕ) (s : Text) (c : ℕ) (cs : Text) → skip delim s ≡ c ∷ cs → (c == delim) ≡ false
unfolding skip
skip_head delim [] c cs e = absurd (cc)
skip_head delim (x ∷ xs) c cs e = elim (Bool-cases (x == delim)) [
  | inl y ↦
      let past : skip delim xs ≡ skip delim (x ∷ xs) = rw y refl in
      skip_head delim xs c cs (past ∙ e)
  | inr n ↦
      let stays : x ∷ xs ≡ skip delim (x ∷ xs) = rw n refl in
      let head : c ≡ x = ap (λ l. get_or l 0 c) (sym (stays ∙ e)) in rw head n
]

-- `strtok` gives no token, or a token that is not empty and has no delimiter, and leaves a string that
-- is shorter than the one it was given.
pub strtok-Taken : (delim : ℕ) (s : Text) → Taken delim s (strtok delim s)
unfolding strtok token lacks
strtok-Taken delim s = first (skip delim s) refl
  where
    first : (s' : Text) → skip delim s ≡ s' → Taken delim s (token_of delim s')
    first [] e = nothing refl
    first (c ∷ cs) e =
        let stop = skip_head delim s c cs e in
        let keeps : token delim (c ∷ cs) ≡ (c ∷ (token delim cs).0, (token delim cs).1) =
          rw stop refl in
        rw keeps (
          took (c ∷ (token delim cs).0) (token delim cs).1 refl (λ z. cc)
            (rw stop (token-lacks delim cs))
            (omega (arith, token-le delim cs, skip-le delim s, ap (λ (l : Text). length l) e)))

token_next :
    (delim : ℕ) (t rest : Text) → lacks delim t ≡ true → token delim (t ++ delim ∷ rest) ≡ (t, rest)
unfolding token lacks
token_next delim [] rest l = let self : (delim == delim) ≡ true = ground arith in rw self refl
token_next delim (c ∷ cs) rest l = elim (Bool-cases (c == delim)) [
  | inl y ↦ absurd (ground arith)
  | inr n ↦
      let lacks_cs : lacks delim cs ≡ true = ground arith in
      rw (n, token_next delim cs rest lacks_cs) refl
]

token_last : (delim : ℕ) (t : Text) → lacks delim t ≡ true → token delim (t ++ []) ≡ (t, [])
unfolding token lacks
token_last delim [] l = refl
token_last delim (c ∷ cs) l = elim (Bool-cases (c == delim)) [
  | inl y ↦ absurd (ground arith)
  | inr n ↦
      let lacks_cs : lacks delim cs ≡ true = ground arith in
      rw (n, token_last delim cs lacks_cs) refl
]

-- A delimiter in front is skipped.
pub strtok_delim : (delim : ℕ) (s : Text) → strtok delim (delim ∷ s) ≡ strtok delim s
unfolding strtok skip
strtok_delim delim s = let self : (delim == delim) ≡ true = ground arith in rw self refl

strtok-token :
    (delim : ℕ) (t s : Text)
    → t ≢ []
    → lacks delim t ≡ true
    → strtok delim (t ++ s) ≡ some (token delim (t ++ s))
unfolding strtok skip lacks
strtok-token delim [] s ne l = absurd (ne refl)
strtok-token delim (c ∷ cs) s ne l = let stop : (c == delim) ≡ false = ground arith in rw stop refl

-- A token is taken whole, up to the next delimiter or the end.
pub strtok_next :
    (delim : ℕ) (t rest : Text)
    → t ≢ []
    → lacks delim t ≡ true
    → strtok delim (t ++ delim ∷ rest) ≡ some (t, rest)
strtok_next delim t rest ne l =
    strtok-token delim t (delim ∷ rest) ne l ∙ ap some (token_next delim t rest l)

pub strtok_last :
    (delim : ℕ) (t : Text) → t ≢ [] → lacks delim t ≡ true → strtok delim (t ++ []) ≡ some (t, [])
strtok_last delim t ne l = strtok-token delim t [] ne l ∙ ap some (token_last delim t l)
