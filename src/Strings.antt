-- ===== src/Strings.antt =====
-- src/libc/string/string.cpp. A C string is the list of its characters before the NUL, none of which
-- is 0; memory is a function from addresses to bytes. `strcpy` is then the value itself and `strcat`
-- the append `++`.
pub mod Compare
pub mod Memory
pub mod Tokens
mod Tests
use continuum_os.Common.{
  ℕ, zero, suc, ◌+◌, ◌-◌, ◌%◌, Bool, true, false, Option, none, some, List, [], ◌∷◌, ltb, leb, ◌==◌,
  if◌then◌else◌,
}
use continuum_os.Common.Int.{ℤ, pos, negsuc}

abbrev pub Text : Type 0
Text = List ℕ

-- `a - b` of two unsigned characters, as an int.
unfoldable pub difference : ℕ → ℕ → ℤ
difference a b = if ltb a b then negsuc (b - a - 1) else pos (a - b)

unfoldable pub strcmp : Text → Text → ℤ
strcmp [] [] = difference 0 0
strcmp [] (y ∷ ys) = difference 0 y
strcmp (x ∷ xs) [] = difference x 0
strcmp (x ∷ xs) (y ∷ ys) = let rest = strcmp xs ys in if x == y then rest else difference x y

unfoldable pub strncmp : Text → Text → ℕ → ℤ
strncmp xs ys zero = pos 0
strncmp [] [] (suc n) = difference 0 0
strncmp [] (y ∷ ys) (suc n) = difference 0 y
strncmp (x ∷ xs) [] (suc n) = difference x 0
strncmp (x ∷ xs) (y ∷ ys) (suc n) =
    let rest = strncmp xs ys n in if x == y then rest else difference x y

abbrev pub is_zero : ℤ → Bool
is_zero (pos zero) = true
is_zero (pos (suc n)) = false
is_zero (negsuc n) = false

-- `strcmp(a, b) == 0`.
unfoldable pub same : Text → Text → Bool
same a b = is_zero (strcmp a b)

-- The string from the first `c` on.
unfoldable pub strchr : Text → ℕ → Option Text
strchr [] c = none
strchr (x ∷ xs) c = let rest = strchr xs c in if x == c then some (x ∷ xs) else rest

-- The part of the string before its last `c`.
unfoldable pub strrchr : Text → ℕ → Option Text
strrchr [] c = none
strrchr (x ∷ xs) c = elim (strrchr xs c) [
  | none ↦ if x == c then some [] else none
  | some before ↦ some (x ∷ before)
]

-- `strtok` with a delimiter of one character: the token and what `last` points to behind it.
unfoldable pub skip : ℕ → Text → Text
skip delim [] = []
skip delim (c ∷ cs) = let rest = skip delim cs in if c == delim then rest else c ∷ cs

unfoldable pub token : ℕ → Text → Text × Text
token delim [] = ([], [])
token delim (c ∷ cs) = let r = token delim cs in if c == delim then ([], cs) else (c ∷ r.0, r.1)

abbrev pub token_of : ℕ → Text → Option (Text × Text)
token_of delim [] = none
token_of delim (c ∷ cs) = some (token delim (c ∷ cs))

unfoldable pub strtok : ℕ → Text → Option (Text × Text)
strtok delim s = token_of delim (skip delim s)

-- Memory, byte by byte.
abbrev pub Memory : Type 0
Memory = ℕ → ℕ

abbrev pub store : ℕ → ℕ → Memory → Memory
store at b m a = if a == at then b else m a

-- `for (i = 0; i < size; i++) dst[i] = src[i]`, from `i` on for `n` bytes.
unfoldable pub copy_up : ℕ → ℕ → ℕ → ℕ → Memory → Memory
copy_up dst src i zero m = m
copy_up dst src i (suc n) m = copy_up dst src (suc i) n (store (dst + i) (m (src + i)) m)

-- `for (i = size; i != 0; i--) dst[i - 1] = src[i - 1]`.
unfoldable pub copy_down : ℕ → ℕ → ℕ → Memory → Memory
copy_down dst src zero m = m
copy_down dst src (suc i) m = copy_down dst src i (store (dst + i) (m (src + i)) m)

unfoldable pub memcpy : ℕ → ℕ → ℕ → Memory → Memory
memcpy dst src size m = copy_up dst src 0 size m

unfoldable pub memmove : ℕ → ℕ → ℕ → Memory → Memory
memmove dst src size m = if ltb dst src then copy_up dst src 0 size m else copy_down dst src size m

unfoldable pub set_up : ℕ → ℕ → ℕ → ℕ → Memory → Memory
set_up buf value i zero m = m
set_up buf value i (suc n) m = set_up buf value (suc i) n (store (buf + i) value m)

unfoldable pub memset : ℕ → ℕ → ℕ → Memory → Memory
memset buf value size m = set_up buf (value % 256) 0 size m

-- The answer for the first bytes that differ, from `i` on for `n` bytes.
unfoldable pub compare_from : ℕ → ℕ → ℕ → ℕ → Memory → ℤ
compare_from a b i zero m = pos 0
compare_from a b i (suc n) m =
    let rest = compare_from a b (suc i) n m in
    if ltb (m (a + i)) (m (b + i))
    then negsuc 0
    else (if ltb (m (b + i)) (m (a + i)) then pos 1 else rest)

unfoldable pub memcmp : ℕ → ℕ → ℕ → Memory → ℤ
memcmp a b size m = compare_from a b 0 size m
