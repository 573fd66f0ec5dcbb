-- ===== src/Fat32/ShortNames.antt =====
-- Short names of src/kernel/fat32.cpp, built and read back.
use continuum_os.Common.{
  ℕ, zero, suc, ◌+◌, ◌-◌, ◌≤◌, ◌<◌, ◌≡◌, ◌≢◌, refl, sym, ap, ◌∙◌, Bool, true, false, ◌&&◌, ◌||◌,
  not, Option, none, some, List, [], ◌∷◌, ◌++◌, map, arith, ltb, ◌==◌, length, length-append,
  length-replicate, take_all, take, drop, replicate,
}
use continuum_os.Strings.{Text, strchr}
use continuum_os.Fat32.Names.{
  fat32_to_upper, short_part, padded, build_parts, fat32_build_short_name, until_space, name_bytes,
  with_ext, fat32_short_name_to_string,
}

-- The characters that may stand in a part of a short name.
unfoldable pub is_short : Text → Bool
is_short [] = true
is_short (c ∷ cs) = not (c == 32 || c == 46 || c == 47 || c == 92) && is_short cs

upper_kept :
    (c : ℕ)
    → (c == 32 || c == 46 || c == 47 || c == 92) ≡ false
    → (fat32_to_upper c == 32
        || fat32_to_upper c == 46
        || fat32_to_upper c == 47
        || fat32_to_upper c == 92)
      ≡ false
unfolding fat32_to_upper
upper_kept c h = ground arith

short_part-map : (t : Text) → is_short t ≡ true → short_part t ≡ some (map fat32_to_upper t)
unfolding short_part is_short
short_part-map [] h = refl
short_part-map (c ∷ cs) h =
    let good : (c == 32 || c == 46 || c == 47 || c == 92) ≡ false = ground arith in
    let rest : is_short cs ≡ true = ground arith in
    rw (upper_kept c good, short_part-map cs rest) refl

strchr-dot :
    (base ext : Text) → is_short base ≡ true → strchr (base ++ 46 ∷ ext) 46 ≡ some (46 ∷ ext)
unfolding strchr is_short
strchr-dot [] ext h = refl
strchr-dot (c ∷ base) ext h =
    let other : (c == 46) ≡ false = ground arith in
    let rest : is_short base ≡ true = ground arith in rw (other, strchr-dot base ext rest) refl

take-append : (xs ys : List ℕ) → take (length xs) (xs ++ ys) ≡ xs
take-append [] [] = refl
take-append [] (y ∷ ys) = refl
take-append (x ∷ xs) ys = ap (λ l. x ∷ l) (take-append xs ys)

drop-append : (xs ys : List ℕ) → drop (length xs) (xs ++ ys) ≡ ys
drop-append [] [] = refl
drop-append [] (y ∷ ys) = refl
drop-append (x ∷ xs) ys = drop-append xs ys

length-map : (f : ℕ → ℕ) (xs : List ℕ) → length (map f xs) ≡ length xs
length-map f [] = refl
length-map f (x ∷ xs) = ap suc (length-map f xs)

-- A part that was padded ends where its spaces begin.
until_space-padded :
    (t : Text) (n : ℕ)
    → is_short t ≡ true
    → until_space (map fat32_to_upper t ++ replicate n 32) ≡ map fat32_to_upper t
unfolding until_space is_short
until_space-padded [] zero h = refl
until_space-padded [] (suc n) h = refl
until_space-padded (c ∷ cs) n h =
    let good : (c == 32 || c == 46 || c == 47 || c == 92) ≡ false = ground arith in
    let other : (fat32_to_upper c == 32) ≡ false = ground (arith, upper_kept c good) in
    let rest : is_short cs ≡ true = ground arith in rw (other, until_space-padded cs n rest) refl

length-padded : (n : ℕ) (cs : List ℕ) → length cs ≤ n → length (padded n cs) ≡ n
length-padded n cs h =
    length-append cs (replicate (n - length cs) 32)
    ∙ ap (λ k. length cs + k) (length-replicate (n - length cs) 32)
    ∙ omega arith

not_five : (c : ℕ) → c ≢ 5 → (fat32_to_upper c == 5) ≡ false
unfolding fat32_to_upper
not_five c h = ground arith

map-append :
    (xs ys : List ℕ)
    → map fat32_to_upper (xs ++ ys) ≡ map fat32_to_upper xs ++ map fat32_to_upper ys
map-append [] ys = refl
map-append (x ∷ xs) ys = ap (λ l. fat32_to_upper x ∷ l) (map-append xs ys)

-- The two parts of what was built, read back.
read_parts :
    (c : ℕ) (base ext : Text)
    → c ≢ 5
    → is_short (c ∷ base) ≡ true
    → is_short ext ≡ true
    → length (c ∷ base) ≤ 8
    → 0 < length ext
    → length ext ≤ 3
    → fat32_short_name_to_string
        (padded 8 (map fat32_to_upper (c ∷ base)) ++ padded 3 (map fat32_to_upper ext))
        13
      ≡ map fat32_to_upper (c ∷ base) ++ 46 ∷ map fat32_to_upper ext
unfolding fat32_short_name_to_string name_bytes
read_parts c base ext five b e lb more le_ =
    ap (λ x. with_ext 13 (take 12 (until_space x)) (until_space (drop 8 (name_bytes whole)))) first
    ∙ ap (λ x. with_ext 13 (take 12 (until_space front)) (until_space x)) second
    ∙ ap (λ x. with_ext 13 (take 12 x) (until_space back))
        (until_space-padded (c ∷ base) (8 - length up) b)
    ∙ ap (λ x. with_ext 13 (take 12 up) x) (until_space-padded ext (3 - length up_ext) e)
    ∙ ap (λ x. with_ext 13 x up_ext)
        (take_all 12 up (omega (arith, length-map fat32_to_upper base)))
    ∙ rw dotted refl
  where
    up : List ℕ
    up = map fat32_to_upper (c ∷ base)

    up_ext : List ℕ
    up_ext = map fat32_to_upper ext

    front : List ℕ
    front = padded 8 up

    back : List ℕ
    back = padded 3 up_ext

    whole : List ℕ
    whole = front ++ back

    eight : length front ≡ 8
    eight = length-padded 8 up (omega (arith, length-map fat32_to_upper base))

    unmarked : name_bytes whole ≡ whole
    unmarked = let other : (fat32_to_upper c == 5) ≡ false = not_five c five in rw other refl

    first : take 8 (name_bytes whole) ≡ front
    first = ap (take 8) unmarked ∙ ap (λ k. take k whole) (sym eight) ∙ take-append front back

    second : drop 8 (name_bytes whole) ≡ back
    second = ap (drop 8) unmarked ∙ ap (λ k. drop k whole) (sym eight) ∙ drop-append front back

    dotted : (ltb 0 (length up_ext) && ltb (length up + length up_ext + 1) 13) ≡ true
    dotted = ground (arith, length-map fat32_to_upper base, length-map fat32_to_upper ext)

-- A name with a base of one to eight characters and an extension of one to three, all of which may
-- stand in a short name, and that does not begin with the byte 5, is built into a short name that reads
-- back as the name in upper case.
pub fat32_short_name_to_string-fat32_build_short_name :
    (c : ℕ) (base ext : Text)
    → c ≢ 5
    → is_short (c ∷ base) ≡ true
    → is_short ext ≡ true
    → length (c ∷ base) ≤ 8
    → 0 < length ext
    → length ext ≤ 3
    → (short_name : List ℕ) × (fat32_build_short_name (c ∷ base ++ 46 ∷ ext) ≡ some short_name)
      × (fat32_short_name_to_string short_name 13 ≡ map fat32_to_upper (c ∷ base ++ 46 ∷ ext))
unfolding fat32_build_short_name build_parts fat32_to_upper
fat32_short_name_to_string-fat32_build_short_name c base ext five b e lb more le_ = (
  padded 8 (map fat32_to_upper (c ∷ base)) ++ padded 3 (map fat32_to_upper ext),
  ap
        (λ r. elim r as (λ x. Option (List ℕ)) [
          | none ↦ build_parts name []
          | some rest ↦ build_parts (take (length name - length rest) name) (drop 1 rest)
        ])
        (strchr-dot (c ∷ base) ext b)
      ∙ ap (λ l. build_parts l ext)
          (ap (λ k. take k name) before ∙ take-append (c ∷ base) (46 ∷ ext))
      ∙ rw (fits, short_part-map (c ∷ base) b, short_part-map ext e) refl,
  read_parts c base ext five b e lb more le_ ∙ sym (map-append (c ∷ base) (46 ∷ ext)),
)
  where
    name : Text
    name = c ∷ base ++ 46 ∷ ext

    before : length name - length (46 ∷ ext) ≡ length (c ∷ base)
    before = omega (arith, length-append (c ∷ base) (46 ∷ ext))

    fits : (length (c ∷ base) == 0 || ltb 8 (length (c ∷ base)) || ltb 3 (length ext)) ≡ false
    fits = ground arith
