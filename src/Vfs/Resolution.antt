-- ===== src/Vfs/Resolution.antt =====
-- What `vfs_resolve_dots` of src/kernel/vfs.cpp means to do, said without its loop: the names of a
-- path, and what they resolve to.
use continuum_os.Common.{
  ℕ, suc, ◌+◌, ◌≤◌, ◌<◌, ◌≡◌, refl, sym, ap, ◌∙◌, List, [], ◌∷◌, ◌++◌, Option, none, some, true,
  false, arith, ◌==◌, if◌then◌else◌, length, length-append, Bool-cases, inl, inr,
}
use continuum_os.Strings.{Text, same, strtok, skip, token, token_of}
use continuum_os.Strings.Tokens.{skip_head}
use continuum_os.Vfs.Paths.{dot, dot_dot, parent, join}

-- A name that is not empty, before others.
unfoldable pub add_name : Text → List Text → List Text
add_name [] ts = ts
add_name (c ∷ cs) ts = (c ∷ cs) ∷ ts

-- The names between the slashes of a path, behind the first part of a name.
unfoldable pub names_from : Text → Text → List Text
names_from start [] = add_name start []
names_from start (c ∷ cs) =
    if c == 47 then add_name start (names_from [] cs) else names_from (start ++ c ∷ []) cs

unfoldable pub names : Text → List Text
names s = names_from [] s

-- Names that the component buffers of 64 characters hold.
pub data AllShort : List Text → Type 0 where
  no_names : AllShort []
  short : {t : Text} {ts : List Text} → length t ≤ 63 → AllShort ts → AllShort (t ∷ ts)

-- What the names `ts` lead to from the directory `before`: the names of a directory, or `none` where a
-- dot is reached. A directory 32 names deep is as far as it goes.
pub data Resolves : List Text → List Text → Option (List Text) → Type 0 where
  arrives : {before : List Text} → Resolves before [] (some before)
  deep : {before ts : List Text} → 32 ≤ length before → Resolves before ts (some before)
  down :
      {before ts : List Text} {t : Text} {r : Option (List Text)}
      → same t dot ≡ false
      → same t dot_dot ≡ false
      → Resolves (before ++ t ∷ []) ts r
      → Resolves before (t ∷ ts) r
  up :
      (u : Text) {before above ts : List Text} {t : Text} {r : Option (List Text)}
      → before ≡ above ++ u ∷ []
      → same t dot_dot ≡ true
      → Resolves above ts r
      → Resolves before (t ∷ ts) r
  up_at_root :
      {ts : List Text} {t : Text} {r : Option (List Text)}
      → same t dot_dot ≡ true
      → Resolves [] ts r
      → Resolves [] (t ∷ ts) r
  stuck :
      {before ts : List Text} {t : Text}
      → same t dot ≡ true
      → length before < 32
      → Resolves before (t ∷ ts) none

pub append_assoc {ℓ} :
    {A : Type ℓ} (xs : List A) (t : A) (ys : List A) → (xs ++ t ∷ []) ++ ys ≡ xs ++ t ∷ ys
append_assoc [] t ys = refl
append_assoc (x ∷ xs) t ys = ap (λ l. x ∷ l) (append_assoc xs t ys)

pub append_nil {ℓ} : {A : Type ℓ} (xs : List A) → xs ++ [] ≡ xs
append_nil [] = refl
append_nil (x ∷ xs) = ap (λ l. x ∷ l) (append_nil xs)

-- At `..`.
pub up_parent :
    (before ts : List Text) (t : Text) (r : Option (List Text))
    → same t dot_dot ≡ true
    → Resolves (parent before) ts r
    → Resolves before (t ∷ ts) r
unfolding parent
up_parent [] ts t r d k = up_at_root d k
up_parent (u ∷ us) ts t r d k = let (v, e) = parent_last u us in up v e d k
  where
    parent_last : (u : Text) (us : List Text) → (v : Text) × (u ∷ us ≡ parent (u ∷ us) ++ v ∷ [])
    parent_last u [] = (u, refl)
    parent_last u (w ∷ us) = let (v, e) = parent_last w us in (v, ap (λ l. u ∷ l) e)

names-skip : (s : Text) → names s ≡ names (skip 47 s)
unfolding names names_from add_name skip
names-skip [] = refl
names-skip (c ∷ cs) = elim (Bool-cases (c == 47)) [
  | inl y ↦ rw y (names-skip cs)
  | inr n ↦
      let stays : skip 47 (c ∷ cs) ≡ c ∷ cs = rw n refl in ap (λ l. names_from [] l) (sym stays)
]

names_from-token :
    (start s : Text)
    → names_from start s ≡ add_name (start ++ (token 47 s).0) (names (token 47 s).1)
unfolding names names_from add_name token
names_from-token start [] = ap (λ n. add_name n []) (sym (append_nil start))
names_from-token start (c ∷ cs) = elim (Bool-cases (c == 47)) [
  | inl y ↦ rw y (ap (λ n. add_name n (names_from [] cs)) (sym (append_nil start)))
  | inr n ↦ rw n (
      names_from-token (start ++ c ∷ []) cs
      ∙ ap (λ n. add_name n (names_from [] (token 47 cs).1)) (append_assoc start c (token 47 cs).0))
]

-- The names that a token and the string behind it stand for.
abbrev pub names_at : Option (Text × Text) → List Text
names_at none = []
names_at (some (t, rest)) = t ∷ names rest

pub names-strtok : (s : Text) → names s ≡ names_at (strtok 47 s)
unfolding strtok names names_from add_name token
names-strtok s = names-skip s ∙ first (skip 47 s) refl
  where
    first : (s' : Text) → skip 47 s ≡ s' → names s' ≡ names_at (token_of 47 s')
    first [] e = refl
    first (c ∷ cs) e = let stop = skip_head 47 s c cs e in rw stop (names_from-token (c ∷ []) cs)

-- The characters of the names, each behind a slash.
abbrev total : List Text → ℕ
total ts = length (join ts)

total-add_name : (t : Text) (ts : List Text) → total (add_name t ts) ≤ suc (length t) + total ts
unfolding add_name join
total-add_name [] ts = omega arith
total-add_name (c ∷ cs) ts = omega (arith, length-append (c ∷ cs) (join ts))

total-names_from : (start s : Text) → total (names_from start s) ≤ length start + length s + 1
unfolding names_from join
total-names_from start [] = omega (arith, total-add_name start [])
total-names_from start (c ∷ cs) = elim (Bool-cases (c == 47)) [
  | inl y ↦ rw y (omega (arith, total-add_name start (names_from [] cs), total-names_from [] cs))
  | inr n ↦
      rw n (omega (arith, total-names_from (start ++ c ∷ []) cs, length-append start (c ∷ [])))
]

pub total-names : (s : Text) → length (join (names s)) ≤ length s + 1
unfolding names
total-names s = omega (arith, total-names_from [] s)

total-append : (ts : List Text) (t : Text) → total (ts ++ t ∷ []) ≡ total ts + length t + 1
unfolding join
total-append [] t = omega (arith, length-append t [])
total-append (u ∷ us) t =
    omega
      (arith, total-append us t, length-append u (join us), length-append u (join (us ++ t ∷ [])))

pub total-Resolves :
    (before ts after : List Text)
    → Resolves before ts (some after)
    → length (join after) ≤ length (join before) + length (join ts)
unfolding join
total-Resolves before ts after k = measured before ts (some after) k after refl
  where
    same_total : (a b : List Text) → some a ≡ some b → total a ≡ total b
    same_total a b e = let q : a ≡ b = cc in ap (λ l. total l) q

    measured :
        (before ts : List Text) (r : Option (List Text))
        → Resolves before ts r
        → (after : List Text) → r ≡ some after
        → total after ≤ total before + total ts
    measured before [] r (arrives) after e = omega (arith, same_total before after e)
    measured before ts r (deep l) after e = omega (arith, same_total before after e)
    measured before (t ∷ ts) r (down d dd k) after e = omega (
      arith,
      measured (before ++ t ∷ []) ts r k after e,
      total-append before t,
      length-append t (join ts),
    )
    measured before (t ∷ ts) r (up u {above = above} q d k) after e = omega (
      arith,
      measured above ts r k after e,
      ap (λ l. total l) q,
      total-append above u,
      length-append t (join ts),
    )
    measured [] (t ∷ ts) r (up_at_root d k) after e =
        omega (arith, measured [] ts r k after e, length-append t (join ts))
    measured before (t ∷ ts) r (stuck d l) after e = absurd (cc)
