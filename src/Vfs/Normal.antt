-- ===== src/Vfs/Normal.antt =====
-- What paths are after `vfs_normalize_path`.
use continuum_os.Common.{
  ℕ, zero, suc, ◌≤◌, ◌<◌, ◌≡◌, ◌≢◌, refl, sym, ap, ◌∙◌, List, [], ◌∷◌, ◌++◌, none, some, true,
  false, arith, ◌==◌, length, take,
}
use continuum_os.Strings.{Text, same, strcmp, difference, strtok}
use continuum_os.Strings.Tokens.{lacks, strtok_delim}
use continuum_os.Vfs.Paths.{
  slash, dot, dot_dot, squeeze, trim, or_root, walk, join, working_path, fuel_for, rebuild,
  vfs_resolve_dots, vfs_normalize_path,
}
use continuum_os.Vfs.Resolution.{Resolves, AllShort, names}
use continuum_os.Vfs.Walk.{IsComponent, AllComponents, components, walk-join, walk_to_dot}

squeeze_clean : (t s : Text) → lacks 47 t ≡ true → squeeze (t ++ s) false ≡ t ++ squeeze s false
unfolding squeeze lacks
squeeze_clean [] s l = refl
squeeze_clean (c ∷ cs) s l =
    let other : (c == 47) ≡ false = ground arith in
    let rest : lacks 47 cs ≡ true = ground arith in rw (other, squeeze_clean cs s rest) refl

squeeze_component :
    (t s : Text)
    → t ≢ []
    → lacks 47 t ≡ true
    → squeeze (47 ∷ t ++ s) false ≡ 47 ∷ t ++ squeeze s false
unfolding squeeze lacks
squeeze_component [] s ne l = absurd (ne refl)
squeeze_component (c ∷ cs) s ne l =
    let other : (c == 47) ≡ false = ground arith in
    let rest : lacks 47 cs ≡ true = ground arith in rw (other, squeeze_clean cs s rest) refl

squeeze-join : (ts : List Text) → AllComponents ts → squeeze (join ts) false ≡ join ts
unfolding join squeeze
squeeze-join [] all = refl
squeeze-join (t ∷ ts) (components c all) =
    squeeze_component t (join ts) c.nonempty c.clean ∙ ap (λ s. 47 ∷ t ++ s) (squeeze-join ts all)

take_all : (n : ℕ) (s : Text) → length s ≤ n → take n s ≡ s
take_all zero [] h = refl
take_all zero (c ∷ cs) h = absurd (omega arith)
take_all (suc n) [] h = refl
take_all (suc n) (c ∷ cs) h = ap (λ l. c ∷ l) (take_all n cs (omega arith))

lacks_head :
    (e : ℕ) (es : Text) → lacks 47 (e ∷ es) ≡ true → ((e == 47) ≡ false) × (lacks 47 es ≡ true)
unfolding lacks
lacks_head e es l = (ground arith, ground arith)

-- The last character, or the one given.
last : ℕ → Text → ℕ
last d [] = d
last d (c ∷ cs) = last c cs

trim_keeps : (c d : ℕ) (s : Text) → (last d s == 47) ≡ false → trim (c ∷ d ∷ s) ≡ c ∷ d ∷ s
unfolding trim last
trim_keeps c d [] h = rw h refl
trim_keeps c d (e ∷ s) h = ap (λ l. c ∷ l) (trim_keeps d e s h)

last_clean :
    (d : ℕ) (t s : Text) → (d == 47) ≡ false → lacks 47 t ≡ true → (last d (t ++ []) == 47) ≡ false
unfolding last lacks
last_clean d [] s h l = h
last_clean d (c ∷ cs) s h l = last_clean c cs s (ground arith) (ground arith)

last-append : (d : ℕ) (t : Text) (c : ℕ) (s : Text) → last d (t ++ c ∷ s) ≡ last c s
unfolding last
last-append d [] c s = refl
last-append d (e ∷ t) c s = last-append e t c s

last-join :
    (d : ℕ) (t : Text) (ts : List Text)
    → (d == 47) ≡ false
    → lacks 47 t ≡ true
    → AllComponents ts
    → (last d (t ++ join ts) == 47) ≡ false
unfolding join last
last-join d t [] h l all = last_clean d t [] h l
last-join d t ([] ∷ us) h l (components c all) = absurd (c.nonempty refl)
last-join d t ((e ∷ es) ∷ us) h l (components c all) =
    let (other, clean) = lacks_head e es c.clean in
    rw (last-append d t 47 ((e ∷ es) ++ join us)) (last-join e es us other clean all)

trim-join :
    (t : Text) (ts : List Text)
    → IsComponent t
    → AllComponents ts
    → trim (join (t ∷ ts)) ≡ join (t ∷ ts)
unfolding join
trim-join [] ts c all = absurd (c.nonempty refl)
trim-join (e ∷ es) ts c all =
    let (other, clean) = lacks_head e es c.clean in
    trim_keeps 47 e (es ++ join ts) (last-join e es ts other clean all)

root_stays : or_root (trim (take 255 (squeeze slash false))) ≡ slash
unfolding or_root trim squeeze
root_stays = refl

-- The end of `vfs_normalize_path` leaves a path of components as it is.
cleaned :
    (ts : List Text)
    → AllComponents ts
    → length (rebuild ts) ≤ 255
    → or_root (trim (take 255 (squeeze (rebuild ts) false))) ≡ rebuild ts
unfolding rebuild or_root join
cleaned [] all l = root_stays
cleaned (t ∷ ts) (components c all) l =
    ap (λ s. or_root (trim (take 255 s))) (squeeze-join (t ∷ ts) (components c all))
    ∙ ap (λ s. or_root (trim s)) (take_all 255 (join (t ∷ ts)) l)
    ∙ ap or_root (trim-join t ts c all)
    ∙ refl

-- What normalizing a path comes to: the path of the components that its names lead to, or a loop that
-- never ends.
pub data Normalizes (cwd path : Text) : Type 0 where
  normal :
      (ts : List Text)
      → Resolves [] (names (working_path cwd path)) (some ts)
      → AllComponents ts
      → length ts ≤ 32
      → length (rebuild ts) ≤ 255
      → ((fuel : ℕ)
          → fuel_for cwd path ≤ fuel
          → vfs_normalize_path fuel cwd path ≡ some (rebuild ts))
      → Normalizes cwd path
  hangs :
      Resolves [] (names (working_path cwd path)) none
      → ((fuel : ℕ) → vfs_normalize_path fuel cwd path ≡ none)
      → Normalizes cwd path

same_rooted : (s : Text) → (same (47 ∷ s) dot ≡ false) × (same (47 ∷ s) dot_dot ≡ false)
unfolding same strcmp difference
same_rooted s = (refl, refl)

rebuilt_rooted :
    (cwd : Text) (ts : List Text)
    → (same (rebuild ts) dot ≡ false)
      × (same (rebuild ts) dot_dot ≡ false)
      × (working_path cwd (rebuild ts) ≡ rebuild ts)
unfolding rebuild join working_path
rebuilt_rooted cwd [] = let (d, dd) = same_rooted [] in (d, dd, refl)
rebuilt_rooted cwd (t ∷ ts) = let (d, dd) = same_rooted (t ++ join ts) in (d, dd, refl)

walk-rebuild :
    (fuel : ℕ) (ts : List Text)
    → AllComponents ts
    → length ts ≤ 32
    → length ts < fuel
    → walk fuel (strtok 47 (rebuild ts)) [] ≡ some ts
unfolding rebuild join
walk-rebuild fuel [] all l h =
    ap (λ token. walk fuel token []) (strtok_delim 47 []) ∙ walk-join fuel [] [] all l h
walk-rebuild fuel (t ∷ ts) all l h = walk-join fuel (t ∷ ts) [] all (omega arith) h

-- A path in normal form, of at most 32 names of at most 63 characters and at most 255 characters in
-- all, stays as it is, whatever the working directory; a turn of the loop for each name and one more
-- are enough.
pub vfs_normalize_path_normal :
    (fuel : ℕ) (cwd : Text) (ts : List Text)
    → AllComponents ts
    → AllShort ts
    → length ts ≤ 32
    → length (rebuild ts) ≤ 255
    → length ts < fuel
    → vfs_normalize_path fuel cwd (rebuild ts) ≡ some (rebuild ts)
unfolding vfs_normalize_path vfs_resolve_dots
vfs_normalize_path_normal fuel cwd ts all are_short l fits h =
    let (d, dd, w) = rebuilt_rooted cwd ts in
    rw (d, dd, w, walk-rebuild fuel ts all l h) (ap some (cleaned ts all fits))

join-append : (ts : List Text) (t : Text) → join (ts ++ t ∷ []) ≡ join ts ++ (47 ∷ (t ++ []))
unfolding join
join-append [] t = refl
join-append (u ∷ us) t =
    ap (λ s. 47 ∷ u ++ s) (join-append us t) ∙ ap (λ s. 47 ∷ s) (assoc u (join us) (47 ∷ (t ++ [])))
  where
    assoc : (xs ys zs : Text) → xs ++ (ys ++ zs) ≡ (xs ++ ys) ++ zs
    assoc [] ys zs = refl
    assoc (x ∷ xs) ys zs = ap (λ l. x ∷ l) (assoc xs ys zs)

rooted_dot :
    (cwd : Text) (ts : List Text)
    → (same (join ts ++ 47 ∷ dot) dot ≡ false)
      × (same (join ts ++ 47 ∷ dot) dot_dot ≡ false)
      × (working_path cwd (join ts ++ 47 ∷ dot) ≡ join ts ++ 47 ∷ dot)
unfolding join working_path
rooted_dot cwd [] = let (d, dd) = same_rooted dot in (d, dd, refl)
rooted_dot cwd (t ∷ ts) = let (d, dd) = same_rooted ((t ++ join ts) ++ 47 ∷ dot) in (d, dd, refl)

-- A path in normal form with `/.` behind it, of fewer than 32 names, is never normalized: the loop
-- turns for ever on the dot.
pub vfs_normalize_path-dot :
    (fuel : ℕ) (cwd : Text) (ts : List Text)
    → AllComponents ts
    → length ts < 32
    → vfs_normalize_path fuel cwd (join ts ++ 47 ∷ dot) ≡ none
unfolding vfs_normalize_path vfs_resolve_dots
vfs_normalize_path-dot fuel cwd ts all l =
    let (d, dd, w) = rooted_dot cwd ts in
    let stuck : walk fuel (strtok 47 (join ts ++ 47 ∷ dot)) [] ≡ none =
      ap (λ s. walk fuel (strtok 47 s) []) (sym (join-append ts dot))
      ∙ walk_to_dot fuel ts [] all (omega arith) in
    rw (d, dd, w, stuck) refl
