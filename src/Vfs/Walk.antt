-- ===== src/Vfs/Walk.antt =====
-- The loop of `vfs_resolve_dots` over the tokens of a path.
use continuum_os.Common.{
  ℕ, zero, suc, ◌+◌, ◌≤◌, ◌<◌, ◌≡◌, ◌≢◌, refl, sym, ap, ◌∙◌, List, [], ◌∷◌, ◌++◌, Option, none,
  some, true, false, arith, leb, length, length-append, Bool-cases, inl, inr,
}
use continuum_os.Strings.{Text, same, strcmp, difference, strtok, skip, token}
use continuum_os.Strings.Tokens.{
  lacks, Taken, nothing, took, strtok-Taken, strtok_delim, strtok_next, strtok_last,
}
use continuum_os.Vfs.Resolution.{
  Resolves, arrives, deep, down, stuck, up_parent, names, names_at, names-strtok, append_assoc,
  append_nil,
}
use continuum_os.Vfs.Paths.{dot, dot_dot, max_components, parent, kept, next_token, walk, join}

-- A name that may stand between two slashes of a path in normal form.
pub record IsComponent (t : Text) : Type 0 where
  pub nonempty : t ≢ []
  pub clean : lacks 47 t ≡ true
  pub not_dot : same t dot ≡ false
  pub not_dot_dot : same t dot_dot ≡ false

pub data AllComponents : List Text → Type 0 where
  no_components : AllComponents []
  components :
      {t : Text} {ts : List Text} → IsComponent t → AllComponents ts → AllComponents (t ∷ ts)

all-append :
    (ts : List Text) (t : Text) → AllComponents ts → IsComponent t → AllComponents (ts ++ t ∷ [])
all-append [] t all c = components c no_components
all-append (u ∷ ts) t (components d all) c = components d (all-append ts t all c)

all-parent : (ts : List Text) → AllComponents ts → AllComponents (parent ts)
unfolding parent
all-parent [] all = no_components
all-parent (t ∷ []) all = no_components
all-parent (t ∷ u ∷ us) (components c all) = components c (all-parent (u ∷ us) all)

parent-le : (ts : List Text) → length (parent ts) ≤ length ts
unfolding parent
parent-le [] = omega arith
parent-le (t ∷ []) = omega arith
parent-le (t ∷ u ∷ us) = omega (arith, parent-le (u ∷ us))

-- A token with fewer than `n` characters behind it.
pub data IsToken (n : ℕ) : Option (Text × Text) → Type 0 where
  no_token : IsToken n none
  is_token :
      {t rest : Text} → t ≢ [] → lacks 47 t ≡ true → length rest < n → IsToken n (some (t, rest))

pub next-IsToken : (n : ℕ) (s : Text) → length s ≤ n → IsToken n (strtok 47 s)
next-IsToken n s h = read (strtok 47 s) (strtok-Taken 47 s)
  where
    read : (r : Option (Text × Text)) → Taken 47 s r → IsToken n r
    read r (nothing e) = rw e no_token
    read r (took t rest e ne l lt) = rw e (is_token ne l (omega arith))

-- How the loop goes on: it ends with the components that the names lead to, on any fuel above `n`, or
-- it never ends.
pub data Outcome (n : ℕ) (token : Option (Text × Text)) (before : List Text) : Type 0 where
  ends :
      (after : List Text)
      → AllComponents after
      → length after ≤ 32
      → Resolves before (names_at token) (some after)
      → ((fuel : ℕ) → n < fuel → walk fuel token before ≡ some after)
      → Outcome n token before
  endless :
      Resolves before (names_at token) none
      → ((fuel : ℕ) → walk fuel token before ≡ none)
      → Outcome n token before

-- At a dot the loop turns on the spot.
pub walk-dot :
    (fuel : ℕ) (t rest : Text) (before : List Text)
    → same t dot ≡ true
    → length before < 32
    → walk fuel (some (t, rest)) before ≡ none
unfolding walk next_token kept
walk-dot zero t rest before d l = refl
walk-dot (suc fuel) t rest before d l =
    let room : leb max_components (length before) ≡ false = ground arith in
    rw (room, d) (walk-dot fuel t rest before d l)

-- Any other token is done with in one turn.
walk_token :
    (fuel : ℕ) (t rest : Text) (before : List Text)
    → same t dot ≡ false
    → length before < 32
    → walk (suc fuel) (some (t, rest)) before ≡ walk fuel (strtok 47 rest) (kept t before)
unfolding walk next_token
walk_token fuel t rest before d l =
    let room : leb max_components (length before) ≡ false = ground arith in rw (room, d) refl

kept-components :
    (t : Text) (before : List Text)
    → t ≢ []
    → lacks 47 t ≡ true
    → same t dot ≡ false
    → AllComponents before
    → AllComponents (kept t before) × (length (kept t before) ≤ suc (length before))
unfolding kept
kept-components t before ne l d all = elim (Bool-cases (same t dot_dot)) [
  | inl up ↦ rw (d, up) (all-parent before all, omega (arith, parent-le before))
  | inr no_up ↦
      rw (d, no_up)
        (
          all-append before t all
              (record { nonempty = ne; clean = l; not_dot = d; not_dot_dot = no_up }),
          omega (arith, length-append before (t ∷ [])),
        )
]

-- One turn goes one name on.
kept-Resolves :
    (t rest : Text) (before : List Text) (r : Option (List Text))
    → same t dot ≡ false
    → Resolves (kept t before) (names_at (strtok 47 rest)) r
    → Resolves before (t ∷ names rest) r
unfolding kept
kept-Resolves t rest before r d k = elim (Bool-cases (same t dot_dot)) [
  | inl above ↦
      up_parent before (names rest) t r above (rw (names-strtok rest) (rw (d, above) at k))
  | inr below ↦ down d below (rw (names-strtok rest) (rw (d, below) at k))
]

pub walk-Outcome :
    (n : ℕ) (token : Option (Text × Text)) (before : List Text)
    → IsToken n token
    → AllComponents before
    → length before ≤ 32
    → Outcome n token before
unfolding walk
walk-Outcome n none before no_token all l = ends before all l arrives on_fuel
  where
    on_fuel : (fuel : ℕ) → n < fuel → walk fuel none before ≡ some before
    on_fuel zero h = absurd (omega arith)
    on_fuel (suc fuel) h = refl
walk-Outcome zero (some (t, rest)) before (is_token ne c lt) all l = absurd (omega arith)
walk-Outcome (suc n) (some (t, rest)) before (is_token ne c lt) all l =
    elim (Bool-cases (leb max_components (length before))) [
      | inl full ↦ ends before all l (deep (ground arith)) (stops full)
      | inr room ↦ elim (Bool-cases (same t dot)) [
        | inl d ↦
            endless (stuck d (ground arith)) (λ fuel. walk-dot fuel t rest before d (ground arith))
        | inr d ↦
            let (all', l') = kept-components t before ne c d all in
            onward d (ground arith) (
              walk-Outcome n (strtok 47 rest) (kept t before) (next-IsToken n rest (omega arith))
                all' (ground arith))
      ]
    ]
  where
    stops :
        leb max_components (length before) ≡ true
        → (fuel : ℕ) → suc n < fuel
        → walk fuel (some (t, rest)) before ≡ some before
    stops full zero h = absurd (omega arith)
    stops full (suc fuel) h = rw full refl

    onward :
        same t dot ≡ false
        → length before < 32
        → Outcome n (strtok 47 rest) (kept t before)
        → Outcome (suc n) (some (t, rest)) before
    onward d r (ends after all' l' k run) =
        ends after all' l' (kept-Resolves t rest before (some after) d k) on_fuel
      where
        on_fuel : (fuel : ℕ) → suc n < fuel → walk fuel (some (t, rest)) before ≡ some after
        on_fuel zero h = absurd (omega arith)
        on_fuel (suc fuel) h = walk_token fuel t rest before d r ∙ run fuel (omega arith)
    onward d r (endless k never) = endless (kept-Resolves t rest before none d k) on_fuel
      where
        on_fuel : (fuel : ℕ) → walk fuel (some (t, rest)) before ≡ none
        on_fuel zero = refl
        on_fuel (suc fuel) = walk_token fuel t rest before d r ∙ never fuel

-- What is behind the first token of a joined path.
behind : List Text → Text
behind [] = []
behind (t ∷ ts) = t ++ join ts

first_token :
    (t : Text) (ts : List Text)
    → IsComponent t
    → (strtok 47 (join (t ∷ ts)) ≡ some (t, behind ts))
      × (strtok 47 (behind ts) ≡ strtok 47 (join ts))
unfolding join behind
first_token t [] c = (strtok_delim 47 (t ++ []) ∙ strtok_last 47 t c.nonempty c.clean, refl)
first_token t (u ∷ us) c = (
  strtok_delim 47 (t ++ join (u ∷ us)) ∙ strtok_next 47 t (u ++ join us) c.nonempty c.clean,
  sym (strtok_delim 47 (u ++ join us)),
)

-- One turn of the loop for a component in front.
walk_component :
    (fuel : ℕ) (t : Text) (ts before : List Text)
    → IsComponent t
    → length before < 32
    → walk (suc fuel) (strtok 47 (join (t ∷ ts))) before
      ≡ walk fuel (strtok 47 (join ts)) (before ++ t ∷ [])
unfolding kept
walk_component fuel t ts before c l =
    let (here, there) = first_token t ts c in
    let keeps : kept t before ≡ before ++ t ∷ [] = rw (c.not_dot, c.not_dot_dot) refl in
    ap (λ token. walk (suc fuel) token before) here
    ∙ walk_token fuel t (behind ts) before c.not_dot l
    ∙ ap (λ token. walk fuel token (kept t before)) there
    ∙ ap (walk fuel (strtok 47 (join ts))) keeps

-- The loop takes a joined path apart into what it was joined from.
pub walk-join :
    (fuel : ℕ) (ts before : List Text)
    → AllComponents ts
    → length before + length ts ≤ 32
    → length ts < fuel
    → walk fuel (strtok 47 (join ts)) before ≡ some (before ++ ts)
unfolding walk join strtok skip
walk-join zero ts before all l h = absurd (omega arith)
walk-join (suc fuel) [] before all l h = ap some (sym (append_nil before))
walk-join (suc fuel) (t ∷ ts) before (components c all) l h =
    walk_component fuel t ts before c (omega arith)
    ∙ walk-join fuel ts (before ++ t ∷ []) all (omega (arith, length-append before (t ∷ [])))
        (omega arith)
    ∙ ap some (append_assoc before t ts)

dot_token : strtok 47 (47 ∷ dot) ≡ some (dot, [])
unfolding strtok skip token
dot_token = refl

dot-same : same dot dot ≡ true
unfolding same strcmp difference
dot-same = refl

-- A dot at the end of a joined path keeps the loop from ending.
pub walk_to_dot :
    (fuel : ℕ) (ts before : List Text)
    → AllComponents ts
    → length before + length ts < 32
    → walk fuel (strtok 47 (join (ts ++ dot ∷ []))) before ≡ none
unfolding walk join
walk_to_dot zero ts before all l = refl
walk_to_dot (suc fuel) [] before all l =
    ap (λ token. walk (suc fuel) token before) dot_token
    ∙ walk-dot (suc fuel) dot [] before dot-same (omega arith)
walk_to_dot (suc fuel) (t ∷ ts) before (components c all) l =
    walk_component fuel t (ts ++ dot ∷ []) before c (omega arith)
    ∙ walk_to_dot fuel ts (before ++ t ∷ []) all (omega (arith, length-append before (t ∷ [])))
