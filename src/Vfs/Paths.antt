-- ===== src/Vfs/Paths.antt =====
-- `vfs_normalize_path` and `vfs_resolve_dots` of src/kernel/vfs.cpp, on a working directory.
use continuum_os.Common.{
  ℕ, zero, suc, Bool, false, ◌&&◌, Option, none, some, List, [], ◌∷◌, ◌++◌, leb, ◌==◌,
  if◌then◌else◌, length, take,
}
use continuum_os.Strings.{Text, same, strrchr, strtok}

abbrev pub slash : Text
slash = 47 ∷ []

abbrev pub dot : Text
dot = 46 ∷ []

abbrev pub dot_dot : Text
dot_dot = 46 ∷ 46 ∷ []

abbrev pub max_components : ℕ
max_components = 32

-- The string that `strtok` splits.
unfoldable pub working_path : Text → Text → Text
working_path cwd [] = (if same cwd slash then cwd else cwd ++ slash) ++ []
working_path cwd (c ∷ path) =
    if c == 47 then c ∷ path else (if same cwd slash then cwd else cwd ++ slash) ++ c ∷ path

-- `component_count--`, where it is above 0.
unfoldable pub parent : List Text → List Text
parent [] = []
parent (t ∷ []) = []
parent (t ∷ u ∷ us) = t ∷ parent (u ∷ us)

-- What one turn of the loop does to the components, and the token of the next turn.
unfoldable pub kept : Text → List Text → List Text
kept t components =
    if same t dot
    then components
    else (if same t dot_dot then parent components else components ++ t ∷ [])

unfoldable pub next_token : Text → Text → Option (Text × Text)
next_token t rest = if same t dot then some (t, rest) else strtok 47 rest

-- `while (token && component_count < 32)`.
unfoldable pub walk : ℕ → Option (Text × Text) → List Text → Option (List Text)
walk zero token components = none
walk (suc fuel) none components = some components
walk (suc fuel) (some (t, rest)) components =
    let later = walk fuel (next_token t rest) (kept t components) in
    if leb max_components (length components) then some components else later

-- The components, each behind a slash.
unfoldable pub join : List Text → Text
join [] = []
join (t ∷ ts) = 47 ∷ t ++ join ts

unfoldable pub rebuild : List Text → Text
rebuild [] = slash
rebuild (t ∷ ts) = join (t ∷ ts)

-- One turn for each token, and one more.
unfoldable pub fuel_for : Text → Text → ℕ
fuel_for cwd path = suc (suc (length (working_path cwd path)))

unfoldable pub vfs_resolve_dots : ℕ → Text → Text → Option Text
vfs_resolve_dots fuel cwd path = elim (walk fuel (strtok 47 (working_path cwd path)) []) [
  | none ↦ none
  | some components ↦ some (rebuild components)
]

-- `*src` to `*dst` with no slash behind a slash.
unfoldable pub squeeze : Text → Bool → Text
squeeze [] last_was_slash = []
squeeze (c ∷ cs) last_was_slash =
    let rest = squeeze cs (c == 47) in if c == 47 && last_was_slash then rest else c ∷ rest

-- A slash at the end goes, except where it is all.
unfoldable pub trim : Text → Text
trim [] = []
trim (c ∷ []) = c ∷ []
trim (c ∷ d ∷ []) = if d == 47 then c ∷ [] else c ∷ d ∷ []
trim (c ∷ d ∷ e ∷ cs) = c ∷ trim (d ∷ e ∷ cs)

unfoldable pub or_root : Text → Text
or_root [] = slash
or_root (c ∷ cs) = c ∷ cs

-- The parent of the working directory.
unfoldable pub above : Text → Text
above cwd =
    if same cwd slash
    then slash
    else elim (strrchr cwd 47) [ none ↦ slash | some before ↦ or_root before ]

unfoldable pub vfs_normalize_path : ℕ → Text → Text → Option Text
vfs_normalize_path fuel cwd path =
    if same path dot
    then some cwd
    else (if same path dot_dot then some (above cwd) else elim (vfs_resolve_dots fuel cwd path) [
      | none ↦ none
      | some temp_path ↦ some (or_root (trim (take 255 (squeeze temp_path false))))
    ])
