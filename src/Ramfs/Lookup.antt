-- ===== src/Ramfs/Lookup.antt =====
-- What `fs_find_by_path` finds for a path in the normal form of the virtual file system.
use continuum_os.Common.{
  ℕ, zero, suc, ◌+◌, ◌≤◌, ◌≡◌, ◌≢◌, refl, sym, ap, ◌∙◌, List, [], ◌∷◌, ◌++◌, Option, none, some,
  true, false, arith, ltb, ◌==◌, length, length-append, if◌then◌else◌,
}
use continuum_os.Strings.{Text, same, strcmp, difference}
use continuum_os.Strings.Compare.{nul_free, difference_apart}
use continuum_os.Strings.Tokens.{lacks}
use continuum_os.Vfs.Paths.{slash, join, rebuild}
use continuum_os.Vfs.Walk.{IsComponent, AllComponents, components}
use continuum_os.Ramfs.{RamFs, fs_find_child}
use continuum_os.Ramfs.Paths.{enter_component, finish, walk_turn, walk_path, fs_find_by_path}

-- From directory to directory by name.
unfoldable pub descend : List Text → ℕ → RamFs → Option ℕ
descend [] current fs = some current
descend (t ∷ ts) current fs = elim (fs_find_child current t fs) [
  | none ↦ none
  | some next ↦ descend ts next fs
]

-- C strings that fit the buffer of the walk.
pub data AllNames : List Text → Type 0 where
  no_names : AllNames []
  short :
      {t : Text} {ts : List Text}
      → length t ≤ 63
      → nul_free t ≡ true
      → AllNames ts
      → AllNames (t ∷ ts)

-- The walk behind one walk_turn, and the descent behind one component.
abbrev on_from : Text → RamFs → Option (Text × ℕ) → Option ℕ
on_from path fs none = none
on_from path fs (some (temp, current)) = walk_path path temp current fs

abbrev then_descend : List Text → RamFs → Option ℕ → Option ℕ
then_descend ts fs none = none
then_descend ts fs (some next) = descend ts next fs

collect :
    (t rest temp : Text) (current : ℕ) (fs : RamFs)
    → lacks 47 t ≡ true
    → length temp + length t ≤ 63
    → walk_path (t ++ rest) temp current fs ≡ walk_path rest (temp ++ t) current fs
unfolding walk_path walk_turn lacks
collect [] rest temp current fs l h = ap (λ s. walk_path rest s current fs) (sym (append_nil temp))
  where
    append_nil : (s : Text) → s ++ [] ≡ s
    append_nil [] = refl
    append_nil (x ∷ s) = ap (λ l. x ∷ l) (append_nil s)
collect (c ∷ cs) rest temp current fs l h =
    let other : (c == 47) ≡ false = ground arith in
    let clean : lacks 47 cs ≡ true = ground arith in
    let room : ltb (length temp) 63 ≡ true = ground arith in
    let turned : walk_turn c temp current fs ≡ some (temp ++ c ∷ [], current) =
      rw (other, room) refl in
    ap (on_from (cs ++ rest) fs) turned
    ∙ collect cs rest (temp ++ c ∷ []) current fs clean (omega (arith, length-append temp (c ∷ [])))
    ∙ ap (λ s. walk_path rest s current fs) (assoc temp)
  where
    assoc : (s : Text) → (s ++ c ∷ []) ++ cs ≡ s ++ c ∷ cs
    assoc [] = refl
    assoc (x ∷ s) = ap (λ l. x ∷ l) (assoc s)

finish-component :
    (t : Text) (current : ℕ) (fs : RamFs)
    → IsComponent t
    → finish t current fs ≡ fs_find_child current t fs
unfolding finish enter_component
finish-component [] current fs c = absurd (c.nonempty refl)
finish-component (x ∷ t) current fs c = rw (c.not_dot, c.not_dot_dot) refl

-- The end of one component, and the walk on.
walk-join :
    (temp : Text) (ts : List Text) (current : ℕ) (fs : RamFs)
    → AllComponents ts
    → AllNames ts
    → walk_path (join ts) temp current fs ≡ then_descend ts fs (finish temp current fs)
unfolding walk_path join walk_turn descend
walk-join temp [] current fs all s = ends (finish temp current fs)
  where
    ends : (r : Option ℕ) → r ≡ then_descend [] fs r
    ends none = refl
    ends (some next) = refl
walk-join temp (t ∷ ts) current fs (components c all) (short h z s) =
    onward (finish temp current fs) (λ next. walk-join t ts next fs all s)
  where
    opened : Option ℕ → Option (Text × ℕ)
    opened r = elim r [ none ↦ none | some next ↦ some ([], next) ]

    onward :
        (r : Option ℕ)
        → ((next : ℕ) → walk_path (join ts) t next fs ≡ then_descend ts fs (finish t next fs))
        → on_from (t ++ join ts) fs (opened r) ≡ then_descend (t ∷ ts) fs r
    onward none ih = refl
    onward (some next) ih =
        collect t (join ts) [] next fs c.clean (omega arith)
        ∙ ih next
        ∙ ap (then_descend ts fs) (finish-component t next fs c)
        ∙ same_end (fs_find_child next t fs)
      where
        same_end :
            (r : Option ℕ)
            → then_descend ts fs r
              ≡ elim r as (λ x. Option ℕ) [ none ↦ none | some n ↦ descend ts n fs ]
        same_end none = refl
        same_end (some n) = refl

not_root : (t rest : Text) → t ≢ [] → nul_free t ≡ true → same (47 ∷ t ++ rest) slash ≡ false
unfolding same strcmp difference nul_free
not_root [] rest ne z = absurd (ne refl)
not_root (zero ∷ t) rest ne z = absurd (ground arith)
not_root (suc x ∷ t) rest ne z =
    let n : (suc x == 0) ≡ false = ground arith in difference_apart (suc x) 0 n

-- A path in normal form whose names fit 63 characters leads from the root by its names, one directory
-- after the other.
pub fs_find_by_path-rebuild :
    (ts : List Text) (fs : RamFs)
    → AllComponents ts
    → AllNames ts
    → fs_find_by_path (rebuild ts) fs ≡ descend ts fs.root fs
unfolding rebuild fs_find_by_path join same strcmp difference descend
fs_find_by_path-rebuild [] fs all s = refl
fs_find_by_path-rebuild (t ∷ ts) fs (components c all) (short h z s) =
    let other : same (47 ∷ t ++ join ts) slash ≡ false = not_root t (join ts) c.nonempty z in
    ap (λ b. if b then some fs.root else walk_path (t ++ join ts) [] fs.root fs) other
    ∙ collect t (join ts) [] fs.root fs c.clean (omega arith)
    ∙ walk-join t ts fs.root fs all s
    ∙ ap (then_descend ts fs) (finish-component t fs.root fs c)
    ∙ same_end (fs_find_child fs.root t fs)
  where
    same_end :
        (r : Option ℕ)
        → then_descend ts fs r
          ≡ elim r as (λ x. Option ℕ) [ none ↦ none | some n ↦ descend ts n fs ]
    same_end none = refl
    same_end (some n) = refl
