-- ===== src/Ramfs/Removal.antt =====
-- What `fs_remove` of src/kernel/ramfs.cpp makes of the tree.
use continuum_os.Common.{
  ℕ, zero, suc, ◌+◌, ◌≤◌, ◌≡◌, ◌≢◌, refl, sym, ap, ◌∙◌, List, [], ◌∷◌, Option, none, some, Bool,
  true, false, ◌||◌, arith, leb, ◌==◌, length, if◌then◌else◌, Bool-cases, inl, inr,
}
use continuum_os.Common.Int.{ℤ, pos, negsuc}
use continuum_os.Strings.{Text}
use continuum_os.Ramfs.{
  RamFs, FsNode, is_file, is_directory, index_of, remove_at, shift_left, fs_remove_child,
}
use continuum_os.Ramfs.Paths.{
  fs_find_by_path, is_open, fs_free_node, unlink, remove_found, fs_remove,
}
use continuum_os.Ramfs.Links.{
  occurs, kids, parent_of, IsLinked, Unlinked, put-IsLinked, put-kids, put-parent_of, put-type,
  occurs_le_length, fewer-IsLinked,
}

-- `index_of` on a list, from what it is on the tail.
abbrev index_from : Bool → Option ℕ → Option ℕ
index_from true none = some 0
index_from false none = none
index_from true (some i) = some 0
index_from false (some i) = some (suc i)

index_of_cons : (c b : ℕ) (bs : List ℕ) → index_of c (b ∷ bs) ≡ index_from (b == c) (index_of c bs)
unfolding index_of
index_of_cons c b bs = either (b == c) (index_of c bs)
  where
    either :
        (t : Bool) (r : Option ℕ)
        → elim r as (λ x. Option ℕ) [
          | none ↦ if t then some 0 else none
          | some i ↦ some (if t then 0 else suc i)
        ]
          ≡ index_from t r
    either true none = refl
    either false none = refl
    either true (some i) = refl
    either false (some i) = refl

-- The list without what stands at the place found has it once less.
occurs-remove_at :
    (c a : ℕ) (xs : List ℕ) (i : ℕ)
    → index_of c xs ≡ some i
    → occurs a xs ≡ occurs a (remove_at i xs) + (if c == a then 1 else 0)
unfolding occurs index_of remove_at
occurs-remove_at c a [] i h = absurd (ground arith)
occurs-remove_at c a (b ∷ bs) i h =
    on (b == c) refl (index_of c bs) (occurs-remove_at c a bs) i (sym (index_of_cons c b bs) ∙ h)
  where
    on :
        (t : Bool)
        → (b == c) ≡ t
        → (r : Option ℕ)
        → ((j : ℕ)
            → r ≡ some j
            → occurs a bs ≡ occurs a (remove_at j bs) + (if c == a then 1 else 0))
        → (i : ℕ) → index_from t r ≡ some i
        → occurs a (b ∷ bs) ≡ occurs a (remove_at i (b ∷ bs)) + (if c == a then 1 else 0)
    on true e none ih zero h = let here : b ≡ c = ground arith in rw here (omega arith)
    on true e none ih (suc i) h = absurd (ground arith)
    on true e (some j) ih zero h = let here : b ≡ c = ground arith in rw here (omega arith)
    on true e (some j) ih (suc i) h = absurd (ground arith)
    on false e none ih i h = absurd (ground arith)
    on false e (some j) ih zero h = absurd (ground arith)
    on false e (some j) ih (suc i) h =
        let there : some j ≡ some i = ground arith in omega (arith, ih i there)

occurs-index_of : (c : ℕ) (xs : List ℕ) → index_of c xs ≡ none → occurs c xs ≡ 0
unfolding occurs
occurs-index_of c [] h = refl
occurs-index_of c (b ∷ bs) h =
    on (b == c) refl (index_of c bs) (occurs-index_of c bs) (sym (index_of_cons c b bs) ∙ h)
  where
    on :
        (t : Bool)
        → (b == c) ≡ t
        → (r : Option ℕ) → (r ≡ none → occurs c bs ≡ 0)
        → index_from t r ≡ none
        → occurs c (b ∷ bs) ≡ 0
    on true e none ih h = absurd (ground arith)
    on true e (some j) ih h = absurd (ground arith)
    on false e none ih h = rw (e, ih refl) refl
    on false e (some j) ih h = absurd (ground arith)

length-remove_at : (i : ℕ) (xs : List ℕ) → length (remove_at i xs) ≤ length xs
unfolding remove_at
length-remove_at i [] = omega arith
length-remove_at zero (x ∷ xs) = omega arith
length-remove_at (suc i) (x ∷ xs) = omega (arith, length-remove_at i xs)

-- The children of a directory without the one at a place.
shift_left-kids :
    (p i : ℕ) (fs : RamFs) (a : ℕ)
    → kids a (shift_left p i fs) ≡ (if a == p then remove_at i (kids p fs) else kids a fs)
shift_left-kids p i fs a =
    put-kids p (record (fs.nodes p) { children = remove_at i (fs.nodes p).children }) fs a

-- A child taken from its directory is in no directory, and every other child stays.
shift_left-IsLinked :
    (p c i : ℕ) (fs : RamFs)
    → IsLinked fs
    → index_of c (kids p fs) ≡ some i
    → IsLinked (shift_left p i fs)
      × Unlinked c (shift_left p i fs)
      × ((q a : ℕ) → a ≢ c → occurs a (kids q (shift_left p i fs)) ≡ occurs a (kids q fs))
shift_left-IsLinked p c i fs l found =
    (fewer-IsLinked fs (shift_left p i fs) l fewer parents shorter types, gone, others)
  where
    lost :
        (a : ℕ)
        → occurs a (kids p fs) ≡ occurs a (remove_at i (kids p fs)) + (if c == a then 1 else 0)
    lost a = occurs-remove_at c a (kids p fs) i found

    fewer : (q d : ℕ) → occurs d (kids q (shift_left p i fs)) ≤ occurs d (kids q fs)
    fewer q d = rw (shift_left-kids p i fs q) (elim (Bool-cases (q == p)) [
      | inl e ↦ let here : q ≡ p = ground arith in rw (e, here) (omega (arith, lost d))
      | inr e ↦ rw e (omega arith)
    ])

    parents : (d : ℕ) → parent_of d (shift_left p i fs) ≡ parent_of d fs
    parents d =
        put-parent_of p (record (fs.nodes p) { children = remove_at i (fs.nodes p).children }) fs d
        ∙ elim (Bool-cases (d == p)) [
          | inl e ↦ let here : d ≡ p = ground arith in rw e (ap (λ x. parent_of x fs) (sym here))
          | inr e ↦ rw e refl
        ]

    shorter : (q : ℕ) → length (kids q (shift_left p i fs)) ≤ length (kids q fs)
    shorter q = rw (shift_left-kids p i fs q) (elim (Bool-cases (q == p)) [
      | inl e ↦ let here : q ≡ p = ground arith in rw (e, here) (length-remove_at i (kids p fs))
      | inr e ↦ rw e (omega arith)
    ])

    types : (q : ℕ) → ((shift_left p i fs).nodes q).type ≡ (fs.nodes q).type
    types q =
        put-type p (record (fs.nodes p) { children = remove_at i (fs.nodes p).children }) fs q refl

    gone : Unlinked c (shift_left p i fs)
    gone q = rw (shift_left-kids p i fs q) (elim (Bool-cases (q == p)) [
      | inl e ↦
          let self : (c == c) ≡ true = ground arith in
          rw e (ground (arith, lost c, l.once p c, self))
      | inr e ↦ rw e (elim (Bool-cases (leb 1 (occurs c (kids q fs)))) [
        | inl listed ↦
            let both : some q ≡ some p =
              sym (l.back q c (ground arith)) ∙ l.back p c (ground (arith, lost c)) in
            absurd (ground arith)
        | inr missing ↦ ground arith
      ])
    ])

    others : (q a : ℕ) → a ≢ c → occurs a (kids q (shift_left p i fs)) ≡ occurs a (kids q fs)
    others q a ne = rw (shift_left-kids p i fs q) (elim (Bool-cases (q == p)) [
      | inl e ↦
          let here : q ≡ p = ground arith in
          let away : (c == a) ≡ false = ground arith in rw (e, here) (ground (arith, lost a))
      | inr e ↦ rw e refl
    ])

-- What `fs_remove` comes to: there is no such path; it is a directory or an open file; or the node is
-- in no directory any more, and every other child is where it was.
pub data Removed (path : Text) (fs : RamFs) : ℤ → RamFs → Type 0 where
  absent : fs_find_by_path path fs ≡ none → Removed path fs (negsuc 0) fs
  refused :
      (c : ℕ)
      → fs_find_by_path path fs ≡ some c
      → (is_directory (fs.nodes c).type || is_open c fs.fd_table) ≡ true
      → Removed path fs (negsuc 0) fs
  removed :
      {fs' : RamFs} (c : ℕ)
      → fs_find_by_path path fs ≡ some c
      → is_directory (fs.nodes c).type ≡ false
      → is_open c fs.fd_table ≡ false
      → Unlinked c fs'
      → ((q a : ℕ) → q ≢ c → a ≢ c → occurs a (kids q fs') ≡ occurs a (kids q fs))
      → fs'.fd_table ≡ fs.fd_table
      → Removed path fs (pos 0) fs'

-- A node that nothing lists any more is freed.
freed :
    (c : ℕ) (fs : RamFs)
    → IsLinked fs
    → Unlinked c fs
    → IsLinked (fs_free_node c fs)
      × Unlinked c (fs_free_node c fs)
      × ((q a : ℕ) → q ≢ c → occurs a (kids q (fs_free_node c fs)) ≡ occurs a (kids q fs))
unfolding fs_free_node
freed c fs l u = (
  (put-IsLinked c bare fs refl u l).0,
  (put-IsLinked c bare fs refl u l).1,
  λ q a ne. let e : (q == c) ≡ false = ground arith in rw (put-kids c bare fs q, e) refl,
)
  where
    bare : FsNode
    bare = record (fs.nodes c) { data_block = none; children = [] }

-- What `unlink` leaves of a file.
abbrev Gone : ℕ → RamFs → RamFs → Type 0
Gone c fs fs' =
    IsLinked fs'
    × Unlinked c fs'
    × ((q a : ℕ) → q ≢ c → a ≢ c → occurs a (kids q fs') ≡ occurs a (kids q fs))
    × (fs'.fd_table ≡ fs.fd_table)

unlink-Gone :
    (fuel c : ℕ) (fs : RamFs)
    → IsLinked fs
    → is_directory (fs.nodes c).type ≡ false
    → (fs' : RamFs) × (unlink (suc fuel) c fs ≡ some (pos 0, fs')) × Gone c fs fs'
unfolding unlink fs_remove_child fs_free_node
unlink-Gone fuel c fs l file = above (parent_of c fs) refl
  where
    loose : Unlinked c fs → Gone c fs (fs_free_node c fs)
    loose u = let (l', u', keep) = freed c fs l u in (l', u', λ q a qc ac. keep q a qc, refl)

    answer : Option RamFs → Option (ℤ × RamFs)
    answer r = elim r [ none ↦ none | some fs' ↦ some (pos 0, fs_free_node c fs') ]

    Result : Option (ℤ × RamFs) → Type 0
    Result r = (fs' : RamFs) × (r ≡ some (pos 0, fs')) × Gone c fs fs'

    -- Nothing lists the node where its parent does not.
    only : (p : ℕ) → parent_of c fs ≡ some p → occurs c (kids p fs) ≡ 0 → Unlinked c fs
    only p up none_here q = elim (Bool-cases (leb 1 (occurs c (kids q fs)))) [
      | inr missing ↦ ground arith
      | inl listed ↦
          let both : some q ≡ some p = sym (l.back q c (ground arith)) ∙ up in
          let here : q ≡ p = ground arith in
          absurd (ground (arith, ap (λ x. occurs c (kids x fs)) here))
    ]

    taken : (p : ℕ) → parent_of c fs ≡ some p → Result (answer (fs_remove_child (suc fuel) p c fs))
    taken p up = elim (Bool-cases (is_file (fs.nodes p).type)) [
      | inl flat ↦ (
        fs_free_node c fs,
        rw flat refl,
        loose (only p up (omega (arith, occurs_le_length c (kids p fs), l.files p flat))),
      )
      | inr dir ↦ place dir (index_of c (kids p fs)) refl
    ]
      where
        place :
            is_file (fs.nodes p).type ≡ false
            → (r : Option ℕ) → index_of c (kids p fs) ≡ r
            → Result (answer (fs_remove_child (suc fuel) p c fs))
        place dir none e = (
          fs_free_node c fs,
          rw (dir, e) refl,
          loose (only p up (occurs-index_of c (kids p fs) e)),
        )
        place dir (some i) e =
            let (l', u', keep) = shift_left-IsLinked p c i fs l e in
            let (l'', u'', keep') = freed c (shift_left p i fs) l' u' in
            (
              fs_free_node c (shift_left p i fs),
              rw (dir, e, file) refl,
              (l'', u'', λ q a qc ac. keep' q a qc ∙ keep q a ac, refl),
            )

    above :
        (r : Option ℕ)
        → parent_of c fs ≡ r
        → Result (elim r as (λ x. Option (ℤ × RamFs)) [
          | none ↦ some (pos 0, fs_free_node c fs)
          | some p ↦ answer (fs_remove_child (suc fuel) p c fs)
        ])
    above none e = (fs_free_node c fs, refl, loose orphan)
      where
        orphan : Unlinked c fs
        orphan q = elim (Bool-cases (leb 1 (occurs c (kids q fs)))) [
          | inr missing ↦ ground arith
          | inl listed ↦
              let both : none ≡ some q = sym e ∙ l.back q c (ground arith) in absurd (ground arith)
        ]
    above (some p) e = taken p e

-- On a linked tree `fs_remove` ends, with one unit of fuel or more, in one of the outcomes of
-- `Removed`, and the tree stays linked.
pub fs_remove-Removed :
    (fuel : ℕ) (path : Text) (fs : RamFs)
    → IsLinked fs
    → (answer : ℤ) × (fs' : RamFs) × (fs_remove (suc fuel) path fs ≡ some (answer, fs'))
      × Removed path fs answer fs'
      × IsLinked fs'
unfolding fs_remove remove_found
fs_remove-Removed fuel path fs l = on (fs_find_by_path path fs) refl
  where
    on :
        (found : Option ℕ)
        → fs_find_by_path path fs ≡ found
        → (answer : ℤ) × (fs' : RamFs) × (elim found as (λ x. Option (ℤ × RamFs)) [
          | none ↦ some (negsuc 0, fs)
          | some c ↦ remove_found (suc fuel) c fs
        ]
            ≡ some (answer, fs'))
          × Removed path fs answer fs'
          × IsLinked fs'
    on none e = (negsuc 0, fs, refl, absent e, l)
    on (some c) e = elim (Bool-cases (is_directory (fs.nodes c).type || is_open c fs.fd_table)) [
      | inl stays ↦ (negsuc 0, fs, rw stays refl, refused c e stays, l)
      | inr goes ↦
          let file : is_directory (fs.nodes c).type ≡ false = ground arith in
          let closed : is_open c fs.fd_table ≡ false = ground arith in
          let (fs', done, g) = unlink-Gone fuel c fs l file in
          let (l', u', keep, fds) = g in
          (pos 0, fs', rw goes done, removed c e file closed u' keep fds, l')
    ]
