-- ===== src/Ramfs/Links.antt =====
-- Which node is whose child in src/kernel/ramfs.cpp.
use mathlib.Core.Path.{subst}
use continuum_os.Common.{
  ℕ, ◌+◌, ◌≤◌, ◌<◌, ◌≡◌, refl, sym, ap, ◌∙◌, List, [], ◌∷◌, ◌++◌, Option, some, Bool, true, false,
  arith, ◌==◌, length, length-append, if◌then◌else◌, Bool-cases, inl, inr,
}
use continuum_os.Ramfs.{RamFs, FsNode, is_file, put}

-- How often an address stands in a list.
unfoldable pub occurs : ℕ → List ℕ → ℕ
occurs a [] = 0
occurs a (b ∷ bs) = (if b == a then 1 else 0) + occurs a bs

abbrev pub kids : ℕ → RamFs → List ℕ
kids a fs = (fs.nodes a).children

abbrev pub parent_of : ℕ → RamFs → Option ℕ
parent_of a fs = (fs.nodes a).parent

-- Every directory lists a child once, the child points back to it, the array holds
-- them all, and a file has none.
pub record IsLinked (fs : RamFs) : Type 0 where
  pub once : (p c : ℕ) → occurs c (kids p fs) ≤ 1
  pub back : (p c : ℕ) → 0 < occurs c (kids p fs) → parent_of c fs ≡ some p
  pub room : (p : ℕ) → length (kids p fs) ≤ 32
  pub files : (p : ℕ) → is_file (fs.nodes p).type ≡ true → length (kids p fs) ≡ 0

-- An address that nothing of the tree uses.
abbrev pub Unlinked : ℕ → RamFs → Type 0
Unlinked c fs = (p : ℕ) → occurs c (kids p fs) ≡ 0

pub if_ap :
    {A B : Type 0} (f : A → B) (b : Bool) (x y : A)
    → f (if b then x else y) ≡ (if b then f x else f y)
if_ap f true x y = refl
if_ap f false x y = refl

pub put-kids :
    (at : ℕ) (n : FsNode) (fs : RamFs) (a : ℕ)
    → kids a (put at n fs) ≡ (if a == at then n.children else kids a fs)
put-kids at n fs a = if_ap FsNode.children (a == at) n (fs.nodes a)

pub put-parent_of :
    (at : ℕ) (n : FsNode) (fs : RamFs) (a : ℕ)
    → parent_of a (put at n fs) ≡ (if a == at then n.parent else parent_of a fs)
put-parent_of at n fs a = if_ap FsNode.parent (a == at) n (fs.nodes a)

-- A write that keeps the type.
pub put-type :
    (at : ℕ) (n : FsNode) (fs : RamFs) (a : ℕ)
    → n.type ≡ (fs.nodes at).type
    → ((put at n fs).nodes a).type ≡ (fs.nodes a).type
put-type at n fs a h = if_ap FsNode.type (a == at) n (fs.nodes a) ∙ elim (Bool-cases (a == at)) [
  | inl e ↦ let here : a ≡ at = ground arith in rw e (h ∙ ap (λ x. (fs.nodes x).type) (sym here))
  | inr e ↦ rw e refl
]

pub occurs-append :
    (a b : ℕ) (bs : List ℕ) → occurs a (bs ++ b ∷ []) ≡ occurs a bs + (if b == a then 1 else 0)
unfolding occurs
occurs-append a b [] = omega arith
occurs-append a b (c ∷ bs) = omega (arith, occurs-append a b bs)

-- A node behind the children of a directory, pointing back.
abbrev pub attach : ℕ → ℕ → RamFs → RamFs
attach p c fs =
    let fs' = put p (record (fs.nodes p) { children = (fs.nodes p).children ++ c ∷ [] }) fs in
    put c (record (fs'.nodes c) { parent = some p }) fs'

pub attach-kids :
    (p c : ℕ) (fs : RamFs) (a : ℕ)
    → kids a (attach p c fs) ≡ (if a == p then kids p fs ++ c ∷ [] else kids a fs)
attach-kids p c fs a =
    let n = record (fs.nodes p) { children = (fs.nodes p).children ++ c ∷ [] } in
    let fs' = put p n fs in
    let outer = put-kids c (record (fs'.nodes c) { parent = some p }) fs' a in
    let inner = put-kids p n fs in
    elim (Bool-cases (a == c)) [
      | inl e ↦
          let here : a ≡ c = ground arith in
          outer
          ∙ ap (λ b. if b then kids c fs' else kids a fs') e
          ∙ ap (λ x. kids x fs') (sym here)
          ∙ inner a
      | inr e ↦ outer ∙ ap (λ b. if b then kids c fs' else kids a fs') e ∙ inner a
    ]

pub attach-type :
    (p c : ℕ) (fs : RamFs) (a : ℕ) → ((attach p c fs).nodes a).type ≡ (fs.nodes a).type
attach-type p c fs a =
    let n = record (fs.nodes p) { children = (fs.nodes p).children ++ c ∷ [] } in
    let fs' = put p n fs in
    put-type c (record (fs'.nodes c) { parent = some p }) fs' a refl ∙ put-type p n fs a refl

pub attach-parent_of :
    (p c : ℕ) (fs : RamFs) (a : ℕ)
    → parent_of a (attach p c fs) ≡ (if a == c then some p else parent_of a fs)
attach-parent_of p c fs a =
    let n = record (fs.nodes p) { children = (fs.nodes p).children ++ c ∷ [] } in
    let fs' = put p n fs in
    put-parent_of c (record (fs'.nodes c) { parent = some p }) fs' a
    ∙ ap (λ o. if a == c then some p else o) (unchanged n)
  where
    unchanged :
        (n : FsNode)
        → parent_of a (put p (record (fs.nodes p) { children = n.children }) fs) ≡ parent_of a fs
    unchanged n =
        put-parent_of p (record (fs.nodes p) { children = n.children }) fs a
        ∙ elim (Bool-cases (a == p)) [
          | inl e ↦ let here : a ≡ p = ground arith in rw e (ap (λ x. parent_of x fs) (sym here))
          | inr e ↦ rw e refl
        ]

-- A node that nothing links to may be added to a directory with room.
pub attach-IsLinked :
    (p c : ℕ) (fs : RamFs)
    → IsLinked fs
    → Unlinked c fs
    → length (kids p fs) < 32
    → is_file (fs.nodes p).type ≡ false
    → IsLinked (attach p c fs)
attach-IsLinked p c fs l u r dir = record { once = once; back = back; room = room; files = files }
  where
    once : (q d : ℕ) → occurs d (kids q (attach p c fs)) ≤ 1
    once q d = rw (attach-kids p c fs q) (elim (Bool-cases (q == p)) [
      | inl e ↦
          rw (e, occurs-append d c (kids p fs))
            (elim (Bool-cases (c == d)) [
              | inl s ↦
                  let here : c ≡ d = ground arith in
                  rw s (omega (arith, ap (λ x. occurs x (kids p fs)) here, u p))
              | inr s ↦ rw s (omega (arith, l.once p d))
            ])
      | inr e ↦ rw e (l.once q d)
    ])

    back : (q d : ℕ) → 0 < occurs d (kids q (attach p c fs)) → parent_of d (attach p c fs) ≡ some q
    back q d h =
        let h' : 0 < occurs d (if q == p then kids p fs ++ c ∷ [] else kids q fs) =
          subst (λ x. 0 < occurs d x) (attach-kids p c fs q) h in
        attach-parent_of p c fs d ∙ elim (Bool-cases (q == p)) [
          | inl e ↦
              let here : q ≡ p = ground arith in
              let more : 0 < occurs d (kids p fs ++ c ∷ []) =
                subst (λ b. 0 < occurs d (if b then kids p fs ++ c ∷ [] else kids q fs)) e h' in
              in_parent d (subst (λ x. 0 < x) (occurs-append d c (kids p fs)) more)
              ∙ ap some (sym here)
          | inr e ↦
              let kept : 0 < occurs d (kids q fs) =
                subst (λ b. 0 < occurs d (if b then kids p fs ++ c ∷ [] else kids q fs)) e h' in
              in_other q d kept
        ]
      where
        in_other :
            (q d : ℕ)
            → 0 < occurs d (kids q fs)
            → (if d == c then some p else parent_of d fs) ≡ some q
        in_other q d kept = elim (Bool-cases (d == c)) [
          | inl e ↦
              let here : d ≡ c = ground arith in
              absurd (omega (arith, ap (λ x. occurs x (kids q fs)) here, u q))
          | inr e ↦ rw e (l.back q d kept)
        ]

        in_parent :
            (d : ℕ)
            → 0 < occurs d (kids p fs) + (if c == d then 1 else 0)
            → (if d == c then some p else parent_of d fs) ≡ some p
        in_parent d h = elim (Bool-cases (d == c)) [
          | inl e ↦ rw e refl
          | inr e ↦
              let away : (c == d) ≡ false = ground arith in
              let kept : 0 < occurs d (kids p fs) = ground (arith, away) in rw e (l.back p d kept)
        ]

    room : (q : ℕ) → length (kids q (attach p c fs)) ≤ 32
    room q = rw (attach-kids p c fs q) (elim (Bool-cases (q == p)) [
      | inl e ↦ rw e (omega (arith, length-append (kids p fs) (c ∷ [])))
      | inr e ↦ rw e (l.room q)
    ])

    files :
        (q : ℕ)
        → is_file ((attach p c fs).nodes q).type ≡ true
        → length (kids q (attach p c fs)) ≡ 0
    files q h =
        let h' : is_file (fs.nodes q).type ≡ true = ap is_file (sym (attach-type p c fs q)) ∙ h in
        rw (attach-kids p c fs q) (elim (Bool-cases (q == p)) [
          | inl e ↦
              let here : q ≡ p = ground arith in
              let both = sym dir ∙ ap (λ x. is_file (fs.nodes x).type) (sym here) ∙ h' in
              absurd (cc)
          | inr e ↦ rw e (l.files q h')
        ])

-- A node without children at such an address changes nothing of the tree.
pub put-IsLinked :
    (c : ℕ) (n : FsNode) (fs : RamFs)
    → n.children ≡ []
    → Unlinked c fs
    → IsLinked fs
    → IsLinked (put c n fs) × Unlinked c (put c n fs)
unfolding occurs
put-IsLinked c n fs bare u l =
    (record { once = once; back = back; room = room; files = files }, unlinked)
  where
    emptied : (q : ℕ) → kids q (put c n fs) ≡ (if q == c then [] else kids q fs)
    emptied q = put-kids c n fs q ∙ ap (λ xs. if q == c then xs else kids q fs) bare

    fewer : (q d : ℕ) → occurs d (kids q (put c n fs)) ≤ occurs d (kids q fs)
    fewer q d =
        rw (emptied q)
          (elim (Bool-cases (q == c)) [ inl e ↦ rw e (omega arith) | inr e ↦ rw e (omega arith) ])

    once : (q d : ℕ) → occurs d (kids q (put c n fs)) ≤ 1
    once q d = omega (arith, fewer q d, l.once q d)

    back : (q d : ℕ) → 0 < occurs d (kids q (put c n fs)) → parent_of d (put c n fs) ≡ some q
    back q d h =
        let kept : 0 < occurs d (kids q fs) = omega (arith, fewer q d) in
        put-parent_of c n fs d ∙ elim (Bool-cases (d == c)) [
          | inl e ↦
              let here : d ≡ c = ground arith in
              absurd (omega (arith, ap (λ x. occurs x (kids q fs)) here, u q))
          | inr e ↦ rw e (l.back q d kept)
        ]

    room : (q : ℕ) → length (kids q (put c n fs)) ≤ 32
    room q =
        rw (emptied q)
          (elim (Bool-cases (q == c)) [ inl e ↦ rw e (omega arith) | inr e ↦ rw e (l.room q) ])

    files : (q : ℕ) → is_file ((put c n fs).nodes q).type ≡ true → length (kids q (put c n fs)) ≡ 0
    files q h = rw (emptied q) (elim (Bool-cases (q == c)) [
      | inl e ↦ rw e (omega arith)
      | inr e ↦ rw e (l.files q (ap (λ b. is_file (if b then n else fs.nodes q).type) (sym e) ∙ h))
    ])

    unlinked : Unlinked c (put c n fs)
    unlinked q = omega (arith, fewer q c, u q)

pub occurs_le_length : (a : ℕ) (xs : List ℕ) → occurs a xs ≤ length xs
unfolding occurs
occurs_le_length a [] = omega arith
occurs_le_length a (b ∷ xs) = elim (Bool-cases (b == a)) [
  | inl e ↦ rw e (omega (arith, occurs_le_length a xs))
  | inr e ↦ rw e (omega (arith, occurs_le_length a xs))
]

-- Children may go.
pub fewer-IsLinked :
    (fs fs' : RamFs)
    → IsLinked fs
    → ((q d : ℕ) → occurs d (kids q fs') ≤ occurs d (kids q fs))
    → ((d : ℕ) → parent_of d fs' ≡ parent_of d fs)
    → ((q : ℕ) → length (kids q fs') ≤ length (kids q fs))
    → ((q : ℕ) → (fs'.nodes q).type ≡ (fs.nodes q).type)
    → IsLinked fs'
fewer-IsLinked fs fs' l fewer parents shorter types = record {
  once = λ q d. omega (arith, fewer q d, l.once q d);
  back = λ q d h. parents d ∙ l.back q d (omega (arith, fewer q d));
  room = λ q. omega (arith, shorter q, l.room q);
  files = λ q h. omega (arith, shorter q, l.files q (ap is_file (sym (types q)) ∙ h));
}
