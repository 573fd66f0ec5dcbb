-- ===== src/Ramfs/Create.antt =====
-- What `fs_touch` and `fs_mkdir` of src/kernel/ramfs.cpp make of the tree.
use mathlib.Core.Path.{subst}
use continuum_os.Common.{
  ℕ, ◌≤◌, ◌<◌, ◌≡◌, ◌≢◌, refl, sym, ap, ◌∙◌, [], ◌∷◌, ◌++◌, Option, none, some, true, false, arith,
  leb, ◌==◌, length, if◌then◌else◌, Bool-cases, inl, inr, take,
}
use continuum_os.Strings.{Text}
use continuum_os.Ramfs.{
  RamFs, FsNode, NodeType, fs_file, fs_directory, is_file, put, fs_create_node, fs_add_child,
}
use continuum_os.Ramfs.Paths.{
  split_path, fs_find_by_path, with_block, touch_in, fs_touch, make_in, fs_mkdir,
}
use continuum_os.Ramfs.Links.{
  kids, parent_of, IsLinked, Unlinked, attach, attach-kids, attach-parent_of, attach-IsLinked,
  put-IsLinked,
}

-- What a request for a new node under `name` comes to: there is no such directory or no memory; the
-- directory is full and is left as it is, though the answer is the new node; or it lists the node.
pub data Made (path : Text) (kind : NodeType) (c : ℕ) (fs : RamFs) : Option ℕ → RamFs → Type 0 where
  nowhere : fs_find_by_path (split_path path).0 fs ≡ none → Made path kind c fs none fs
  in_file :
      (p : ℕ)
      → fs_find_by_path (split_path path).0 fs ≡ some p
      → is_file (fs.nodes p).type ≡ true
      → Made path kind c fs none fs
  full :
      {fs' : RamFs} (p : ℕ)
      → fs_find_by_path (split_path path).0 fs ≡ some p
      → 32 ≤ length (kids p fs)
      → Unlinked c fs'
      → ((a : ℕ) → a ≢ c → fs'.nodes a ≡ fs.nodes a)
      → Made path kind c fs (some c) fs'
  linked :
      {fs' : RamFs} (p : ℕ)
      → fs_find_by_path (split_path path).0 fs ≡ some p
      → kids p fs' ≡ kids p fs ++ c ∷ []
      → parent_of c fs' ≡ some p
      → (fs'.nodes c).name ≡ take 63 (split_path path).1
      → (fs'.nodes c).type ≡ kind
      → (fs'.nodes c).size ≡ 0
      → ((a : ℕ) → a ≢ c → a ≢ p → fs'.nodes a ≡ fs.nodes a)
      → Made path kind c fs (some c) fs'

-- The new node is written, and nothing else yet.
record Fresh (name : Text) (kind : NodeType) (c : ℕ) (fs made : RamFs) : Type 0 where
  called : (made.nodes c).name ≡ take 63 name
  type : (made.nodes c).type ≡ kind
  size : (made.nodes c).size ≡ 0
  others : (a : ℕ) → a ≢ c → made.nodes a ≡ fs.nodes a
  links : IsLinked made
  alone : Unlinked c made

-- Such a node is given to a directory.
add_child-Made :
    (path : Text) (kind : NodeType) (p c : ℕ) (fs made : RamFs)
    → fs_find_by_path (split_path path).0 fs ≡ some p
    → c ≢ p
    → is_file (fs.nodes p).type ≡ false
    → Fresh (split_path path).1 kind c fs made
    → (fs' : RamFs) × (fs_add_child p (some c) made ≡ some fs')
      × Made path kind c fs (some c) fs'
      × IsLinked fs'
unfolding fs_add_child
add_child-Made path kind p c fs made found ne dir f =
    let same_p : made.nodes p ≡ fs.nodes p = f.others p (λ e. ne (sym e)) in
    let dir' : is_file (made.nodes p).type ≡ false = ap (λ n. is_file n.type) same_p ∙ dir in
    let kids_p : kids p made ≡ kids p fs = ap FsNode.children same_p in
    elim (Bool-cases (leb 32 (length (kids p made)))) [
      | inl fills ↦ (
        made,
        rw (dir', fills) refl,
        full p found (subst (λ l. 32 ≤ length l) kids_p (ground arith)) f.alone f.others,
        f.links,
      )
      | inr fits ↦ (
        attach p c made,
        rw (dir', fits) refl,
        linked p found
            (attach-kids p c made p
              ∙ self p (kids p made ++ c ∷ []) (kids p made)
              ∙ ap (λ l. l ++ c ∷ []) kids_p)
            (attach-parent_of p c made c ∙ self c (some p) (parent_of c made))
            (field FsNode.name (λ n a. refl) ∙ f.called) (field FsNode.type (λ n a. refl) ∙ f.type)
            (field FsNode.size (λ n a. refl) ∙ f.size)
            (λ a ac ap_. untouched a ac ap_ ∙ f.others a ac),
        attach-IsLinked p c made f.links f.alone (ground arith) dir',
      )
    ]
  where
    self : {A : Type 0} (a : ℕ) (x y : A) → (if a == a then x else y) ≡ x
    self a x y = let e : (a == a) ≡ true = ground arith in rw e refl

    away : {A : Type 0} (a b : ℕ) (x y : A) → a ≢ b → (if a == b then x else y) ≡ y
    away a b x y n = let e : (a == b) ≡ false = ground arith in rw e refl

    -- What linking leaves of the new node.
    field :
        {A : Type 0} (get : FsNode → A)
        → ((n : FsNode) (a : Option ℕ) → get (record n { parent = a }) ≡ get n)
        → get ((attach p c made).nodes c) ≡ get (made.nodes c)
    field get keeps =
        let n = record (made.nodes p) { children = (made.nodes p).children ++ c ∷ [] } in
        ap get
          (self c (record ((put p n made).nodes c) { parent = some p }) ((put p n made).nodes c))
        ∙ keeps ((put p n made).nodes c) (some p)
        ∙ ap get (away c p n (made.nodes c) ne)

    untouched : (a : ℕ) → a ≢ c → a ≢ p → (attach p c made).nodes a ≡ made.nodes a
    untouched a ac ap_ =
        let n = record (made.nodes p) { children = (made.nodes p).children ++ c ∷ [] } in
        away a c (record ((put p n made).nodes c) { parent = some p }) ((put p n made).nodes a) ac
        ∙ away a p n (made.nodes a) ap_

put-Fresh :
    (name : Text) (kind : NodeType) (c : ℕ) (n : FsNode) (fs made : RamFs)
    → n.name ≡ take 63 name
    → n.type ≡ kind
    → n.size ≡ 0
    → n.children ≡ []
    → ((a : ℕ) → a ≢ c → made.nodes a ≡ fs.nodes a)
    → IsLinked made
    → Unlinked c made
    → Fresh name kind c fs (put c n made)
put-Fresh name kind c n fs made named is empty bare others l u = record {
  called = ap FsNode.name self ∙ named;
  type = ap FsNode.type self ∙ is;
  size = ap FsNode.size self ∙ empty;
  others = λ a ne.
      let e : (a == c) ≡ false = ground arith in
      ap (λ b. if b then n else made.nodes a) e ∙ others a ne;
  links = (put-IsLinked c n made bare u l).0;
  alone = (put-IsLinked c n made bare u l).1;
}
  where
    self : (put c n made).nodes c ≡ n
    self = let e : (c == c) ≡ true = ground arith in ap (λ b. if b then n else made.nodes c) e

-- `fs_touch`, given memory for the node that nothing else uses, ends in one of the outcomes of `Made`,
-- and the tree stays linked.
pub fs_touch-Made :
    (path : Text) (c : ℕ) (block : Option (ℕ → ℕ)) (fs : RamFs)
    → IsLinked fs
    → Unlinked c fs
    → ((p : ℕ) → fs_find_by_path (split_path path).0 fs ≡ some p → c ≢ p)
    → (answer : Option ℕ) × (fs' : RamFs) × (fs_touch path (some c) block fs ≡ some (answer, fs'))
      × Made path fs_file c fs answer fs'
      × IsLinked fs'
unfolding fs_touch touch_in with_block fs_create_node
fs_touch-Made path c block fs l u new = on (fs_find_by_path (split_path path).0 fs) refl
  where
    name : Text
    name = (split_path path).1

    node : FsNode
    node = record {
      name = take 63 name;
      type = fs_file;
      size = 0;
      data_block = none;
      parent = none;
      children = [];
    }

    made : RamFs
    made = with_block (some c) block (put c node fs)

    is_node : (put c node fs).nodes c ≡ node
    is_node = let e : (c == c) ≡ true = ground arith in ap (λ b. if b then node else fs.nodes c) e

    fresh : Fresh name fs_file c fs made
    fresh =
        put-Fresh name fs_file c
          (record ((put c node fs).nodes c) {
            data_block = elim block [
              | none ↦ none
              | some f ↦ some (record { capacity = 1024; bytes = f })
            ];
          })
          fs (put c node fs) (ap FsNode.name is_node) (ap FsNode.type is_node)
          (ap FsNode.size is_node) (ap FsNode.children is_node)
          (λ a ne.
            let e : (a == c) ≡ false = ground arith in ap (λ b. if b then node else fs.nodes a) e)
          (put-IsLinked c node fs refl u l).0 (put-IsLinked c node fs refl u l).1

    on :
        (found : Option ℕ)
        → fs_find_by_path (split_path path).0 fs ≡ found
        → (answer : Option ℕ) × (fs' : RamFs) × (elim found as (λ x. Option (Option ℕ × RamFs)) [
          | none ↦ some (none, fs)
          | some p ↦ touch_in p name (some c) block fs
        ]
            ≡ some (answer, fs'))
          × Made path fs_file c fs answer fs'
          × IsLinked fs'
    on none e = (none, fs, refl, nowhere e, l)
    on (some p) e = elim (Bool-cases (is_file (fs.nodes p).type)) [
      | inl file ↦ (none, fs, rw file refl, in_file p e file, l)
      | inr dir ↦
          let (fs', done, m, l') = add_child-Made path fs_file p c fs made e (new p e) dir fresh in
          (
            some c,
            fs',
            rw dir (
                ap
                  (λ r. elim r as (λ x. Option (Option ℕ × RamFs)) [
                    | none ↦ none
                    | some x ↦ some (some c, x)
                  ])
                  done),
            m,
            l',
          )
    ]

-- `fs_mkdir` likewise, when it has memory for the node.
pub fs_mkdir-Made :
    (path : Text) (c : ℕ) (fs : RamFs)
    → IsLinked fs
    → Unlinked c fs
    → ((p : ℕ) → fs_find_by_path (split_path path).0 fs ≡ some p → c ≢ p)
    → (answer : Option ℕ) × (fs' : RamFs) × (fs_mkdir path (some c) fs ≡ some (answer, fs'))
      × Made path fs_directory c fs answer fs'
      × IsLinked fs'
unfolding fs_mkdir make_in fs_create_node
fs_mkdir-Made path c fs l u new = on (fs_find_by_path (split_path path).0 fs) refl
  where
    name : Text
    name = (split_path path).1

    node : FsNode
    node = record {
      name = take 63 name;
      type = fs_directory;
      size = 0;
      data_block = none;
      parent = none;
      children = [];
    }

    fresh : Fresh name fs_directory c fs (put c node fs)
    fresh = put-Fresh name fs_directory c node fs fs refl refl refl refl (λ a ne. refl) l u

    on :
        (found : Option ℕ)
        → fs_find_by_path (split_path path).0 fs ≡ found
        → (answer : Option ℕ) × (fs' : RamFs) × (elim found as (λ x. Option (Option ℕ × RamFs)) [
          | none ↦ some (none, fs)
          | some p ↦ make_in p name (some c) fs
        ]
            ≡ some (answer, fs'))
          × Made path fs_directory c fs answer fs'
          × IsLinked fs'
    on none e = (none, fs, refl, nowhere e, l)
    on (some p) e = elim (Bool-cases (is_file (fs.nodes p).type)) [
      | inl file ↦ (none, fs, rw file refl, in_file p e file, l)
      | inr dir ↦
          let (fs', done, m, l') =
            add_child-Made path fs_directory p c fs (put c node fs) e (new p e) dir fresh in
          (
            some c,
            fs',
            rw dir (
                ap
                  (λ r. elim r as (λ x. Option (Option ℕ × RamFs)) [
                    | none ↦ none
                    | some x ↦ some (some c, x)
                  ])
                  done),
            m,
            l',
          )
    ]

-- Without memory for the node, `fs_mkdir` in a directory with room writes through a null pointer.
pub fs_mkdir_without_memory :
    (path : Text) (p : ℕ) (fs : RamFs)
    → fs_find_by_path (split_path path).0 fs ≡ some p
    → is_file (fs.nodes p).type ≡ false
    → length (kids p fs) < 32
    → fs_mkdir path none fs ≡ none
unfolding fs_mkdir make_in fs_create_node fs_add_child
fs_mkdir_without_memory path p fs found dir room =
    let fits : leb 32 (length (kids p fs)) ≡ false = ground arith in
    ap
      (λ r. elim r as (λ x. Option (Option ℕ × RamFs)) [
        | none ↦ some (none, fs)
        | some q ↦ make_in q (split_path path).1 none fs
      ])
      found
    ∙ rw (dir, fits) refl
