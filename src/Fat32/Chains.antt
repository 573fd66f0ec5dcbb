-- ===== src/Fat32/Chains.antt =====
-- The chains of clusters in the table of src/kernel/fat32.cpp.
use Prim.Native.Nat.{◌*◌, ◌/◌}
use mathlib.Core.Path.{subst}
use continuum_os.Common.{
  ℕ, zero, suc, ◌+◌, ◌^◌, ◌<◌, ◌≡◌, ◌≢◌, refl, sym, ap, ◌∙◌, true, false, some, List, [], ◌∷◌, ◌++◌,
  arith, leb, ◌==◌, if◌then◌else◌, length, Bool-cases, inl, inr,
}
use continuum_os.Ramfs.Links.{occurs, occurs-append}
use continuum_os.Fat32.{
  fat32_end_cluster, fat32_free_cluster, set_entry, low_28, is_link, last_from, link, free_chain,
}

-- Clusters that are each linked to the next, none twice, up to one that is linked to none.
pub data Chain (t : ℕ → ℕ) : List ℕ → Type 0 where
  last : {c : ℕ} → is_link c ≡ true → is_link (low_28 (t c)) ≡ false → Chain t (c ∷ [])
  then_on :
      {c d : ℕ} {cs : List ℕ}
      → is_link c ≡ true
      → low_28 (t c) ≡ d
      → occurs c (d ∷ cs) ≡ 0
      → Chain t (d ∷ cs)
      → Chain t (c ∷ d ∷ cs)

-- The last of a list that has a first.
unfoldable pub last_of : ℕ → List ℕ → ℕ
last_of c [] = c
last_of c (d ∷ cs) = last_of d cs

head_is_link : (t : ℕ → ℕ) (c : ℕ) (cs : List ℕ) → Chain t (c ∷ cs) → is_link c ≡ true
head_is_link t c [] (last i e) = i
head_is_link t c (d ∷ cs) (then_on i n o ch) = i

-- `fat32_get_last_cluster` finds the last cluster of a chain, on as much fuel as it has clusters.
pub last_from-last_of :
    (fuel c : ℕ) (cs : List ℕ) (t : ℕ → ℕ)
    → Chain t (c ∷ cs)
    → length cs < fuel
    → last_from fuel c t ≡ some (last_of c cs)
unfolding last_from last_of
last_from-last_of zero c cs t ch h = absurd (omega arith)
last_from-last_of (suc fuel) c [] t (last i e) h = rw e refl
last_from-last_of (suc fuel) c (d ∷ cs) t (then_on i n o ch) h =
    let on : is_link (low_28 (t c)) ≡ true = ap is_link n ∙ head_is_link t d cs ch in
    rw on (ap (λ x. last_from fuel x t) n ∙ last_from-last_of fuel d cs t ch (omega arith))

set_entry_other : (c x i : ℕ) (t : ℕ → ℕ) → (i == c) ≡ false → set_entry c x t i ≡ t i
set_entry_other c x i t e = rw e refl

-- A write to an entry outside of a chain.
set_entry-Chain :
    (t : ℕ → ℕ) (a x : ℕ) (cs : List ℕ) → occurs a cs ≡ 0 → Chain t cs → Chain (set_entry a x t) cs
unfolding occurs
set_entry-Chain t a x [] o ch = elim ch [ ]
set_entry-Chain t a x (c ∷ []) o (last i e) =
    let other : (c == a) ≡ false = ground arith in
    last i (ap (λ y. is_link (low_28 y)) (set_entry_other a x c t other) ∙ e)
set_entry-Chain t a x (c ∷ d ∷ cs) o (then_on i n away ch) =
    let other : (c == a) ≡ false = ground arith in
    let rest : occurs a (d ∷ cs) ≡ 0 = ground arith in
    then_on i (ap low_28 (set_entry_other a x c t other) ∙ n) away
      (set_entry-Chain t a x (d ∷ cs) rest ch)

freed_twice : (n y : ℕ) → (if leb 1 n then 0 else 0) ≡ (if leb 1 (1 + n) then 0 else y)
freed_twice n y = ground arith

-- `fat32_free_cluster_chain` frees the clusters of a chain and no other, on one unit of fuel more than
-- it has clusters.
pub free_chain-Chain :
    (fuel c : ℕ) (cs : List ℕ) (t : ℕ → ℕ)
    → Chain t (c ∷ cs)
    → length (c ∷ cs) < fuel
    → (t' : ℕ → ℕ) × (free_chain fuel c t ≡ some t')
      × ((i : ℕ) → t' i ≡ (if leb 1 (occurs i (c ∷ cs)) then fat32_free_cluster else t i))
unfolding free_chain occurs
free_chain-Chain zero c cs t ch h = absurd (omega arith)
free_chain-Chain (suc zero) c cs t ch h = absurd (omega arith)
free_chain-Chain (suc (suc fuel)) c [] t (last i e) h =
    (set_entry c fat32_free_cluster t, rw (i, e) refl, freed)
  where
    freed : (j : ℕ) → set_entry c 0 t j ≡ (if leb 1 ((if c == j then 1 else 0) + 0) then 0 else t j)
    freed j = elim (Bool-cases (c == j)) [
      | inl s ↦ let s' : (j == c) ≡ true = ground arith in rw (s, s') refl
      | inr s ↦ let s' : (j == c) ≡ false = ground arith in rw (s, s') refl
    ]
free_chain-Chain (suc (suc fuel)) c (d ∷ cs) t (then_on i n o ch) h =
    let (t', done, freed) =
      free_chain-Chain (suc fuel) d cs (set_entry c fat32_free_cluster t)
        (set_entry-Chain t c fat32_free_cluster (d ∷ cs) o ch) (omega arith) in
    (
      t',
      rw i (ap (λ x. free_chain (suc fuel) x (set_entry c fat32_free_cluster t)) n ∙ done),
      λ j. freed j ∙ both j,
    )
  where
    both :
        (j : ℕ)
        → (if leb 1 (occurs j (d ∷ cs)) then 0 else set_entry c 0 t j)
          ≡ (if leb 1 ((if c == j then 1 else 0) + occurs j (d ∷ cs)) then 0 else t j)
    both j = elim (Bool-cases (c == j)) [
      | inl s ↦
          let s' : (j == c) ≡ true = ground arith in
          rw (s, s') (freed_twice (occurs j (d ∷ cs)) (t j))
      | inr s ↦
          let s' : (j == c) ≡ false = ground arith in
          rw (s, s') (ap (λ m. if leb 1 m then 0 else t j) (omega arith))
    ]

set_entry_self : (c x : ℕ) (t : ℕ → ℕ) → set_entry c x t c ≡ x
set_entry_self c x t = let e : (c == c) ≡ true = ground arith in rw e refl

different : (c x : ℕ) (t : ℕ → ℕ) → low_28 (t c) ≢ 0 → low_28 (t x) ≡ 0 → (c == x) ≡ false
different c x t full free = elim (Bool-cases (c == x)) [
  | inr e ↦ e
  | inl e ↦ let same : c ≡ x = ground arith in absurd (full (ap (λ y. low_28 (t y)) same ∙ free))
]

occurs-last_of : (c : ℕ) (cs : List ℕ) → 0 < occurs (last_of c cs) (c ∷ cs)
unfolding occurs last_of
occurs-last_of c [] = let e : (c == c) ≡ true = ground arith in rw e (omega arith)
occurs-last_of c (d ∷ cs) = omega (arith, occurs-last_of d cs)

low_of_word : (high x : ℕ) → is_link x ≡ true → low_28 (high * 2 ^ 28 + x) ≡ x
low_of_word high x h = let small : x < 2 ^ 28 = ground arith in omega arith

link_other : (p x i : ℕ) (t : ℕ → ℕ) → (i == p) ≡ false → link p x t i ≡ t i
unfolding link
link_other p x i t e = elim (Bool-cases (is_link p)) [
  | inl l ↦ rw l (set_entry_other p (t p / 2 ^ 28 * 2 ^ 28 + x) i t e)
  | inr l ↦ rw l refl
]

-- A free cluster linked behind the last of a chain, whose entry is not free, makes the chain longer.
pub link-Chain :
    (c : ℕ) (cs : List ℕ) (x : ℕ) (t : ℕ → ℕ)
    → Chain t (c ∷ cs)
    → low_28 (t (last_of c cs)) ≢ 0
    → is_link x ≡ true
    → low_28 (t x) ≡ 0
    → Chain (link (last_of c cs) x (set_entry x fat32_end_cluster t)) (c ∷ cs ++ x ∷ [])
unfolding last_of link occurs
link-Chain c [] x t (last i e) full new free =
    let apart : (c == x) ≡ false = different c x t full free in
    let apart' : (x == c) ≡ false = ground arith in
    let tx = set_entry x fat32_end_cluster t in
    let word = tx c / 2 ^ 28 * 2 ^ 28 + x in
    let whole : link c x tx ≡ set_entry c word tx = rw i refl in
    let linked : low_28 (set_entry c word tx c) ≡ x =
      ap low_28 (set_entry_self c word tx) ∙ low_of_word (tx c / 2 ^ 28) x new in
    let end : is_link (low_28 (set_entry c word tx x)) ≡ false =
      ap (λ y. is_link (low_28 y))
        (set_entry_other c word x tx apart' ∙ set_entry_self x fat32_end_cluster t) in
    subst (λ s. Chain s (c ∷ x ∷ [])) (sym whole) (then_on i linked (rw apart' refl) (last new end))
link-Chain c (d ∷ cs) x t (then_on i n o ch) full new free =
    let nonfree : low_28 (t c) ≢ 0 = λ z. ends (head_is_link t d cs ch) (sym n ∙ z) in
    let apart : (c == x) ≡ false = different c x t nonfree free in
    let apart' : (x == c) ≡ false = ground arith in
    let inner : (c == last_of d cs) ≡ false = elsewhere in
    let kept : link (last_of d cs) x (set_entry x fat32_end_cluster t) c ≡ t c =
      link_other (last_of d cs) x c (set_entry x fat32_end_cluster t) inner
      ∙ set_entry_other x fat32_end_cluster c t apart in
    then_on i (ap low_28 kept ∙ n) (occurs-append c x (d ∷ cs) ∙ rw (apart', o) refl)
      (link-Chain d cs x t ch full new free)
  where
    ends : is_link d ≡ true → d ≡ 0 → ⊥
    ends h z = ground arith

    elsewhere : (c == last_of d cs) ≡ false
    elsewhere = elim (Bool-cases (c == last_of d cs)) [
      | inr e ↦ e
      | inl e ↦
          let same : last_of d cs ≡ c = ground arith in
          absurd (omega (arith, occurs-last_of d cs, ap (λ a. occurs a (d ∷ cs)) same))
    ]
