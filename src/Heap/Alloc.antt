-- ===== src/Heap/Alloc.antt =====
-- `kmalloc` on a heap whose blocks fill it.
use continuum_os.Common.{
  ℕ, ◌+◌, ◌-◌, ◌*◌, ◌/◌, ◌%◌, ◌^◌, ◌≤◌, ◌<◌, ◌≡◌, refl, ◌≢◌, ◌⊎◌, inl, inr, true, false, ◌&&◌,
  Option, none, some, List, [], ◌∷◌, arith, leb, ◌==◌, Bool-cases,
}
use continuum_os.Heap.Layout.{
  Tiles, IsHeap, heap_end, align16-floor, Tiles-le, block_at-within, blocks_apart,
}
use continuum_os.Heap.{
  Block, Heap, align16, header_size, heap_start, block_at, first_fit, carve, kmalloc,
}

-- A block of at least `n` bytes that was free is taken at `at`; the blocks in use stay as they are,
-- and no other comes into use.
pub record Takes (n at : ℕ) (bs bs' : List Block) : Type 0 where
  pub old : Block
  pub was : block_at at bs ≡ some old
  pub was_free : old.free ≡ true
  pub block : Block
  pub now : block_at at bs' ≡ some block
  pub in_use : block.free ≡ false
  pub enough : n ≤ block.size
  pub kept : (a : ℕ) (b : Block) → block_at a bs ≡ some b → b.free ≡ false → block_at a bs' ≡ some b
  pub only :
      (a : ℕ) (b : Block)
      → a ≢ at
      → block_at a bs' ≡ some b
      → b.free ≡ false
      → block_at a bs ≡ some b

carve-Tiles :
    (s e n : ℕ) (b : Block) (bs : List Block)
    → e ≤ 2 ^ 24
    → n ≤ b.size
    → Tiles s e (b ∷ bs)
    → Tiles s e (carve n b bs)
unfolding carve
carve-Tiles s e n b bs small fits t = ground (arith, Tiles-le (s + header_size + b.size) e bs t.1)

carve-Takes :
    (s e n : ℕ) (b : Block) (bs : List Block)
    → e ≤ 2 ^ 24
    → n ≤ b.size
    → b.free ≡ true
    → Tiles s e (b ∷ bs)
    → Takes n b.addr (b ∷ bs) (carve n b bs)
unfolding carve block_at
carve-Takes s e n b bs small fits fr t =
    elim (Bool-cases (leb ((n + header_size + 16) % 2 ^ 32) b.size)) [
      | inl split ↦ rw split (record {
        old = b;
        was = ground arith;
        was_free = fr;
        block = record b { size = n; free = false };
        now = ground arith;
        in_use = refl;
        enough = omega arith;
        kept = λ a c h f. ground (
          arith,
          block_at-within (s + header_size + b.size) e a bs c t.1,
          Tiles-le (s + header_size + b.size) e bs t.1,
        );
        only = λ a c ne h f. ground (
          arith,
          block_at-within (s + header_size + b.size) e a bs c t.1,
          Tiles-le (s + header_size + b.size) e bs t.1,
        );
      })
      | inr whole ↦ rw whole (record {
        old = b;
        was = ground arith;
        was_free = fr;
        block = record b { free = false };
        now = ground arith;
        in_use = refl;
        enough = fits;
        kept = λ a c h f. ground arith;
        only = λ a c ne h f. ground arith;
      })
    ]

-- The same behind one more block.
Takes-cons :
    (s e n at : ℕ) (c : Block) (bs bs' : List Block)
    → Tiles s e (c ∷ bs)
    → Takes n at bs bs'
    → Takes n at (c ∷ bs) (c ∷ bs')
unfolding block_at
Takes-cons s e n at c bs bs' t k = record {
  old = k.old;
  was = ground (arith, k.was, block_at-within (s + header_size + c.size) e at bs k.old t.1);
  was_free = k.was_free;
  block = k.block;
  now = ground (arith, k.was, k.now, block_at-within (s + header_size + c.size) e at bs k.old t.1);
  in_use = k.in_use;
  enough = k.enough;
  kept = λ a b h f. ground (arith, k.kept a b);
  only = λ a b ne h f. ground (arith, k.only a b ne);
}

-- What the search for a block ends with.
data Fit (s e n : ℕ) (bs : List Block) (r : Option (ℕ × List Block)) : Type 0 where
  fits :
      (at : ℕ) (bs' : List Block)
      → r ≡ some (at + header_size, bs')
      → Takes n at bs bs'
      → Tiles s e bs'
      → Fit s e n bs r
  fails :
      r ≡ none
      → ((a : ℕ) (b : Block) → block_at a bs ≡ some b → b.free ≡ true → b.size < n)
      → Fit s e n bs r

first_fit-Fit :
    (s e n : ℕ) (bs : List Block) → e ≤ 2 ^ 24 → Tiles s e bs → Fit s e n bs (first_fit n bs)
unfolding first_fit block_at
first_fit-Fit s e n [] small t = fails refl (λ a b h. cc)
first_fit-Fit s e n (b ∷ bs) small t = elim (Bool-cases (b.free && leb n b.size)) [
  | inl hit ↦ rw hit (
      fits b.addr (carve n b bs) refl (carve-Takes s e n b bs small (ground arith) (ground arith) t)
        (carve-Tiles s e n b bs small (ground arith) t))
  | inr miss ↦
      rw miss
        (later (first_fit n bs) (first_fit-Fit (s + header_size + b.size) e n bs small t.1) miss)
]
  where
    later :
        (r : Option (ℕ × List Block))
        → Fit (s + header_size + b.size) e n bs r
        → (b.free && leb n b.size) ≡ false
        → Fit s e n (b ∷ bs) (elim r [ none ↦ none | some (p, bs') ↦ some (p, b ∷ bs') ])
    later r (fits at bs' q k t') miss =
        rw q (fits at (b ∷ bs') refl (Takes-cons s e n at b bs bs' t k) (t.0, t'))
    later r (fails q all) miss = rw q (fails refl (λ a c h f. ground (arith, all a c)))

-- The size that a request is rounded up to.
abbrev pub rounded : ℕ → ℕ
rounded size = (size + 15) / 16 * 16

-- What a call `kmalloc size` does to the heap `h`.
pub data Allocation (size : ℕ) (h : Heap) (r : Option ℕ × Heap) : Type 0 where
  allocated :
      (at : ℕ)
      → r.0 ≡ some (at + header_size)
      → (k : Takes (rounded size) at h.free_list r.1.free_list) → IsHeap r.1
      → ((a : ℕ) (b : Block)
          → block_at a h.free_list ≡ some b
          → b.free ≡ false
          → (a + header_size + b.size ≤ at) ⊎ (at + header_size + k.block.size ≤ a))
      → r.1.bytes ≡ h.bytes
      → Allocation size h r
  refused :
      r ≡ (none, h)
      → ((a : ℕ) (b : Block)
          → block_at a h.free_list ≡ some b
          → b.free ≡ true
          → b.size < rounded size)
      → Allocation size h r

clear_of :
    (n at : ℕ) (bs bs' : List Block) (k : Takes n at bs bs')
    → Tiles heap_start heap_end bs'
    → (a : ℕ) (b : Block) → block_at a bs ≡ some b
    → b.free ≡ false
    → (a + header_size + b.size ≤ at) ⊎ (at + header_size + k.block.size ≤ a)
clear_of n at bs bs' k t a b h f = elim (lt_or_gt a at (λ e. same e)) [
  | inl lt ↦ inl (blocks_apart heap_start heap_end a at bs' b k.block t (k.kept a b h f) k.now lt)
  | inr gt ↦ inr (blocks_apart heap_start heap_end at a bs' k.block b t k.now (k.kept a b h f) gt)
]
  where
    same : a ≡ at → ⊥
    same e = ground (arith, k.was, k.was_free)

    lt_or_gt : (x y : ℕ) → (x ≡ y → ⊥) → (x < y) ⊎ (y < x)
    lt_or_gt x y ne = ground arith

kmalloc-fit :
    (size n : ℕ) (h : Heap)
    → 0 < size
    → align16 size ≡ n
    → kmalloc size h ≡ elim (first_fit n h.free_list) [
      | none ↦ (none, h)
      | some (p, bs) ↦ (some p, record h { free_list = bs })
    ]
unfolding kmalloc
kmalloc-fit size n h lt e = rw (nonzero size lt, e) refl
  where
    nonzero : (x : ℕ) → 0 < x → (x == 0) ≡ false
    nonzero x l = ground arith

-- For a request of 1 up to 2 ^ 32 - 16 bytes `kmalloc` takes a free block of at least that size,
-- rounded up to 16, clear of every block in use: those stay as they are, no other comes into use, the
-- blocks still fill the heap, and no byte changes. It answers NULL, changing nothing, only where
-- every free block is too small.
pub kmalloc-Allocation :
    (size : ℕ) (h : Heap)
    → IsHeap h
    → 0 < size
    → size ≤ 2 ^ 32 - 16
    → Allocation size h (kmalloc size h)
kmalloc-Allocation size h t pos small =
    rw (kmalloc-fit size (rounded size) h pos (omega (arith, align16-floor size))) (
      outcome (first_fit (rounded size) h.free_list)
        (first_fit-Fit heap_start heap_end (rounded size) h.free_list (omega arith) t))
  where
    outcome :
        (r : Option (ℕ × List Block))
        → Fit heap_start heap_end (rounded size) h.free_list r
        → Allocation size h
            (elim r [ none ↦ (none, h) | some (p, bs) ↦ (some p, record h { free_list = bs }) ])
    outcome r (fits at bs q k t') =
        rw q (allocated at refl k t' (clear_of (rounded size) at h.free_list bs k t') refl)
    outcome r (fails q all) = rw q (refused refl all)

-- A request of more than 2 ^ 32 - 16 bytes wraps to a request of none: it is granted wherever any
-- block is free, though none has that many bytes.
pub kmalloc_wraps :
    (size : ℕ) (h : Heap) (a : ℕ) (b : Block)
    → IsHeap h
    → 2 ^ 32 - 16 < size
    → size < 2 ^ 32
    → block_at a h.free_list ≡ some b
    → b.free ≡ true
    → ((p : ℕ) × ((kmalloc size h).0 ≡ some p)) × (b.size < size)
kmalloc_wraps size h a b t lo hi found fr = (
  rw (kmalloc-fit size 0 h (omega arith) (omega (arith, align16-floor size))) (
      outcome (first_fit 0 h.free_list)
        (first_fit-Fit heap_start heap_end 0 h.free_list (omega arith) t)),
  omega (arith, block_at-within heap_start heap_end a h.free_list b t found),
)
  where
    outcome :
        (r : Option (ℕ × List Block))
        → Fit heap_start heap_end 0 h.free_list r
        → (p : ℕ) × ((let c : Option ℕ × Heap = elim r [
          | none ↦ (none, h)
          | some (p, bs) ↦ (some p, record h { free_list = bs })
        ] in
              c.0)
            ≡ some p)
    outcome r (fits at bs q k t') = rw q (at + header_size, refl)
    outcome r (fails q all) = absurd (omega (arith, all a b found fr))
