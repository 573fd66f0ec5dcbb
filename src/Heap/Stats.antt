-- ===== src/Heap/Stats.antt =====
-- `get_heap_stats`: what its numbers say of the heap.
use continuum_os.Common.{
  ℕ, ◌+◌, ◌*◌, ◌≤◌, ◌≡◌, refl, ap, if◌then◌else◌, inl, inr, true, some, List, [], ◌∷◌, arith, ◌==◌,
  Bool-cases,
}
use Prim.Native.Nat.{max}
use continuum_os.Heap.Layout.{Tiles, IsHeap, heap_end, Tiles-le}
use continuum_os.Heap.{
  Block, Heap, HeapStats, header_size, heap_start, heap_size, block_at, no_stats, count_block,
  count_blocks, with_overhead, stats_of, get_heap_stats,
}

-- What has been counted up to the address `at`.
record Counts (at : ℕ) (s : HeapStats) : Type 0 where
  sizes :
      heap_start + s.used_size + s.free_size + (s.allocated_blocks + s.free_blocks) * header_size
      ≡ at
  total : s.total_size ≡ heap_size
  no_overhead : s.overhead ≡ 0

count_block-Counts :
    (at : ℕ) (b : Block) (s : HeapStats)
    → at + header_size + b.size ≤ heap_end
    → Counts at s
    → Counts (at + header_size + b.size) (count_block b s)
unfolding count_block
count_block-Counts at b s fits c = ground arith

count_blocks-Counts :
    (at : ℕ) (bs : List Block) (s : HeapStats)
    → Tiles at heap_end bs
    → Counts at s
    → Counts heap_end (count_blocks bs s)
unfolding count_blocks
count_blocks-Counts at [] s t c = rw t at c
count_blocks-Counts at (b ∷ bs) s t c =
    count_blocks-Counts (at + header_size + b.size) bs (count_block b s) t.1
      (count_block-Counts at b s (Tiles-le (at + header_size + b.size) heap_end bs t.1) c)

largest : (b : Block) (s : HeapStats) → s.largest_free_block ≤ (count_block b s).largest_free_block
unfolding count_block
largest b s = ground arith

largest_all :
    (bs : List Block) (s : HeapStats)
    → s.largest_free_block ≤ (count_blocks bs s).largest_free_block
unfolding count_blocks
largest_all [] s = omega arith
largest_all (b ∷ bs) s = omega (arith, largest b s, largest_all bs (count_block b s))

counted_free :
    (b : Block) (s : HeapStats) → b.free ≡ true → b.size ≤ (count_block b s).largest_free_block
unfolding count_block
counted_free b s f = ground arith

bounds_free :
    (bs : List Block) (s : HeapStats) (a : ℕ) (b : Block)
    → block_at a bs ≡ some b
    → b.free ≡ true
    → b.size ≤ (count_blocks bs s).largest_free_block
unfolding count_blocks block_at
bounds_free [] s a b h f = cc
bounds_free (c ∷ bs) s a b h f = elim (Bool-cases (c.addr == a)) [
  | inl hit ↦ ground (arith, counted_free c s, largest_all bs (count_block c s))
  | inr miss ↦ bounds_free bs (count_block c s) a b (ground arith) f
]

-- The bytes of the blocks in use.
pub used_bytes : List Block → ℕ
used_bytes [] = 0
used_bytes (b ∷ bs) = if b.free then used_bytes bs else b.size + used_bytes bs

-- The bytes of the free blocks.
pub free_bytes : List Block → ℕ
free_bytes [] = 0
free_bytes (b ∷ bs) = if b.free then b.size + free_bytes bs else free_bytes bs

-- How many blocks are in use.
pub used_count : List Block → ℕ
used_count [] = 0
used_count (b ∷ bs) = if b.free then used_count bs else 1 + used_count bs

-- How many blocks are free.
pub free_count : List Block → ℕ
free_count [] = 0
free_count (b ∷ bs) = if b.free then 1 + free_count bs else free_count bs

-- The size of the largest free block, 0 where none is free.
pub largest_of : List Block → ℕ
largest_of [] = 0
largest_of (b ∷ bs) = if b.free then max b.size (largest_of bs) else largest_of bs

-- What a loop over `bs` adds to the statistics `s`.
record Sums (bs : List Block) (s r : HeapStats) : Type 0 where
  used_sum : r.used_size ≡ s.used_size + used_bytes bs
  free_sum : r.free_size ≡ s.free_size + free_bytes bs
  used_many : r.allocated_blocks ≡ s.allocated_blocks + used_count bs
  free_many : r.free_blocks ≡ s.free_blocks + free_count bs
  most : r.largest_free_block ≡ max s.largest_free_block (largest_of bs)

count_blocks-Sums :
    (at : ℕ) (bs : List Block) (s : HeapStats)
    → Tiles at heap_end bs
    → Counts at s
    → Sums bs s (count_blocks bs s)
unfolding count_block count_blocks used_bytes free_bytes used_count free_count largest_of
count_blocks-Sums at [] s t c = record {
  used_sum = omega arith;
  free_sum = omega arith;
  used_many = omega arith;
  free_many = omega arith;
  most = omega arith;
}
count_blocks-Sums at (b ∷ bs) s t c =
    let fits = Tiles-le (at + header_size + b.size) heap_end bs t.1 in
    let rest =
      count_blocks-Sums (at + header_size + b.size) bs (count_block b s) t.1
        (count_block-Counts at b s fits c) in
    record {
      used_sum = ground (arith, rest.used_sum, fits, c.sizes);
      free_sum = ground (arith, rest.free_sum, fits, c.sizes);
      used_many = ground (arith, rest.used_many, fits, c.sizes);
      free_many = ground (arith, rest.free_many, fits, c.sizes);
      most = ground (arith, rest.most, fits, c.sizes);
    }

-- The statistics of a heap: those of its blocks, which add up to the whole heap with their headers.
-- No free block is larger than the largest.
pub record Accounts (h : Heap) (s : HeapStats) : Type 0 where
  pub used_sum : s.used_size ≡ used_bytes h.free_list
  pub free_sum : s.free_size ≡ free_bytes h.free_list
  pub used_many : s.allocated_blocks ≡ used_count h.free_list
  pub free_many : s.free_blocks ≡ free_count h.free_list
  pub most : s.largest_free_block ≡ largest_of h.free_list
  pub adds_up : s.used_size + s.free_size + s.overhead ≡ s.total_size
  pub whole : s.total_size ≡ heap_size
  pub headers : s.overhead ≡ (s.allocated_blocks + s.free_blocks) * header_size
  pub bounds :
      (a : ℕ) (b : Block)
      → block_at a h.free_list ≡ some b
      → b.free ≡ true
      → b.size ≤ s.largest_free_block

stats_of-Accounts :
    (h : Heap) (bs : List Block)
    → h.free_list ≡ bs
    → Tiles heap_start heap_end bs
    → (s : HeapStats) × (stats_of bs ≡ some s) × Accounts h s
unfolding stats_of
stats_of-Accounts h [] e t = absurd (omega arith)
stats_of-Accounts h (b ∷ bs) e t =
    let s = count_blocks (b ∷ bs) no_stats in
    let c = count_blocks-Counts heap_start (b ∷ bs) no_stats t start in
    let sums = count_blocks-Sums heap_start (b ∷ bs) no_stats t start in
    (
      with_overhead s,
      refl,
      record {
        used_sum = omega (arith, sums.used_sum, ap used_bytes e);
        free_sum = omega (arith, sums.free_sum, ap free_bytes e);
        used_many = omega (arith, sums.used_many, ap used_count e);
        free_many = omega (arith, sums.free_many, ap free_count e);
        most = omega (arith, sums.most, ap largest_of e);
        adds_up = omega (arith, c.sizes, c.total);
        whole = c.total;
        headers = omega (arith, c.sizes);
        bounds = λ a x h f. bounds_free (b ∷ bs) no_stats a x (rw (← e) h) f;
      },
    )
  where
    start : Counts heap_start no_stats
    start = record { sizes = refl; total = refl; no_overhead = refl }

-- On a heap whose blocks fill it `get_heap_stats` gives the bytes and the number of the blocks in use,
-- the bytes and the number of the free blocks, and the size of the largest free block, 0 where none is
-- free. The overhead is 12 bytes a block, and with it the bytes add up to the heap's size.
pub get_heap_stats-Accounts :
    (h : Heap) → IsHeap h → (s : HeapStats) × (get_heap_stats h ≡ some s) × Accounts h s
unfolding get_heap_stats
get_heap_stats-Accounts h t = stats_of-Accounts h h.free_list refl t
