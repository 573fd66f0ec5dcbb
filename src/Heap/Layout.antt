-- ===== src/Heap/Layout.antt =====
-- When the blocks of the heap lie one behind the other and fill it.
use continuum_os.Common.{
  ℕ, ◌+◌, ◌*◌, ◌/◌, ◌%◌, ◌^◌, ◌≤◌, ◌<◌, ◌≡◌, refl, inl, inr, none, some, List, [], ◌∷◌, arith, ◌==◌,
  Bool-cases,
}
use continuum_os.Common.Bits.{and_not15}
use continuum_os.Heap.{
  Block, Heap, align16, header_size, heap_start, heap_size, init_heap, block_at,
}

pub align16-floor : (size : ℕ) → align16 size ≡ (size + 15) % 2 ^ 32 / 16 * 16
unfolding align16
align16-floor size = and_not15 ((size + 15) % 2 ^ 32) (omega arith)

abbrev pub Tiles : ℕ → ℕ → List Block → Type 0
Tiles start end [] = start ≡ end
Tiles start end (b ∷ bs) = (b.addr ≡ start) × Tiles (start + header_size + b.size) end bs

abbrev pub heap_end : ℕ
heap_end = heap_start + heap_size

-- The blocks fill the heap.
abbrev pub IsHeap : Heap → Type 0
IsHeap h = Tiles heap_start heap_end h.free_list

pub Tiles-le : (s e : ℕ) (bs : List Block) → Tiles s e bs → s ≤ e
Tiles-le s e [] t = omega arith
Tiles-le s e (b ∷ bs) t = omega (arith, Tiles-le (s + header_size + b.size) e bs t.1)

-- A block that is found lies between the ends.
pub block_at-within :
    (s e : ℕ) (at : ℕ) (bs : List Block) (b : Block)
    → Tiles s e bs
    → block_at at bs ≡ some b
    → (b.addr ≡ at) × (s ≤ at) × (at + header_size + b.size ≤ e)
unfolding block_at
block_at-within s e at [] b t h = cc
block_at-within s e at (c ∷ bs) b t h = elim (Bool-cases (c.addr == at)) [
  | inl hit ↦ ground (arith, Tiles-le (s + header_size + c.size) e bs t.1)
  | inr miss ↦ ground (arith, block_at-within (s + header_size + c.size) e at bs b t.1)
]

pub block_at_low :
    (s e : ℕ) (at : ℕ) (bs : List Block) → Tiles s e bs → at < s → block_at at bs ≡ none
unfolding block_at
block_at_low s e at [] t h = refl
block_at_low s e at (c ∷ bs) t h =
    ground (arith, block_at_low (s + header_size + c.size) e at bs t.1)

-- Two blocks of a heap do not overlap, headers included.
pub blocks_apart :
    (s e : ℕ) (a a' : ℕ) (bs : List Block) (b b' : Block)
    → Tiles s e bs
    → block_at a bs ≡ some b
    → block_at a' bs ≡ some b'
    → a < a'
    → a + header_size + b.size ≤ a'
unfolding block_at
blocks_apart s e a a' [] b b' t h h' lt = cc
blocks_apart s e a a' (c ∷ bs) b b' t h h' lt = elim (Bool-cases (c.addr == a)) [
  | inl hit ↦ ground (arith, block_at-within (s + header_size + c.size) e a' bs b' t.1)
  | inr miss ↦ ground (
    arith,
    block_at-within (s + header_size + c.size) e a bs b t.1,
    blocks_apart (s + header_size + c.size) e a a' bs b b' t.1,
  )
]

pub init_heap-IsHeap : (h : Heap) → IsHeap (init_heap h)
unfolding init_heap
init_heap-IsHeap h = omega arith
