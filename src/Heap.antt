-- ===== src/Heap.antt =====
-- src/kernel/heap.cpp, the kernel's allocator: a list of block headers, linked in the order of their
-- addresses, and the bytes behind them. `free_list` is the list from the static variable of that
-- name on; it is empty before `init_heap`. A header is 12 bytes on this 32-bit target (two words,
-- one byte and padding). Writes of headers are kept in the list; `bytes` are what callers store.
pub mod Layout
pub mod Alloc
pub mod Release
pub mod Resize
pub mod Stats
mod Tests
use Prim.Native.Nat.{bit_and}
use continuum_os.Common.{
  ℕ, zero, suc, ◌+◌, ◌-◌, ◌*◌, ◌%◌, ◌^◌, Bool, true, false, ◌&&◌, Option, none, some, List, [], ◌∷◌,
  ltb, leb, ◌==◌, if◌then◌else◌,
}

abbrev pub heap_start : ℕ
heap_start = 0x0080_0000

abbrev pub heap_size : ℕ
heap_size = 0x0080_0000

abbrev pub header_size : ℕ
header_size = 12

-- `heap_block_t` at the address `addr`.
pub record Block : Type 0 where
  pub addr : ℕ
  pub size : ℕ
  pub free : Bool

pub record Heap : Type 0 where
  pub free_list : List Block
  pub bytes : ℕ → ℕ

-- `(size + 15) & ~15` on a 32-bit size_t.
pub align16 : ℕ → ℕ
align16 size = bit_and ((size + 15) % 2 ^ 32) (2 ^ 32 - 1 - 15)

pub init_heap : Heap → Heap
init_heap h = record h {
  free_list = record { addr = heap_start; size = heap_size - header_size; free = true } ∷ [];
}

-- What `kmalloc` does to the block that it found: one block, or two where it can be split.
-- Sums and differences are of size_t and wrap.
pub carve : ℕ → Block → List Block → List Block
carve size b rest =
    if leb ((size + header_size + 16) % 2 ^ 32) b.size
    then record b { size = size; free = false }
      ∷ record {
        addr = (b.addr + header_size + size) % 2 ^ 32;
        size = (b.size + 2 ^ 33 - size - header_size) % 2 ^ 32;
        free = true;
      }
      ∷ rest
    else record b { free = false } ∷ rest

-- The search for the first free block that is big enough, with what happens to it: the address
-- behind its header and the new list, or `none` where there is no such block.
pub first_fit : ℕ → List Block → Option (ℕ × List Block)
first_fit size [] = none
first_fit size (b ∷ bs) =
    if b.free && leb size b.size
    then some (b.addr + header_size, carve size b bs)
    else elim (first_fit size bs) [ none ↦ none | some (p, bs') ↦ some (p, b ∷ bs') ]

-- `none` is NULL.
pub kmalloc : ℕ → Heap → Option ℕ × Heap
kmalloc size h = if size == 0 then (none, h) else elim (first_fit (align16 size) h.free_list) [
  | none ↦ (none, h)
  | some (p, bs) ↦ (some p, record h { free_list = bs })
]

-- `kfree` at a header: mark it free and take in the next block if that is free.
pub merge_next : Block → List Block → List Block
merge_next b [] = record b { free = true } ∷ []
merge_next b (n ∷ rest) =
    if n.free
    then record b { size = (b.size + (n.size + header_size)) % 2 ^ 32; free = true } ∷ rest
    else record b { free = true } ∷ n ∷ rest

-- The block whose header starts at `at`; `none` where there is no header, and `kfree` would write
-- into whatever lies there.
pub release : ℕ → List Block → Option (List Block)
release at [] = none
release at (b ∷ bs) =
    if b.addr == at
    then some (merge_next b bs)
    else elim (release at bs) [ none ↦ none | some bs' ↦ some (b ∷ bs') ]

-- A null pointer is `none`; the result `none` is a write outside the headers.
pub kfree : Option ℕ → Heap → Option Heap
kfree none h = some h
kfree (some ptr) h = elim (release (ptr - header_size) h.free_list) [
  | none ↦ none
  | some bs ↦ some (record h { free_list = bs })
]

pub block_at : ℕ → List Block → Option Block
block_at at [] = none
block_at at (b ∷ bs) = if b.addr == at then some b else block_at at bs

-- `memcpy` of `n` bytes from `src` to `dst`, lowest first.
pub copy_bytes : ℕ → ℕ → ℕ → (ℕ → ℕ) → ℕ → ℕ
copy_bytes zero dst src m = m
copy_bytes (suc n) dst src m =
    copy_bytes n (dst + 1) (src + 1) (λ a. if a == dst then m src else m a)

-- The end of `krealloc` behind a call of `kmalloc` that succeeded: the old header is read again for
-- the length of the copy, and the old block is freed.
pub move_to : ℕ → ℕ → Heap → Option (Option ℕ × Heap)
move_to ptr new_ptr h = elim (block_at (ptr - header_size) h.free_list) [
  | none ↦ none
  | some b ↦ elim (kfree (some ptr) (record h { bytes = copy_bytes b.size new_ptr ptr h.bytes })) [
    | none ↦ none
    | some h' ↦ some (some new_ptr, h')
  ]
]

-- `krealloc` of a block that is too small.
pub grow : ℕ → Option ℕ × Heap → Option (Option ℕ × Heap)
grow ptr (none, h) = some (none, h)
grow ptr (some new_ptr, h) = move_to ptr new_ptr h

-- `krealloc` of a pointer that is not null and a size that is not 0; the result `none` is an access
-- outside the headers.
pub resize : ℕ → ℕ → Heap → Option (Option ℕ × Heap)
resize ptr size h = elim (block_at (ptr - header_size) h.free_list) [
  | none ↦ none
  | some b ↦ if leb size b.size then some (some ptr, h) else grow ptr (kmalloc size h)
]

pub krealloc : Option ℕ → ℕ → Heap → Option (Option ℕ × Heap)
krealloc ptr zero h = elim (kfree ptr h) [ none ↦ none | some h' ↦ some (none, h') ]
krealloc none (suc n) h = some (kmalloc (suc n) h)
krealloc (some p) (suc n) h = resize p (suc n) h

-- `heap_stats_t`; its counters are of 32 bits and wrap.
pub record HeapStats : Type 0 where
  pub total_size : ℕ
  pub used_size : ℕ
  pub free_size : ℕ
  pub allocated_blocks : ℕ
  pub free_blocks : ℕ
  pub largest_free_block : ℕ
  pub overhead : ℕ

-- One round of the loop of `get_heap_stats`.
pub count_block : Block → HeapStats → HeapStats
count_block b s =
    if b.free
    then record s {
      free_size = (s.free_size + b.size) % 2 ^ 32;
      free_blocks = (s.free_blocks + 1) % 2 ^ 32;
      largest_free_block = if ltb s.largest_free_block b.size then b.size else s.largest_free_block;
    }
    else record s {
      used_size = (s.used_size + b.size) % 2 ^ 32;
      allocated_blocks = (s.allocated_blocks + 1) % 2 ^ 32;
    }

pub count_blocks : List Block → HeapStats → HeapStats
count_blocks [] s = s
count_blocks (b ∷ bs) s = count_blocks bs (count_block b s)

abbrev pub no_stats : HeapStats
no_stats = record {
  total_size = heap_size;
  used_size = 0;
  free_size = 0;
  allocated_blocks = 0;
  free_blocks = 0;
  largest_free_block = 0;
  overhead = 0;
}

with_overhead : HeapStats → HeapStats
with_overhead s = record s {
  overhead = (s.allocated_blocks + s.free_blocks) % 2 ^ 32 * header_size % 2 ^ 32;
}

-- `none`: `*stats` is left alone, as before `init_heap`.
stats_of : List Block → Option HeapStats
unfolding with_overhead
stats_of [] = none
stats_of (b ∷ bs) = some (with_overhead (count_blocks (b ∷ bs) no_stats))

pub get_heap_stats : Heap → Option HeapStats
unfolding stats_of
get_heap_stats h = stats_of h.free_list
