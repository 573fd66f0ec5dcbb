-- ===== src/Heap/Tests.antt =====
-- Runs and instances of the allocator's theorems.
use continuum_os.Common.{◌≡◌, refl, true, false, some, [], ◌∷◌, arith}
use continuum_os.Heap.Alloc.{Allocation, kmalloc-Allocation}
use continuum_os.Heap.Release.{Freeing, kfree-Freeing}
use continuum_os.Heap.Resize.{Resizing, krealloc-Resizing}
use continuum_os.Heap.Stats.{Accounts, get_heap_stats-Accounts}
use continuum_os.Heap.{
  Block, Heap, HeapStats, align16, init_heap, first_fit, carve, block_at, kmalloc, kfree, krealloc,
  get_heap_stats,
}

-- One block of 32 bytes in use, and the rest.
abbrev first_block : Block
first_block = record { addr = 0x80_0000; size = 32; free = false }

abbrev rest_block : Block
rest_block = record { addr = 0x80_002c; size = 0x7f_ffc8; free = true }

abbrev one_used : Heap
one_used = record { free_list = first_block ∷ rest_block ∷ []; bytes = λ a. 0 }

kmalloc_run : kmalloc 20 (init_heap one_used) ≡ (some 0x80_000c, one_used)
unfolding kmalloc first_fit carve init_heap align16
kmalloc_run = refl

kmalloc-Allocation_example : Allocation 100 one_used (kmalloc 100 one_used)
kmalloc-Allocation_example =
    kmalloc-Allocation 100 one_used (omega arith) (omega arith) (omega arith)

kfree-Freeing_example : Freeing 0x80_0000 one_used (kfree (some 0x80_000c) one_used)
unfolding block_at
kfree-Freeing_example = kfree-Freeing 0x80_0000 one_used first_block (omega arith) refl

krealloc-Resizing_example :
    Resizing 0x80_0000 100 one_used first_block (krealloc (some 0x80_000c) 100 one_used)
unfolding block_at
krealloc-Resizing_example =
    krealloc-Resizing 0x80_0000 100 one_used first_block (omega arith) refl refl (omega arith)
      (omega arith)

get_heap_stats-Accounts_example :
    (s : HeapStats) × (get_heap_stats one_used ≡ some s) × Accounts one_used s
get_heap_stats-Accounts_example = get_heap_stats-Accounts one_used (omega arith)
