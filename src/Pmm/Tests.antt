-- ===== src/Pmm/Tests.antt =====
-- Runs and instances of the frame allocator's theorems.
use continuum_os.Common.{zero, suc, ◌≡◌, refl, [], ◌∷◌, none, some, arith}
use continuum_os.Pmm.Frames.{IsBitmap}
use continuum_os.Common.Bits.{testbit}
use continuum_os.Pmm.Accounting.{
  IsValid, Allocates, Frees, count_used, allocate_frame-Allocates, free_frame-Frees,
}
use continuum_os.Pmm.Boot.{Booted, initialize-Booted}
use continuum_os.Pmm.{
  Pmm, set_frame, allocate_frame, free_frame, first_free, pointer, scan_words, scan_word,
  initialize,
}

-- Frames 0 to 2 and 4 of 40 are in use.
abbrev small_memory : Pmm
small_memory = record {
  bitmap = 0x17 ∷ 0 ∷ [];
  total_frames = 40;
  used_frames = 4;
  next_free_physical = 8192;
}

small_words : IsBitmap small_memory.bitmap
small_words zero = omega arith
small_words (suc zero) = omega arith
small_words (suc (suc i)) = omega arith

small_memory-IsValid : IsValid small_memory
unfolding count_used testbit
small_memory-IsValid = record {
  sized = refl;
  words = small_words;
  small = omega arith;
  accounted = refl;
}

allocate_run : (allocate_frame small_memory).0 ≡ some 12288
unfolding allocate_frame pointer first_free scan_words scan_word
allocate_run = refl

allocate_frame-Allocates_example : Allocates small_memory (allocate_frame small_memory)
allocate_frame-Allocates_example = allocate_frame-Allocates small_memory small_memory-IsValid

free_frame-Frees_example : Frees small_memory (free_frame 16384 small_memory) 4
unfolding testbit
free_frame-Frees_example =
    free_frame-Frees small_memory 16384 small_memory-IsValid (omega arith) refl

-- 32 MiB above the first, and a kernel that ends at 0x150000.
initialize-Booted_example : Booted 0x8000 0x150000 (initialize 0x8000 0x150000)
initialize-Booted_example =
    initialize-Booted 0x8000 0x150000 (omega arith) (omega arith) (omega arith)

-- Frame 0 is free: it is marked and counted, and the answer is nullptr.
abbrev no_frame_used : Pmm
no_frame_used = record {
  bitmap = 0 ∷ [];
  total_frames = 8;
  used_frames = 0;
  next_free_physical = 0;
}

allocate_zero :
    allocate_frame no_frame_used ≡ (none, record no_frame_used { bitmap = 1 ∷ []; used_frames = 1 })
unfolding allocate_frame pointer first_free scan_words scan_word set_frame
allocate_zero = refl
