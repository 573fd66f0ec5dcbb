-- ===== src/Pmm.antt =====
-- src/kernel/memory.cpp, the physical frame allocator: one bit for each page frame, in 32-bit words.
-- The class's static members are the fields of `Pmm`; `next_free_physical` is the static local of
-- `initialize`. Reads and writes outside the bitmap are cut off here (a read gives 0, a write is
-- lost); the theorems keep to frames inside it.
pub mod Frames
pub mod Search
pub mod Accounting
pub mod Boot
mod Tests
use Prim.Native.Nat.{bit_and, bit_or}
use continuum_os.Common.{
  ℕ, zero, suc, ◌+◌, ◌-◌, ◌*◌, ◌/◌, ◌%◌, ◌^◌, Bool, true, false, Option, none, some, List, [], ◌∷◌,
  ltb, ◌==◌, if◌then◌else◌, get_or, set, take, replicate,
}

abbrev pub page_size : ℕ
page_size = 4096

abbrev pub uint32_max : ℕ
uint32_max = 2 ^ 32 - 1

pub record Pmm : Type 0 where
  pub bitmap : List ℕ
  pub total_frames : ℕ
  pub used_frames : ℕ
  pub next_free_physical : ℕ

-- `~x` on uint32_t.
abbrev pub not32 : ℕ → ℕ
not32 x = 2 ^ 32 - 1 - x

pub align_up : ℕ → ℕ → ℕ
align_up val align = bit_and ((val + (align - 1)) % 2 ^ 32) (not32 (align - 1))

-- The number of 32-bit words for so many frames.
abbrev pub bitmap_words : ℕ → ℕ
bitmap_words n = if n % 32 == 0 then n / 32 else n / 32 + 1

pub set_frame : ℕ → List ℕ → List ℕ
set_frame f bm = set bm (f / 32) (bit_or (get_or bm (f / 32) 0) (2 ^ (f % 32)))

pub clear_frame : ℕ → List ℕ → List ℕ
clear_frame f bm = set bm (f / 32) (bit_and (get_or bm (f / 32) 0) (not32 (2 ^ (f % 32))))

pub test_frame : ℕ → List ℕ → ℕ
test_frame f bm = if bit_and (get_or bm (f / 32) 0) (2 ^ (f % 32)) == 0 then 0 else 1

-- The inner loop of `first_free` at word `i`, from bit `j` on, with so many rounds left.
-- The `break` past the last frame ends it with nothing found.
pub scan_word : ℕ → ℕ → ℕ → ℕ → ℕ → Option ℕ
scan_word zero j word i total = none
scan_word (suc rounds) j word i total =
    let rest = scan_word rounds (j + 1) word i total in
    if bit_and word (2 ^ j) == 0
    then if ltb (i * 32 + j) total then some (i * 32 + j) else none
    else rest

-- The outer loop, over the words from number `i` on.
pub scan_words : List ℕ → ℕ → ℕ → ℕ
scan_words [] i total = uint32_max
scan_words (word ∷ words) i total =
    let rest = scan_words words (i + 1) total in
    if word == 0xffff_ffff
    then rest
    else elim (scan_word 32 0 word i total) [ some f ↦ f | none ↦ rest ]

pub first_free : Pmm → ℕ
first_free p = scan_words (take (bitmap_words p.total_frames) p.bitmap) 0 p.total_frames

-- The pointer to an address: `none` for nullptr, which is address 0.
pub pointer : ℕ → Option ℕ
pointer a = if a == 0 then none else some a

-- `allocate_frame` behind its call of `first_free`. Frame 0 has address 0: it is marked and counted
-- like any other, and the answer is nullptr.
pub take_frame : ℕ → Pmm → Option ℕ × Pmm
take_frame frame p = if frame == uint32_max then (none, p) else (
  pointer (frame * page_size % 2 ^ 32),
  record p { bitmap = set_frame frame p.bitmap; used_frames = (p.used_frames + 1) % 2 ^ 32 },
)

pub allocate_frame : Pmm → Option ℕ × Pmm
unfolding take_frame
allocate_frame p = take_frame (first_free p) p

pub free_frame : ℕ → Pmm → Pmm
free_frame addr p = record p {
  bitmap = clear_frame (addr / page_size) p.bitmap;
  used_frames = (p.used_frames + 2 ^ 32 - 1) % 2 ^ 32;
}

pub get_memory_size : Pmm → ℕ
get_memory_size p = p.total_frames * page_size % 2 ^ 32

pub get_free_frames : Pmm → ℕ
get_free_frames p = (p.total_frames + 2 ^ 32 - p.used_frames) % 2 ^ 32

-- The loop of step 6 of `initialize`, from address `addr` on.
pub mark_used : ℕ → ℕ → Pmm → Pmm
mark_used zero addr p = p
mark_used (suc rounds) addr p = mark_used rounds (addr + page_size) (record p {
  bitmap = set_frame (addr / page_size) p.bitmap;
  used_frames = (p.used_frames + 1) % 2 ^ 32;
})

-- Steps 1 to 5 of `initialize`: the memory's size, and a cleared bitmap behind the kernel.
-- `mem_upper` is the field of the multiboot structure, `kernel_end` the linker's symbol.
pub place_bitmap : ℕ → ℕ → Pmm
place_bitmap mem_upper kernel_end =
    let total = (mem_upper + 1024) * 1024 % 2 ^ 32 / page_size in
    record {
      bitmap = replicate (bitmap_words total) 0;
      total_frames = total;
      used_frames = 0;
      next_free_physical = (align_up kernel_end page_size + bitmap_words total * 4) % 2 ^ 32;
    }

-- `addr` goes up by `page_size` while it is below `next_free_physical`.
pub initialize : ℕ → ℕ → Pmm
unfolding place_bitmap
initialize mem_upper kernel_end =
    let p = place_bitmap mem_upper kernel_end in
    mark_used ((p.next_free_physical + (page_size - 1)) / page_size) 0 p
