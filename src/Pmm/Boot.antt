-- ===== src/Pmm/Boot.antt =====
-- What `initialize` sets up.
use native.Mathlib.Decide.{ℕ_discrete}
use continuum_os.Common.{
  ℕ, zero, suc, ◌+◌, ◌-◌, ◌*◌, ◌/◌, ◌%◌, ◌^◌, ◌≤◌, ◌<◌, ◌≡◌, refl, ◌∙◌, ap, List, arith, length,
  get_or, replicate, length-replicate,
}
use native.Mathlib.Nat.{zero-add, suc-add}
use continuum_os.Common.Bits.{testbit_zero, and_not4095}
use continuum_os.Pmm.Frames.{
  used, IsBitmap, used-set_frame_self, used-set_frame_ne, set_frame-IsBitmap, length-set_frame,
}
use continuum_os.Pmm.Accounting.{IsValid, count_used}
use continuum_os.Pmm.{
  Pmm, set_frame, bitmap_words, page_size, align_up, mark_used, place_bitmap, initialize,
}

-- Exactly the first `k` frames are in use.
record MarkedTo (k : ℕ) (p : Pmm) : Type 0 where
  sized : length p.bitmap ≡ bitmap_words p.total_frames
  words : IsBitmap p.bitmap
  low : (f : ℕ) → f < k → used p.bitmap f ≡ 1
  high : (f : ℕ) → k ≤ f → used p.bitmap f ≡ 0
  counted : p.used_frames ≡ k

count_first :
    (bm : List ℕ) (k n : ℕ) → n ≤ k → ((f : ℕ) → f < k → used bm f ≡ 1) → count_used bm n ≡ n
unfolding count_used
count_first bm k zero h low = refl
count_first bm k (suc n) h low =
    omega (arith, low n (omega arith), count_first bm k n (omega arith) low)

count_marked :
    (bm : List ℕ) (k r : ℕ)
    → ((f : ℕ) → f < k → used bm f ≡ 1)
    → ((f : ℕ) → k ≤ f → used bm f ≡ 0)
    → count_used bm (r + k) ≡ k
unfolding count_used
count_marked bm k zero low high = rw zero-add (count_first bm k k (omega arith) low)
count_marked bm k (suc r) low high =
    rw suc-add (omega (arith, high (r + k) (omega arith), count_marked bm k r low high))

mark_one :
    (k : ℕ) (p : Pmm)
    → k < p.total_frames
    → p.total_frames ≤ 2 ^ 20
    → MarkedTo k p
    → MarkedTo (k + 1) (record p {
      bitmap = set_frame (k * page_size / page_size) p.bitmap;
      used_frames = (p.used_frames + 1) % 2 ^ 32;
    })
mark_one k p h small m = rw index (record {
  sized = length-set_frame k p.bitmap ∙ m.sized;
  words = set_frame-IsBitmap k p.bitmap inside m.words;
  low = λ f l. elim (ℕ_discrete k f) [
    | yes e ↦ rw (← e) (used-set_frame_self k p.bitmap inside)
    | no ne ↦ used-set_frame_ne k p.bitmap inside f ne ∙ m.low f (omega arith)
  ];
  high = λ f l. used-set_frame_ne k p.bitmap inside f (omega arith) ∙ m.high f (omega arith);
  counted = omega (arith, m.counted);
})
  where
    index : k * page_size / page_size ≡ k
    index = omega arith

    inside : k / 32 < length p.bitmap
    inside = ground (arith, m.sized)

record MarkedFrom (p : Pmm) (k : ℕ) (q : Pmm) : Type 0 where
  marked : MarkedTo k q
  total : q.total_frames ≡ p.total_frames
  next : q.next_free_physical ≡ p.next_free_physical

mark_used-MarkedFrom :
    (rounds k e addr : ℕ) (p : Pmm)
    → addr ≡ k * page_size
    → k + rounds ≡ e
    → e ≤ p.total_frames
    → p.total_frames ≤ 2 ^ 20
    → MarkedTo k p
    → MarkedFrom p e (mark_used rounds addr p)
unfolding mark_used
mark_used-MarkedFrom zero k e addr p a h t small m = record {
  marked = rw same at m;
  total = refl;
  next = refl;
}
  where
    same : k ≡ e
    same = omega arith
mark_used-MarkedFrom (suc rounds) k e addr p a h t small m =
    let r =
      mark_used-MarkedFrom rounds (k + 1) e (addr + page_size)
        (record p {
          bitmap = set_frame (addr / page_size) p.bitmap;
          used_frames = (p.used_frames + 1) % 2 ^ 32;
        })
        (omega arith) (omega arith) t small (rw a (mark_one k p (omega arith) small m)) in
    record { marked = r.marked; total = r.total; next = r.next }

get_or-replicate : (n i : ℕ) → get_or {A = ℕ} (replicate n 0) i 0 ≡ 0
get_or-replicate zero i = refl
get_or-replicate (suc n) zero = refl
get_or-replicate (suc n) (suc i) = get_or-replicate n i

place_bitmap-MarkedTo :
    (m k : ℕ) → MarkedTo 0 (place_bitmap m k) × ((place_bitmap m k).total_frames ≤ 2 ^ 20)
unfolding place_bitmap
place_bitmap-MarkedTo m k = (
  record {
    sized = length-replicate _ 0;
    words = λ i. omega (arith, get_or-replicate _ i);
    low = λ f l. absurd (omega arith);
    high = λ f l. rw get_or-replicate (testbit_zero (f % 32));
    counted = refl;
  },
  omega arith,
)

-- The frames of a memory with so many KiB above the first MiB.
abbrev pub frames_of : ℕ → ℕ
frames_of mem_upper = (mem_upper + 1024) * 1024 / page_size

-- The end of what is not to be handed out: the kernel's last page, and a bitmap of one bit for each
-- frame, in words of four bytes, behind it.
abbrev pub reserved_end : ℕ → ℕ → ℕ
reserved_end mem_upper kernel_end =
    (kernel_end + 4095) / 4096 * 4096 + (frames_of mem_upper + 31) / 32 * 4

-- The allocator as `initialize` leaves it: the accounting is valid, and a frame is in use exactly
-- when it starts below `reserved_end`.
pub record Booted (mem_upper kernel_end : ℕ) (p : Pmm) : Type 0 where
  pub valid : IsValid p
  pub whole : p.total_frames ≡ frames_of mem_upper
  pub reserved : (f : ℕ) → f * page_size < reserved_end mem_upper kernel_end → used p.bitmap f ≡ 1
  pub available : (f : ℕ) → reserved_end mem_upper kernel_end ≤ f * page_size → used p.bitmap f ≡ 0

align_up_page : (val : ℕ) → val ≤ 2 ^ 32 - 4096 → align_up val 4096 ≡ (val + 4095) / 4096 * 4096
unfolding align_up
align_up_page val h = omega (arith, and_not4095 ((val + 4095) % 2 ^ 32) (omega arith))

words_of : (n : ℕ) → bitmap_words n ≡ (n + 31) / 32
words_of n = ground arith

place_bitmap_total : (m k : ℕ) → m + 1024 < 2 ^ 22 → (place_bitmap m k).total_frames ≡ frames_of m
unfolding place_bitmap
place_bitmap_total m k h = omega arith

place_bitmap_next :
    (m k : ℕ)
    → m + 1024 < 2 ^ 22
    → k ≤ 2 ^ 32 - 4096
    → reserved_end m k ≤ frames_of m * page_size
    → (place_bitmap m k).next_free_physical ≡ reserved_end m k
unfolding place_bitmap
place_bitmap_next m k small low fits =
    let total : (m + 1024) * 1024 % 2 ^ 32 / page_size ≡ frames_of m = omega arith in
    rw (total, words_of (frames_of m), align_up_page k low) (omega arith)

booted :
    (mem_upper kernel_end : ℕ) (p q : Pmm) (k : ℕ)
    → p.total_frames ≡ frames_of mem_upper
    → p.next_free_physical ≡ reserved_end mem_upper kernel_end
    → k ≡ (p.next_free_physical + (page_size - 1)) / page_size
    → k ≤ p.total_frames
    → p.total_frames ≤ 2 ^ 20
    → MarkedFrom p k q
    → Booted mem_upper kernel_end q
booted mem_upper kernel_end p q k total next e t small m = record {
  whole = m.total ∙ total;
  valid = record {
    sized = m.marked.sized;
    words = m.marked.words;
    small = omega (arith, m.total);
    accounted = omega (
      arith,
      m.marked.counted,
      count_marked q.bitmap k (q.total_frames - k) m.marked.low m.marked.high,
      ap (count_used q.bitmap) rest,
    );
  };
  reserved = λ f l. m.marked.low f (omega (arith, next));
  available = λ f l. m.marked.high f (omega (arith, next));
}
  where
    rest : q.total_frames - k + k ≡ q.total_frames
    rest = omega (arith, m.total)

-- With less than 4 GiB of memory, a kernel that ends at most at the last page's start, and a kernel
-- and bitmap that fit the memory, `initialize` leaves valid accounting of all the memory's frames, and
-- exactly the frames that start below the end of both in use: the kernel's end rounded up
-- to a page, and four bytes for each 32 frames begun.
pub initialize-Booted :
    (mem_upper kernel_end : ℕ)
    → mem_upper + 1024 < 2 ^ 22
    → kernel_end ≤ 2 ^ 32 - 4096
    → reserved_end mem_upper kernel_end ≤ frames_of mem_upper * page_size
    → Booted mem_upper kernel_end (initialize mem_upper kernel_end)
unfolding initialize
initialize-Booted mem_upper kernel_end below low fits =
    let p = place_bitmap mem_upper kernel_end in
    let total = place_bitmap_total mem_upper kernel_end (omega arith) in
    let next = place_bitmap_next mem_upper kernel_end below low fits in
    let (m, small) = place_bitmap-MarkedTo mem_upper kernel_end in
    let rounds = (p.next_free_physical + (page_size - 1)) / page_size in
    booted mem_upper kernel_end p _ rounds total next refl (omega arith) small
      (mark_used-MarkedFrom rounds 0 rounds 0 p refl (omega arith) (omega arith) small m)
