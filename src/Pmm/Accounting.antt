-- ===== src/Pmm/Accounting.antt =====
-- The frame counter against the bitmap, through `allocate_frame` and `free_frame`.
use mathlib.Core.Path.{subst}
use native.Mathlib.Decide.{ℕ_discrete}
use continuum_os.Common.{
  ℕ, zero, suc, ◌+◌, ◌-◌, ◌*◌, ◌/◌, ◌%◌, ◌^◌, ◌≤◌, ◌<◌, ◌≡◌, refl, ◌∙◌, sym, ap, ◌≢◌, Option, none,
  some, List, arith, length,
}
use continuum_os.Common.Bits.{testbit-lt}
use continuum_os.Pmm.Frames.{
  used, IsBitmap, used-set_frame_self, used-set_frame_ne, used-clear_frame_self,
  used-clear_frame_ne, set_frame-IsBitmap, clear_frame-IsBitmap, length-set_frame,
  length-clear_frame,
}
use continuum_os.Pmm.Search.{FirstFree, first_free-FirstFree, inside_words}
use continuum_os.Pmm.Search
use continuum_os.Pmm.{
  Pmm, first_free, pointer, take_frame, allocate_frame, free_frame, get_free_frames, set_frame,
  clear_frame, bitmap_words, uint32_max, page_size,
}

-- How many of the first `n` frames are in use.
unfoldable pub count_used : List ℕ → ℕ → ℕ
count_used bm zero = 0
count_used bm (suc n) = used bm n + count_used bm n

pub record IsValid (p : Pmm) : Type 0 where
  pub sized : length p.bitmap ≡ bitmap_words p.total_frames
  pub words : IsBitmap p.bitmap
  pub small : p.total_frames ≤ 2 ^ 20
  pub accounted : p.used_frames ≡ count_used p.bitmap p.total_frames

pub count_used-le : (bm : List ℕ) (n : ℕ) → count_used bm n ≤ n
unfolding count_used
count_used-le bm zero = omega arith
count_used-le bm (suc n) = omega (arith, count_used-le bm n, testbit-lt)

-- Frames that agree count alike.
count_same :
    (bm bm' : List ℕ) (n : ℕ)
    → ((g : ℕ) → g < n → used bm' g ≡ used bm g)
    → count_used bm' n ≡ count_used bm n
unfolding count_used
count_same bm bm' zero same = refl
count_same bm bm' (suc n) same =
    omega (arith, same n (omega arith), count_same bm bm' n (λ g h. same g (omega arith)))

-- One frame below `n` differs.
count_change :
    (bm bm' : List ℕ) (f n : ℕ)
    → f < n
    → ((g : ℕ) → f ≢ g → used bm' g ≡ used bm g)
    → count_used bm' n + used bm f ≡ count_used bm n + used bm' f
unfolding count_used
count_change bm bm' f zero h same = absurd (omega arith)
count_change bm bm' f (suc n) h same = elim (ℕ_discrete f n) [
  | yes e ↦ rw e (omega (arith, count_same bm bm' n (λ g l. same g (omega arith))))
  | no ne ↦ omega (arith, same n ne, count_change bm bm' f n (omega arith) same)
]

all_used : (bm : List ℕ) (n : ℕ) → ((f : ℕ) → f < n → used bm f ≡ 1) → count_used bm n ≡ n
unfolding count_used
all_used bm zero h = refl
all_used bm (suc n) h = omega (arith, h n (omega arith), all_used bm n (λ f l. h f (omega arith)))

-- Frame `f` changes hands: its bit goes from one value to the other, and no other frame's bit moves.
pub record Changes (before after : List ℕ) (f old new : ℕ) : Type 0 where
  pub was : used before f ≡ old
  pub becomes : used after f ≡ new
  pub others : (g : ℕ) → f ≢ g → used after g ≡ used before g

-- What a call of `allocate_frame` does. `null_frame` is the case of a free frame 0, whose address is
-- the null pointer.
pub data Allocates (p : Pmm) (r : Option ℕ × Pmm) : Type 0 where
  allocated :
      (f : ℕ)
      → 0 < f
      → f < p.total_frames
      → r.0 ≡ some (f * page_size)
      → ((g : ℕ) → g < f → used p.bitmap g ≡ 1)
      → Changes p.bitmap r.1.bitmap f 0 1
      → r.1.used_frames ≡ p.used_frames + 1
      → IsValid r.1
      → Allocates p r
  null_frame :
      r.0 ≡ none
      → Changes p.bitmap r.1.bitmap 0 0 1
      → r.1.used_frames ≡ p.used_frames + 1
      → IsValid r.1
      → Allocates p r
  exhausted : r ≡ (none, p) → p.used_frames ≡ p.total_frames → Allocates p r

Changes-set :
    (p : Pmm) (f : ℕ)
    → f / 32 < length p.bitmap
    → used p.bitmap f ≡ 0
    → Changes p.bitmap (set_frame f p.bitmap) f 0 1
Changes-set p f h z = record {
  was = z;
  becomes = used-set_frame_self f p.bitmap h;
  others = used-set_frame_ne f p.bitmap h;
}

Changes-clear :
    (p : Pmm) (f : ℕ)
    → f / 32 < length p.bitmap
    → IsBitmap p.bitmap
    → used p.bitmap f ≡ 1
    → Changes p.bitmap (clear_frame f p.bitmap) f 1 0
Changes-clear p f h b z = record {
  was = z;
  becomes = used-clear_frame_self f p.bitmap h b;
  others = used-clear_frame_ne f p.bitmap h;
}

counted :
    (before after : List ℕ) (f n old new : ℕ)
    → f < n
    → Changes before after f old new
    → count_used after n + old ≡ count_used before n + new
counted before after f n old new h c =
    omega (arith, count_change before after f n h c.others, c.was, c.becomes)

taken :
    (p : Pmm) (f : ℕ)
    → f < 2 ^ 20
    → take_frame f p ≡ (
      pointer (f * page_size),
      record p { bitmap = set_frame f p.bitmap; used_frames = (p.used_frames + 1) % 2 ^ 32 },
    )
unfolding take_frame pointer
taken p f h = ground arith

null_zero : pointer (0 * page_size) ≡ none
unfolding pointer
null_zero = refl

pointer-frame : (f : ℕ) → 0 < f → pointer (f * page_size) ≡ some (f * page_size)
unfolding pointer
pointer-frame f h = ground arith

none_left : (p : Pmm) (r : ℕ) → r ≡ uint32_max → take_frame r p ≡ (none, p)
unfolding take_frame
none_left p r e = rw e refl

take_frame-Allocates : (p : Pmm) (r : ℕ) → IsValid p → FirstFree p r → Allocates p (take_frame r p)
take_frame-Allocates p r v (Search.free lt z below) =
    rw (taken p r (omega (arith, v.small))) (elim (ℕ_discrete 0 r) [
      | yes e ↦
          null_frame (ap (λ f. pointer (f * page_size)) (sym e) ∙ null_zero)
            (subst (λ f. Changes p.bitmap (set_frame r p.bitmap) f 0 1) (sym e) change)
            (omega (arith, now_counted)) valid
      | no ne ↦
          allocated r (omega arith) lt (pointer-frame r (omega arith)) below change
            (omega (arith, now_counted)) valid
    ])
  where
    inside : r / 32 < length p.bitmap
    inside = inside_words p r v.sized lt

    change : Changes p.bitmap (set_frame r p.bitmap) r 0 1
    change = Changes-set p r inside z

    counts :
        count_used (set_frame r p.bitmap) p.total_frames + 0
        ≡ count_used p.bitmap p.total_frames + 1
    counts = counted p.bitmap (set_frame r p.bitmap) r p.total_frames 0 1 lt change

    now_counted : (p.used_frames + 1) % 2 ^ 32 ≡ p.used_frames + 1
    now_counted = omega (arith, v.accounted, v.small, count_used-le p.bitmap p.total_frames)

    valid :
        IsValid
          (record p { bitmap = set_frame r p.bitmap; used_frames = (p.used_frames + 1) % 2 ^ 32 })
    valid = record {
      sized = length-set_frame r p.bitmap ∙ v.sized;
      words = set_frame-IsBitmap r p.bitmap inside v.words;
      small = v.small;
      accounted = omega (arith, counts, v.accounted, now_counted);
    }
take_frame-Allocates p r v (Search.full e all) =
    exhausted (none_left p r e) (v.accounted ∙ all_used p.bitmap p.total_frames all)

-- With valid accounting `allocate_frame` hands out the lowest free frame, marks that frame alone as
-- used, counts it and keeps the accounting valid. It answers nullptr in two cases only: every frame
-- is in use, and nothing changes; or frame 0 was free, whose address is the null pointer, and it is
-- marked and counted all the same.
pub allocate_frame-Allocates : (p : Pmm) → IsValid p → Allocates p (allocate_frame p)
unfolding allocate_frame
allocate_frame-Allocates p v =
    take_frame-Allocates p (first_free p) v (first_free-FirstFree p v.sized)

-- What freeing frame `f` does to the allocator.
pub record Frees (p q : Pmm) (f : ℕ) : Type 0 where
  pub change : Changes p.bitmap q.bitmap f 1 0
  pub counted : q.used_frames + 1 ≡ p.used_frames
  pub valid : IsValid q

-- `free_frame`, given an address in a frame that is in use, clears that frame's bit alone, takes it
-- off the count and keeps the accounting valid.
pub free_frame-Frees :
    (p : Pmm) (addr : ℕ)
    → IsValid p
    → addr / page_size < p.total_frames
    → used p.bitmap (addr / page_size) ≡ 1
    → Frees p (free_frame addr p) (addr / page_size)
unfolding free_frame
free_frame-Frees p addr v lt u = record {
  change = change;
  counted = omega (arith, one_less);
  valid = record {
    sized = length-clear_frame (addr / page_size) p.bitmap ∙ v.sized;
    words = clear_frame-IsBitmap (addr / page_size) p.bitmap inside v.words;
    small = v.small;
    accounted = omega (arith, counts, v.accounted, one_less);
  };
}
  where
    inside : addr / page_size / 32 < length p.bitmap
    inside = inside_words p (addr / page_size) v.sized lt

    change : Changes p.bitmap (clear_frame (addr / page_size) p.bitmap) (addr / page_size) 1 0
    change = Changes-clear p (addr / page_size) inside v.words u

    counts :
        count_used (clear_frame (addr / page_size) p.bitmap) p.total_frames + 1
        ≡ count_used p.bitmap p.total_frames + 0
    counts = counted p.bitmap _ (addr / page_size) p.total_frames 1 0 lt change

    one_less : (p.used_frames + 2 ^ 32 - 1) % 2 ^ 32 + 1 ≡ p.used_frames
    one_less = omega (arith, v.accounted, v.small, counts, count_used-le p.bitmap p.total_frames)

-- `get_free_frames` does not wrap: it is the number of frames that are free.
pub get_free_frames-add-used :
    (p : Pmm) → IsValid p → get_free_frames p + count_used p.bitmap p.total_frames ≡ p.total_frames
unfolding get_free_frames
get_free_frames-add-used p v =
    omega (arith, v.accounted, v.small, count_used-le p.bitmap p.total_frames)

-- `free_frame` does not look whether the frame is in use: given an address in a frame that is already
-- free, it always breaks the accounting.
pub double_free_count :
    (p : Pmm) (addr : ℕ)
    → IsValid p
    → addr / page_size < p.total_frames
    → used p.bitmap (addr / page_size) ≡ 0
    → ¬ IsValid (free_frame addr p)
unfolding free_frame
double_free_count p addr v lt u w =
    omega (arith, v.accounted, v.small, w.accounted, same, count_used-le p.bitmap p.total_frames)
  where
    inside : addr / page_size / 32 < length p.bitmap
    inside = inside_words p (addr / page_size) v.sized lt

    same :
        count_used (clear_frame (addr / page_size) p.bitmap) p.total_frames
        ≡ count_used p.bitmap p.total_frames
    same = omega (
      arith,
      u,
      used-clear_frame_self (addr / page_size) p.bitmap inside v.words,
      count_change p.bitmap (clear_frame (addr / page_size) p.bitmap) (addr / page_size)
          p.total_frames lt (used-clear_frame_ne (addr / page_size) p.bitmap inside),
    )
