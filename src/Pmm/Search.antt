-- ===== src/Pmm/Search.antt =====
-- What the two loops of `first_free` find.
use Prim.Native.Nat.{bit_and}
use native.Mathlib.Nat.{one-le-pow}
use native.Mathlib.Decide.{dec_lt}
use continuum_os.Common.{
  ℕ, zero, suc, ◌+◌, ◌*◌, ◌/◌, ◌%◌, ◌^◌, ◌≤◌, ◌<◌, ◌≡◌, refl, inl, inr, ap, true, false, Option,
  none, some, List, [], ◌∷◌, arith, ltb, ◌==◌, ==_iff, Bool-cases, length, get_or, take_all,
}
use continuum_os.Common.Bits.{testbit, testbit-lt, testbit_zero, testbit-complement, and_pow}
use continuum_os.Pmm.Frames.{used}
use continuum_os.Pmm.{Pmm, scan_word, scan_words, first_free, bitmap_words, uint32_max}

clear_bit : (w j : ℕ) → (bit_and w (2 ^ j) == 0) ≡ true → testbit w j ≡ 0
clear_bit w j h = ground (arith, and_pow j w, testbit-lt w j, one-le-pow j 2)

set_bit : (w j : ℕ) → (bit_and w (2 ^ j) == 0) ≡ false → testbit w j ≡ 1
set_bit w j h = ground (arith, and_pow j w, testbit-lt w j, one-le-pow j 2)

-- What the rounds over bits `j` up to `e` of word `i` end with: the lowest clear bit of a frame
-- below `total`, or nothing where every such bit is set.
data WordResult (word i total j e : ℕ) (r : Option ℕ) : Type 0 where
  found :
      (b : ℕ)
      → r ≡ some (i * 32 + b)
      → b < e
      → i * 32 + b < total
      → testbit word b ≡ 0
      → ((c : ℕ) → j ≤ c → c < b → testbit word c ≡ 1)
      → WordResult word i total j e r
  nothing :
      r ≡ none
      → ((b : ℕ) → j ≤ b → b < e → i * 32 + b < total → testbit word b ≡ 1)
      → WordResult word i total j e r

-- Bit `j` is set, and the later rounds are as they are.
one_more :
    (word i total j e : ℕ) (r : Option ℕ)
    → testbit word j ≡ 1
    → WordResult word i total (j + 1) e r
    → WordResult word i total j e r
one_more word i total j e r s (found b eq hi tot z below) = found b eq hi tot z λ c p q.
    elim (dec_lt j c) [
      | yes l ↦ below c (omega arith) q
      | no g ↦ omega (arith, s, ap (testbit word) (same c p g))
    ]
  where
    same : (c : ℕ) → j ≤ c → ¬ (j < c) → c ≡ j
    same c p g = omega arith
one_more word i total j e r s (nothing eq all) = nothing eq λ c p q t. elim (dec_lt j c) [
  | yes l ↦ all c (omega arith) q t
  | no g ↦ omega (arith, s, ap (testbit word) (same c p g))
]
  where
    same : (c : ℕ) → j ≤ c → ¬ (j < c) → c ≡ j
    same c p g = omega arith

scan_word-WordResult :
    (rounds j word i total e : ℕ)
    → j + rounds ≡ e
    → WordResult word i total j e (scan_word rounds j word i total)
unfolding scan_word
scan_word-WordResult zero j word i total e h = nothing refl (λ b p q. absurd (omega arith))
scan_word-WordResult (suc rounds) j word i total e h =
    elim (Bool-cases (bit_and word (2 ^ j) == 0)) [
      | inl clear ↦ elim (Bool-cases (ltb (i * 32 + j) total)) [
        | inl p ↦
            rw (clear, p)
              (found j refl (omega arith) (ground arith) (clear_bit word j clear)
                (λ b p q. absurd (omega arith)))
        | inr p ↦ rw (clear, p) (nothing refl (λ b q l s. absurd (ground arith)))
      ]
      | inr busy ↦ rw busy (
          one_more word i total j e _ (set_bit word j busy)
            (scan_word-WordResult rounds (j + 1) word i total e (omega arith)))
    ]

-- The bits of the words from number `i` on, and what the search through them ends with.
abbrev bit_of : List ℕ → ℕ → ℕ → ℕ
bit_of words n k = testbit (get_or words n 0) k

data Result (words : List ℕ) (i total r : ℕ) : Type 0 where
  found :
      (n k : ℕ)
      → r ≡ (i + n) * 32 + k
      → n < length words
      → k < 32
      → r < total
      → bit_of words n k ≡ 0
      → ((m c : ℕ) → m * 32 + c < n * 32 + k → c < 32 → bit_of words m c ≡ 1)
      → Result words i total r
  nothing :
      r ≡ uint32_max
      → ((m c : ℕ) → m < length words → c < 32 → (i + m) * 32 + c < total → bit_of words m c ≡ 1)
      → Result words i total r

-- The word before the others holds no free frame.
one_word :
    (w : ℕ) (ws : List ℕ) (i total r : ℕ)
    → ((c : ℕ) → c < 32 → i * 32 + c < total → testbit w c ≡ 1)
    → Result ws (i + 1) total r
    → Result (w ∷ ws) i total r
one_word w ws i total r full (found n k e inside hk lt z below) =
    found (suc n) k (omega arith) (omega arith) hk lt z earlier
  where
    earlier : (m c : ℕ) → m * 32 + c < suc n * 32 + k → c < 32 → bit_of (w ∷ ws) m c ≡ 1
    earlier zero c h l = full c l (omega arith)
    earlier (suc m) c h l = below m c (omega arith) l
one_word w ws i total r full (nothing e all) = nothing e each
  where
    each :
        (m c : ℕ)
        → m < suc (length ws)
        → c < 32
        → (i + m) * 32 + c < total
        → bit_of (w ∷ ws) m c ≡ 1
    each zero c h l t = full c l (omega arith)
    each (suc m) c h l t = all m c (omega arith) l (omega arith)

full_word : (c : ℕ) → c < 32 → testbit 0xffff_ffff c ≡ 1
full_word c h = omega (arith, testbit-complement 32 c 0 (omega arith) h, testbit_zero c)

-- The first word decides, or leaves the search to the others.
either_word :
    (w : ℕ) (ws : List ℕ) (i total later : ℕ) (r : Option ℕ)
    → WordResult w i total 0 32 r
    → Result ws (i + 1) total later
    → Result (w ∷ ws) i total (elim r [ some f ↦ f | none ↦ later ])
either_word w ws i total later r (found b e hb lt z below) rest =
    rw e (found 0 b (omega arith) (omega arith) hb lt z earlier)
  where
    earlier : (m c : ℕ) → m * 32 + c < 0 * 32 + b → c < 32 → bit_of (w ∷ ws) m c ≡ 1
    earlier zero c h l = below c (omega arith) (omega arith)
    earlier (suc m) c h l = absurd (omega arith)
either_word w ws i total later r (nothing e all) rest =
    rw e (one_word w ws i total later (λ c h t. all c (omega arith) h t) rest)

scan_words-Result : (ws : List ℕ) (i total : ℕ) → Result ws i total (scan_words ws i total)
unfolding scan_words
scan_words-Result [] i total = nothing refl (λ m c h. absurd (omega arith))
scan_words-Result (w ∷ ws) i total = elim (Bool-cases (w == 0xffff_ffff)) [
  | inl e ↦ rw e (
      one_word w ws i total _ (λ c h t. rw ((==_iff w _).0 e) (full_word c h))
        (scan_words-Result ws (i + 1) total))
  | inr ne ↦ rw ne (
      either_word w ws i total _ _ (scan_word-WordResult 32 0 w i total 32 (omega arith))
        (scan_words-Result ws (i + 1) total))
]

-- `first_free` on a bitmap of the right length: the lowest free frame, or UINT32_MAX when every
-- frame below `total_frames` is in use.
pub data FirstFree (p : Pmm) (r : ℕ) : Type 0 where
  free :
      r < p.total_frames
      → used p.bitmap r ≡ 0
      → ((f : ℕ) → f < r → used p.bitmap f ≡ 1)
      → FirstFree p r
  full : r ≡ uint32_max → ((f : ℕ) → f < p.total_frames → used p.bitmap f ≡ 1) → FirstFree p r

pub inside_words :
    (p : Pmm) (f : ℕ)
    → length p.bitmap ≡ bitmap_words p.total_frames
    → f < p.total_frames
    → f / 32 < length p.bitmap
inside_words p f len h = ground arith

of_Result :
    (p : Pmm) (r : ℕ)
    → length p.bitmap ≡ bitmap_words p.total_frames
    → Result p.bitmap 0 p.total_frames r
    → FirstFree p r
of_Result p r len (found n k e inside hk lt z below) =
    free lt (rw (word_at, bit_at) z) λ f h. below (f / 32) (f % 32) (omega arith) (omega arith)
  where
    word_at : r / 32 ≡ n
    word_at = omega arith

    bit_at : r % 32 ≡ k
    bit_at = omega arith
of_Result p r len (nothing e all) =
    full e λ f h. all (f / 32) (f % 32) (inside_words p f len h) (omega arith) (omega arith)

pub first_free-FirstFree :
    (p : Pmm) → length p.bitmap ≡ bitmap_words p.total_frames → FirstFree p (first_free p)
unfolding first_free
first_free-FirstFree p len = of_Result p _ len (
    rw (take_all (bitmap_words p.total_frames) p.bitmap (ground arith))
      (scan_words-Result p.bitmap 0 p.total_frames))
