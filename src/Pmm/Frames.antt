-- ===== src/Pmm/Frames.antt =====
-- What `set_frame`, `clear_frame` and `test_frame` do to each frame's bit.
use continuum_os.Common.{
  ℕ, ◌/◌, ◌%◌, ◌^◌, ◌<◌, ◌≡◌, ap, ◌≢◌, List, arith, length, get_or, set, length-set,
  get_or-set_self, get_or-set_ne,
}
use Prim.Native.Nat.{bit_and, bit_or}
use native.Mathlib.Nat.{pow-le-pow_right, one-le-pow}
use native.Mathlib.Decide.{ℕ_discrete}
use continuum_os.Common.Bits.{
  testbit, testbit-lt, testbit-and, testbit-or, testbit-pow_self, testbit-pow_ne,
  testbit-complement, and_pow, and-lt, or-lt,
}
use continuum_os.Pmm.{set_frame, clear_frame, test_frame, not32}

-- The bit of a frame: 1 if the frame is in use.
abbrev pub used : List ℕ → ℕ → ℕ
used bm f = testbit (get_or bm (f / 32) 0) (f % 32)

-- Every word fits 32 bits.
abbrev pub IsBitmap : List ℕ → Type 0
IsBitmap bm = (i : ℕ) → get_or bm i 0 < 2 ^ 32

pow-lt : (j : ℕ) → j < 32 → 2 ^ j < 2 ^ 32
pow-lt j h = omega (arith, pow-le-pow_right {n = 2} (omega arith) {i = j} {j = 31} (omega arith))

module _ (f : ℕ) (bm : List ℕ) (inside : f / 32 < length bm) where
  -- What a frame's word is after either write.
  word_self : (v : ℕ) → get_or (set bm (f / 32) v) (f / 32) 0 ≡ v
  word_self v = get_or-set_self bm (f / 32) v 0 inside

  pub used-set_frame_self : used (set_frame f bm) f ≡ 1
  unfolding set_frame
  used-set_frame_self = rw (word_self (bit_or (get_or bm (f / 32) 0) (2 ^ (f % 32)))) (
      omega (
        arith,
        testbit-or (f % 32) (get_or bm (f / 32) 0) (2 ^ (f % 32)),
        testbit-pow_self (f % 32),
        testbit-lt (get_or bm (f / 32) 0) (f % 32),
      ))

  pub used-set_frame_ne : (g : ℕ) → f ≢ g → used (set_frame f bm) g ≡ used bm g
  unfolding set_frame
  used-set_frame_ne g h = elim (ℕ_discrete (f / 32) (g / 32)) [
    | yes same ↦
        rw (← same, word_self (bit_or (get_or bm (f / 32) 0) (2 ^ (f % 32))))
          (omega (
            arith,
            testbit-or (g % 32) (get_or bm (f / 32) 0) (2 ^ (f % 32)),
            testbit-pow_ne (g % 32) (f % 32) (omega arith),
          ))
    | no other ↦ ap (λ (w : ℕ). testbit w (g % 32)) (get_or-set_ne bm (f / 32) (g / 32) _ 0 other)
  ]

  pub used-clear_frame_self : IsBitmap bm → used (clear_frame f bm) f ≡ 0
  unfolding clear_frame
  used-clear_frame_self b = rw (word_self (bit_and (get_or bm (f / 32) 0) (not32 (2 ^ (f % 32))))) (
      omega (
        arith,
        testbit-and (f % 32) (get_or bm (f / 32) 0) (not32 (2 ^ (f % 32))),
        testbit-complement 32 (f % 32) (2 ^ (f % 32)) (pow-lt (f % 32) (omega arith)) (omega arith),
        testbit-pow_self (f % 32),
      ))

  pub used-clear_frame_ne : (g : ℕ) → f ≢ g → used (clear_frame f bm) g ≡ used bm g
  unfolding clear_frame
  used-clear_frame_ne g h = elim (ℕ_discrete (f / 32) (g / 32)) [
    | yes same ↦
        rw (← same, word_self (bit_and (get_or bm (f / 32) 0) (not32 (2 ^ (f % 32)))))
          (omega (
            arith,
            testbit-and (g % 32) (get_or bm (f / 32) 0) (not32 (2 ^ (f % 32))),
            testbit-complement 32 (g % 32) (2 ^ (f % 32)) (pow-lt (f % 32) (omega arith))
                (omega arith),
            testbit-pow_ne (g % 32) (f % 32) (omega arith),
            testbit-lt (get_or bm (f / 32) 0) (g % 32),
          ))
    | no other ↦ ap (λ (w : ℕ). testbit w (g % 32)) (get_or-set_ne bm (f / 32) (g / 32) _ 0 other)
  ]

  set-IsBitmap : (v : ℕ) → v < 2 ^ 32 → IsBitmap bm → IsBitmap (set bm (f / 32) v)
  set-IsBitmap v h b i = elim (ℕ_discrete (f / 32) i) [
    | yes e ↦ rw (← e, word_self v) h
    | no ne ↦ rw (get_or-set_ne bm (f / 32) i v 0 ne) (b i)
  ]

  pub set_frame-IsBitmap : IsBitmap bm → IsBitmap (set_frame f bm)
  unfolding set_frame
  set_frame-IsBitmap b =
      set-IsBitmap _ (or-lt 32 _ _ (b (f / 32)) (pow-lt (f % 32) (omega arith))) b

  pub clear_frame-IsBitmap : IsBitmap bm → IsBitmap (clear_frame f bm)
  unfolding clear_frame
  clear_frame-IsBitmap b = set-IsBitmap _ (and-lt 32 _ _ (b (f / 32))) b

pub length-set_frame : (f : ℕ) (bm : List ℕ) → length (set_frame f bm) ≡ length bm
unfolding set_frame
length-set_frame f bm = length-set bm (f / 32) _

pub length-clear_frame : (f : ℕ) (bm : List ℕ) → length (clear_frame f bm) ≡ length bm
unfolding clear_frame
length-clear_frame f bm = length-set bm (f / 32) _

-- `test_frame` reads the frame's bit.
pub test_frame-used : (f : ℕ) (bm : List ℕ) → test_frame f bm ≡ used bm f
unfolding test_frame
test_frame-used f bm = ground (
  arith,
  and_pow (f % 32) (get_or bm (f / 32) 0),
  testbit-lt (get_or bm (f / 32) 0) (f % 32),
  one-le-pow (f % 32) 2,
)
