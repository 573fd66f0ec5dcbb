-- ===== src/Strings/Memory.antt =====
-- Copies between regions of memory that may overlap.
use native.Mathlib.Decide.{ℕ_discrete}
use continuum_os.Common.{
  ℕ, zero, suc, ◌+◌, ◌-◌, ◌%◌, ◌≤◌, ◌<◌, ◌≡◌, ◌↔◌, ◌∙◌, refl, inl, inr, arith, true, false,
  Bool-cases, ltb, leb, if◌then◌else◌, ◌&&◌,
}
use continuum_os.Strings.{
  Memory, store, copy_up, copy_down, memmove, set_up, memset, compare_from, memcmp, is_zero,
}

-- `size` bytes at `dst` are those that stood at `src`; all others are as before.
abbrev pub moved : ℕ → ℕ → ℕ → Memory → Memory
moved dst src size m a = if leb dst a && ltb a (dst + size) then m (src + (a - dst)) else m a

copy_up-moved :
    (dst src i n : ℕ) (m : Memory) (a : ℕ)
    → dst ≤ src
    → copy_up dst src i n m a ≡ moved (dst + i) (src + i) n m a
unfolding copy_up
copy_up-moved dst src i zero m a h = ground arith
copy_up-moved dst src i (suc n) m a h =
    copy_up-moved dst src (suc i) n (store (dst + i) (m (src + i)) m) a h ∙ grind arith

copy_down-moved :
    (dst src n : ℕ) (m : Memory) (a : ℕ) → src ≤ dst → copy_down dst src n m a ≡ moved dst src n m a
unfolding copy_down
copy_down-moved dst src zero m a h = ground arith
copy_down-moved dst src (suc n) m a h =
    copy_down-moved dst src n (store (dst + n) (m (src + n)) m) a h ∙ grind arith

-- `memmove` moves the bytes as they stood before the call, however the two regions overlap, and
-- touches nothing else.
pub memmove-moved :
    (dst src size : ℕ) (m : Memory) (a : ℕ) → memmove dst src size m a ≡ moved dst src size m a
unfolding memmove
memmove-moved dst src size m a = elim (Bool-cases (ltb dst src)) [
  | inl below ↦ rw below (copy_up-moved dst src 0 size m a (ground arith) ∙ grind arith)
  | inr above ↦ rw above (copy_down-moved dst src size m a (ground arith))
]

-- `size` bytes at `buf` are `value`; all others are as before.
abbrev pub filled : ℕ → ℕ → ℕ → Memory → Memory
filled buf value size m a = if leb buf a && ltb a (buf + size) then value else m a

set_up-filled :
    (buf value i n : ℕ) (m : Memory) (a : ℕ)
    → set_up buf value i n m a ≡ filled (buf + i) value n m a
unfolding set_up
set_up-filled buf value i zero m a = ground arith
set_up-filled buf value i (suc n) m a =
    set_up-filled buf value (suc i) n (store (buf + i) value m) a ∙ grind arith

-- `memset` writes the low byte of the value to each byte of the region and to no other.
pub memset-filled :
    (buf value size : ℕ) (m : Memory) (a : ℕ)
    → memset buf value size m a ≡ filled buf (value % 256) size m a
unfolding memset
memset-filled buf value size m a = set_up-filled buf (value % 256) 0 size m a ∙ grind arith

-- The bytes of two regions agree.
abbrev pub Agree : ℕ → ℕ → ℕ → Memory → Type 0
Agree a b size m = (k : ℕ) → k < size → m (a + k) ≡ m (b + k)

compare_from_zero :
    (a b i n : ℕ) (m : Memory)
    → is_zero (compare_from a b i n m) ≡ true
    → (k : ℕ) → i ≤ k
    → k < i + n
    → m (a + k) ≡ m (b + k)
unfolding compare_from
compare_from_zero a b i zero m e k lo hi = absurd (omega arith)
compare_from_zero a b i (suc n) m e k lo hi = elim (Bool-cases (ltb (m (a + i)) (m (b + i)))) [
  | inl less ↦
      let apart : is_zero (compare_from a b i (suc n) m) ≡ false = rw less refl in absurd (cc)
  | inr le ↦ elim (Bool-cases (ltb (m (b + i)) (m (a + i)))) [
    | inl more ↦
        let apart : is_zero (compare_from a b i (suc n) m) ≡ false = rw (le, more) refl in
        absurd (cc)
    | inr ge ↦ elim (ℕ_discrete k i) [
      | yes here ↦ rw here (ground arith)
      | no ne ↦
          let rest : is_zero (compare_from a b (suc i) n m)
              ≡ is_zero (compare_from a b i (suc n) m) =
            rw (le, ge) refl in
          compare_from_zero a b (suc i) n m (rest ∙ e) k (omega arith) (omega arith)
    ]
  ]
]

zero_compare_from :
    (a b i n : ℕ) (m : Memory)
    → ((k : ℕ) → i ≤ k → k < i + n → m (a + k) ≡ m (b + k))
    → is_zero (compare_from a b i n m) ≡ true
unfolding compare_from
zero_compare_from a b i zero m all = refl
zero_compare_from a b i (suc n) m all =
    let here = all i (omega arith) (omega arith) in
    let le : ltb (m (a + i)) (m (b + i)) ≡ false = ground arith in
    let ge : ltb (m (b + i)) (m (a + i)) ≡ false = ground arith in
    rw (le, ge) (zero_compare_from a b (suc i) n m (λ k lo hi. all k (omega arith) (omega arith)))

-- `memcmp` answers 0 exactly where the two regions hold the same bytes.
pub memcmp-Agree :
    (a b size : ℕ) (m : Memory) → (is_zero (memcmp a b size m) ≡ true) ↔ Agree a b size m
unfolding memcmp
memcmp-Agree a b size m = (
  λ e k h. compare_from_zero a b 0 size m e k (omega arith) (omega arith),
  λ all. zero_compare_from a b 0 size m (λ k lo hi. all k (omega arith)),
)
