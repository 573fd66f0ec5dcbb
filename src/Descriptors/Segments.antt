-- ===== src/Descriptors/Segments.antt =====
-- What the processor reads of a segment descriptor of src/kernel/gdt.cpp.
use Prim.Native.Nat.{◌*◌, ◌/◌}
use continuum_os.Common.{ℕ, ◌+◌, ◌%◌, ◌^◌, ◌<◌, ◌≡◌, ◌≢◌, refl, true, false, arith, ◌==◌}
use continuum_os.Descriptors.{GdtEntry, set_gdt_entry}

abbrev pub base_of : GdtEntry → ℕ
base_of e = e.base_low + e.base_mid * 2 ^ 16 + e.base_high * 2 ^ 24

abbrev pub limit_of : GdtEntry → ℕ
limit_of e = e.limit_low + e.granularity % 2 ^ 4 * 2 ^ 16

abbrev pub flags_of : GdtEntry → ℕ
flags_of e = e.granularity / 2 ^ 4

-- A descriptor holds the base, the limit of 20 bits, the access byte and the upper four bits of the
-- flags that it was set from, and no other descriptor changes.
pub set_gdt_entry_holds :
    (index base limit access gran : ℕ) (gdt : ℕ → GdtEntry)
    → base < 2 ^ 32
    → limit < 2 ^ 20
    → gran < 2 ^ 8
    → let gdt' = set_gdt_entry index base limit access gran gdt in
      (base_of (gdt' index) ≡ base)
      × (limit_of (gdt' index) ≡ limit)
      × ((gdt' index).access ≡ access)
      × (flags_of (gdt' index) ≡ gran / 2 ^ 4)
      × ((i : ℕ) → i ≢ index → gdt' i ≡ gdt i)
unfolding set_gdt_entry
set_gdt_entry_holds index base limit access gran gdt hb hl hg =
    let self : (index == index) ≡ true = ground arith in
    rw self (omega arith, omega arith, refl, omega arith, λ i ne. away i ne)
  where
    away : (i : ℕ) → i ≢ index → set_gdt_entry index base limit access gran gdt i ≡ gdt i
    away i ne = let other : (i == index) ≡ false = ground arith in rw other refl
