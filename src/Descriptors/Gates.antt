-- ===== src/Descriptors/Gates.antt =====
-- The gates that `init_idt` of src/kernel/idt.cpp sets.
use Prim.Native.Nat.{◌*◌}
use mathlib.Core.Path.{subst}
use continuum_os.Common.{
  ℕ, zero, suc, ◌+◌, ◌-◌, ◌^◌, ◌<◌, ◌≡◌, refl, sym, ap, ◌∙◌, true, false, ◌&&◌, arith, ltb, leb,
  ◌==◌, if◌then◌else◌, Bool-cases, ◌⊎◌, inl, inr,
}
use continuum_os.Descriptors.{IdtEntry, gate, idt_set_gate, set_gates, init_idt}

-- The entry point that a gate leads to.
abbrev pub handler_of : IdtEntry → ℕ
handler_of e = e.offset_low + e.offset_high * 2 ^ 16

set_gates-gate :
    (n i : ℕ) (offset : ℕ → ℕ) (selector flags : ℕ) (idt : ℕ → IdtEntry) (v : ℕ)
    → set_gates i n offset selector flags idt v
      ≡ (if leb i v && ltb v (i + n) then gate (offset v) selector flags else idt v)
unfolding set_gates idt_set_gate
set_gates-gate zero i offset selector flags idt v =
    let out : (leb i v && ltb v (i + 0)) ≡ false = ground arith in rw out refl
set_gates-gate (suc n) i offset selector flags idt v =
    set_gates-gate n (i + 1) offset selector flags (idt_set_gate i (offset i) selector flags idt) v
    ∙ elim (Bool-cases (v == i)) [
      | inl e ↦
          let here : v ≡ i = ground arith in
          let out : (leb (i + 1) v && ltb v (i + 1 + n)) ≡ false = ground arith in
          let in_ : (leb i v && ltb v (i + suc n)) ≡ true = ground arith in
          rw (out, in_, e) (ap (λ x. gate (offset x) selector flags) (sym here))
      | inr e ↦
          let same : (leb (i + 1) v && ltb v (i + 1 + n)) ≡ (leb i v && ltb v (i + suc n)) =
            ground arith in
          rw (same, e) refl
    ]

-- Behind `init_idt` the 32 exceptions and the 16 interrupt requests lead to their stubs through
-- interrupt gates of the kernel's code segment, and every other vector to the address 0. The stubs
-- stand within 32 bits.
pub init_idt-gate :
    (isr irq : ℕ → ℕ) (idt : ℕ → IdtEntry) (v : ℕ)
    → v < 256
    → isr v < 2 ^ 32
    → irq (v - 32) < 2 ^ 32
    → let e = init_idt isr irq idt v in
      (handler_of e ≡ (if ltb v 32 then isr v else (if ltb v 48 then irq (v - 32) else 0)))
      × (e.selector ≡ (if ltb v 48 then 8 else 0))
      × (e.type_attr ≡ (if ltb v 48 then 142 else 128))
unfolding init_idt
init_idt-gate isr irq idt v small hi hq =
    subst Right (sym entry) (cases (Bool-cases (ltb v 32)) (Bool-cases (ltb v 48)))
  where
    Right : IdtEntry → Type 0
    Right e =
        (handler_of e ≡ (if ltb v 32 then isr v else (if ltb v 48 then irq (v - 32) else 0)))
        × (e.selector ≡ (if ltb v 48 then 8 else 0))
        × (e.type_attr ≡ (if ltb v 48 then 142 else 128))

    third : IdtEntry
    third = if leb 0 v && ltb v 256 then gate 0 0 0 else idt v

    second : IdtEntry
    second = if leb 0 v && ltb v 32 then gate (isr v) 8 142 else third

    entry :
        init_idt isr irq idt v
        ≡ (if leb 32 v && ltb v 48 then gate (irq (v - 32)) 8 142 else second)
    entry =
        set_gates-gate 16 32 (λ i. irq (i - 32)) 8 142 exceptions v
        ∙ ap (λ e. if leb 32 v && ltb v 48 then gate (irq (v - 32)) 8 142 else e)
            (set_gates-gate 32 0 isr 8 142 cleared v
              ∙ ap (λ e. if leb 0 v && ltb v 32 then gate (isr v) 8 142 else e)
                  (set_gates-gate 256 0 (λ i. 0) 0 0 idt v))
      where
        cleared : ℕ → IdtEntry
        cleared = set_gates 0 256 (λ i. 0) 0 0 idt

        exceptions : ℕ → IdtEntry
        exceptions = set_gates 0 32 isr 8 142 cleared

    cases :
        (ltb v 32 ≡ true) ⊎ (ltb v 32 ≡ false)
        → (ltb v 48 ≡ true) ⊎ (ltb v 48 ≡ false)
        → Right (if leb 32 v && ltb v 48 then gate (irq (v - 32)) 8 142 else second)
    cases (inl a) (inr b) = absurd (ground arith)
    cases (inl a) (inl b) =
        let no_request : (leb 32 v && ltb v 48) ≡ false = ground arith in
        let exception : (leb 0 v && ltb v 32) ≡ true = ground arith in
        rw (no_request, exception, a, b) (omega arith, refl, refl)
    cases (inr a) (inl b) =
        let request : (leb 32 v && ltb v 48) ≡ true = ground arith in
        rw (request, a, b) (omega arith, refl, refl)
    cases (inr a) (inr b) =
        let no_request : (leb 32 v && ltb v 48) ≡ false = ground arith in
        let no_exception : (leb 0 v && ltb v 32) ≡ false = ground arith in
        let other : (leb 0 v && ltb v 256) ≡ true = ground arith in
        rw (no_request, no_exception, other, a, b) (refl, refl, refl)
