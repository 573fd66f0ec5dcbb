-- ===== src/Descriptors/Tests.antt =====
-- The theorem on interrupt gates at work, and a segment.
use Prim.Native.Nat.{◌*◌}
use continuum_os.Common.{ℕ, ◌+◌, ◌-◌, ◌≡◌, refl, ltb, if◌then◌else◌, arith}
use continuum_os.Descriptors.{GdtEntry, IdtEntry, set_gdt_entry, init_gdt, init_idt}
use continuum_os.Descriptors.Segments.{limit_of}
use continuum_os.Descriptors.Gates.{handler_of, init_idt-gate}

abbrev no_segments : ℕ → GdtEntry
no_segments i = record {
  limit_low = 0;
  base_low = 0;
  base_mid = 0;
  access = 0;
  granularity = 0;
  base_high = 0;
}

abbrev no_gates : ℕ → IdtEntry
no_gates i = record { offset_low = 0; selector = 0; reserved = 0; type_attr = 0; offset_high = 0 }

-- The user's code segment is all of the memory.
user_code : limit_of (init_gdt no_segments 3) ≡ 1048575
unfolding init_gdt set_gdt_entry
user_code = refl

abbrev stub : ℕ → ℕ
stub i = 1048576 + 16 * i

init_idt-gate_example :
    let e = init_idt stub stub no_gates 33 in
    (handler_of e ≡ (if ltb 33 32 then stub 33 else (if ltb 33 48 then stub (33 - 32) else 0)))
    × (e.selector ≡ (if ltb 33 48 then 8 else 0))
    × (e.type_attr ≡ (if ltb 33 48 then 142 else 128))
init_idt-gate_example =
    init_idt-gate stub stub no_gates 33 (omega arith) (omega arith) (omega arith)
