-- ===== src/Descriptors.antt =====
-- src/kernel/gdt.cpp and src/kernel/idt.cpp: the segment descriptors and the interrupt gates. A table
-- is what its entries are; the entry points of the stubs are arguments. Loading the tables into the
-- processor is left out.
pub mod Segments
pub mod Gates
mod Tests
use Prim.Native.Nat.{◌*◌, ◌/◌}
use continuum_os.Common.{ℕ, zero, suc, ◌+◌, ◌-◌, ◌%◌, ◌^◌, Bool, leb, ◌==◌, if◌then◌else◌}

pub record GdtEntry : Type 0 where
  pub limit_low : ℕ
  pub base_low : ℕ
  pub base_mid : ℕ
  pub access : ℕ
  pub granularity : ℕ
  pub base_high : ℕ

-- The limit's upper bits and the flags share a byte, without an overlap.
unfoldable pub set_gdt_entry : ℕ → ℕ → ℕ → ℕ → ℕ → (ℕ → GdtEntry) → ℕ → GdtEntry
set_gdt_entry index base limit access gran gdt i =
    if i == index
    then record {
      limit_low = limit % 2 ^ 16;
      base_low = base % 2 ^ 16;
      base_mid = base / 2 ^ 16 % 2 ^ 8;
      access = access;
      granularity = limit / 2 ^ 16 % 2 ^ 4 + gran / 2 ^ 4 % 2 ^ 4 * 2 ^ 4;
      base_high = base / 2 ^ 24 % 2 ^ 8;
    }
    else gdt i

unfoldable pub init_gdt : (ℕ → GdtEntry) → ℕ → GdtEntry
init_gdt gdt = set_gdt_entry 4 0 1048575 242 207 (
    set_gdt_entry 3 0 1048575 250 207 (
      set_gdt_entry 2 0 1048575 146 207
        (set_gdt_entry 1 0 1048575 154 207 (set_gdt_entry 0 0 0 0 0 gdt))))

pub record IdtEntry : Type 0 where
  pub offset_low : ℕ
  pub selector : ℕ
  pub reserved : ℕ
  pub type_attr : ℕ
  pub offset_high : ℕ

-- `flags | 0x80` on a byte.
abbrev pub with_present_bit : ℕ → ℕ
with_present_bit flags = if leb 128 flags then flags else flags + 128

abbrev pub gate : ℕ → ℕ → ℕ → IdtEntry
gate offset selector flags = record {
  offset_low = offset % 2 ^ 16;
  selector = selector;
  reserved = 0;
  type_attr = with_present_bit flags;
  offset_high = offset / 2 ^ 16 % 2 ^ 16;
}

unfoldable pub idt_set_gate : ℕ → ℕ → ℕ → ℕ → (ℕ → IdtEntry) → ℕ → IdtEntry
idt_set_gate num offset selector flags idt i =
    if i == num then gate offset selector flags else idt i

-- A loop over the vectors from `i` on, `n` of them.
unfoldable pub set_gates : ℕ → ℕ → (ℕ → ℕ) → ℕ → ℕ → (ℕ → IdtEntry) → ℕ → IdtEntry
set_gates i zero offset selector flags idt = idt
set_gates i (suc n) offset selector flags idt =
    set_gates (i + 1) n offset selector flags (idt_set_gate i (offset i) selector flags idt)

unfoldable pub init_idt : (ℕ → ℕ) → (ℕ → ℕ) → (ℕ → IdtEntry) → ℕ → IdtEntry
init_idt isr_stub_table irq_stub_table idt =
    set_gates 32 16 (λ i. irq_stub_table (i - 32)) 8 142
      (set_gates 0 32 isr_stub_table 8 142 (set_gates 0 256 (λ i. 0) 0 0 idt))

unfoldable pub init_syscall_handler : ℕ → (ℕ → IdtEntry) → ℕ → IdtEntry
init_syscall_handler handler idt = idt_set_gate 128 handler 8 142 idt
