-- ===== src/Idt.antt =====
-- src/idt/idt.c: the table of interrupt descriptors. The addresses of the assembly handlers and of
-- the table are parameters.
pub mod Handlers
mod Tests
use ra_os.Base.{
  ℕ, zero, suc, ◌+◌, ◌-◌, ◌*◌, ◌/◌, ◌^◌, ◌==◌, if◌then◌else◌, List, [], ◌∷◌, bit_and, replicate,
  set,
}

-- `struct idt_desc`
pub record Descriptor : Type 0 where
  pub offset_1 : ℕ
  pub selector : ℕ
  pub zero_byte : ℕ
  pub type_attr : ℕ
  pub offset_2 : ℕ

-- `struct idtr_desc`
pub record TableRegister : Type 0 where
  pub limit : ℕ
  pub base : ℕ

-- RAOS_TOTAL_INTERRUPTS and KERNEL_CODE_SELECTOR
abbrev pub total_interrupts : ℕ
total_interrupts = 512

abbrev pub kernel_code_selector : ℕ
kernel_code_selector = 0x08

unfoldable pub set_handler : List Descriptor → ℕ → ℕ → List Descriptor
set_handler table interrupt_no address = set table interrupt_no (record {
  offset_1 = bit_and address 0x0000ffff;
  selector = kernel_code_selector;
  zero_byte = 0x00;
  type_attr = 0xee;
  offset_2 = address / 2 ^ 16;
})

-- The loop of `idt_init`, with `rounds` rounds left from interrupt `i` on.
unfoldable pub init_loop : ℕ → List Descriptor → ℕ → ℕ → List Descriptor
unfolding set_handler
init_loop zero table i no_interrupt = table
init_loop (suc rounds) table i no_interrupt =
    init_loop rounds (set_handler table i no_interrupt) (i + 1) no_interrupt

abbrev pub zero_descriptor : Descriptor
zero_descriptor = record { offset_1 = 0; selector = 0; zero_byte = 0; type_attr = 0; offset_2 = 0 }

-- A descriptor takes 8 bytes.
unfoldable pub init : (table_address no_interrupt int21h : ℕ) → List Descriptor × TableRegister
init table_address no_interrupt int21h = (
  set_handler
      (init_loop total_interrupts (replicate total_interrupts zero_descriptor) 0 no_interrupt) 0x21
      int21h,
  record { limit = total_interrupts * 8 - 1; base = table_address },
)
