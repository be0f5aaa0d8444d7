-- ===== src/Idt/Handlers.antt =====
-- Which handler the processor finds for an interrupt.
use ra_os.Base.{
  ℕ, zero, suc, ◌+◌, ◌*◌, ◌/◌, ◌^◌, ◌≤◌, ◌<◌, ◌≡◌, ◌≢◌, refl, ◌∙◌, sym, ◌==◌, if◌then◌else◌, some,
  List, bit_and, arith, ==_of_eq, ==_of_ne, length, get_elem?, replicate, length-set,
  length-replicate, get_elem?-set_self, get_elem?-set_ne,
}
use native.Mathlib.Decide.{ℕ_discrete}
use mathlib.Core.Path.{subst}
use ra_os.Base.Bits.{bit_and-mask}
use ra_os.Idt.{
  Descriptor, total_interrupts, kernel_code_selector, set_handler, init_loop, zero_descriptor, init,
}

-- A present interrupt gate of the kernel's code segment for the handler at an address.
pub record IsGate (d : Descriptor) (address : ℕ) : Type 0 where
  pub handler : d.offset_1 + d.offset_2 * 2 ^ 16 ≡ address
  pub offset_fits : d.offset_1 < 2 ^ 16
  pub segment : d.selector ≡ kernel_code_selector
  pub attributes : d.type_attr ≡ 0xee

-- The descriptor of an interrupt is a gate for the handler.
pub record Handles (table : List Descriptor) (interrupt_no address : ℕ) : Type 0 where
  pub descriptor : Descriptor
  pub found : get_elem? table interrupt_no ≡ some descriptor
  pub gate : IsGate descriptor address

-- `idt_set` installs a gate for the handler.
pub set_handler-Handles :
    (table : List Descriptor) (interrupt_no address : ℕ)
    → interrupt_no < length table
    → Handles (set_handler table interrupt_no address) interrupt_no address
unfolding set_handler
set_handler-Handles table n address h = record {
  descriptor = record {
    offset_1 = bit_and address 0x0000ffff;
    selector = kernel_code_selector;
    zero_byte = 0x00;
    type_attr = 0xee;
    offset_2 = address / 2 ^ 16;
  };
  found = get_elem?-set_self table n _ h;
  gate = ground (arith, bit_and-mask 16 address 0xffff refl);
}

set_handler-other :
    (table : List Descriptor) (n m address : ℕ)
    → n ≢ m
    → get_elem? (set_handler table n address) m ≡ get_elem? table m
unfolding set_handler
set_handler-other table n m address ne = get_elem?-set_ne table n m _ ne

length-set_handler :
    (table : List Descriptor) (n address : ℕ) → length (set_handler table n address) ≡ length table
unfolding set_handler
length-set_handler table n address = length-set table n _

Handles-kept :
    (table table' : List Descriptor) (n address : ℕ)
    → get_elem? table' n ≡ get_elem? table n
    → Handles table n address
    → Handles table' n address
Handles-kept table table' n address e h = record {
  descriptor = h.descriptor;
  found = e ∙ h.found;
  gate = h.gate;
}

init_loop-before :
    (rounds : ℕ) (table : List Descriptor) (i n address : ℕ)
    → n < i
    → get_elem? (init_loop rounds table i address) n ≡ get_elem? table n
unfolding init_loop
init_loop-before zero table i n address h = refl
init_loop-before (suc rounds) table i n address h =
    init_loop-before rounds (set_handler table i address) (i + 1) n address (omega arith)
    ∙ set_handler-other table i n address (omega arith)

length-init_loop :
    (rounds : ℕ) (table : List Descriptor) (i address : ℕ)
    → length (init_loop rounds table i address) ≡ length table
unfolding init_loop
length-init_loop zero table i address = refl
length-init_loop (suc rounds) table i address =
    length-init_loop rounds (set_handler table i address) (i + 1) address
    ∙ length-set_handler table i address

-- The loop installs the handler for every interrupt that it passes.
init_loop-Handles :
    (rounds : ℕ) (table : List Descriptor) (i n address : ℕ)
    → i ≤ n
    → n < i + rounds
    → i + rounds ≤ length table
    → Handles (init_loop rounds table i address) n address
unfolding init_loop
init_loop-Handles zero table i n address h k l = absurd (omega arith)
init_loop-Handles (suc rounds) table i n address h k l = elim (ℕ_discrete n i) [
  | yes same ↦
      Handles-kept (set_handler table i address) _ n address
        (init_loop-before rounds (set_handler table i address) (i + 1) n address (omega arith))
        (subst (λ m. Handles (set_handler table i address) m address) (sym same)
          (set_handler-Handles table i address (omega arith)))
  | no later ↦
      init_loop-Handles rounds (set_handler table i address) (i + 1) n address (omega arith)
        (omega arith) (omega (arith, length-set_handler table i address))
]

-- After `idt_init` the table has a gate for each of the 512 interrupts: the keyboard's handler at
-- 0x21 and the default handler elsewhere; the register holds the table's address and last byte.
pub init-Handles :
    (table_address no_interrupt int21h n : ℕ)
    → n < total_interrupts
    → let (table, register) = init table_address no_interrupt int21h in
      Handles table n (if n == 0x21 then int21h else no_interrupt)
      × (register.base ≡ table_address)
      × (register.limit + 1 ≡ length table * 8)
unfolding init
init-Handles table_address no_interrupt int21h n h =
    let start = replicate total_interrupts zero_descriptor in
    let table = init_loop total_interrupts start 0 no_interrupt in
    let size =
      length-init_loop total_interrupts start 0 no_interrupt
      ∙ length-replicate total_interrupts zero_descriptor in
    (
      elim (ℕ_discrete n 0x21) [
        | yes keyboard ↦
            rw (==_of_eq n 0x21 keyboard, keyboard)
              (set_handler-Handles table 0x21 int21h (omega (arith, size)))
        | no other ↦ rw (==_of_ne n 0x21 other) (
            Handles-kept table _ n no_interrupt
              (set_handler-other table 0x21 n int21h (omega arith))
              (init_loop-Handles total_interrupts start 0 n no_interrupt (omega arith) (omega arith)
                (omega (arith, length-replicate total_interrupts zero_descriptor))))
      ],
      refl,
      omega (arith, length-set_handler table 0x21 int21h, size),
    )
