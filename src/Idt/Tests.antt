-- ===== src/Idt/Tests.antt =====
-- The theorem on `idt_init` at the keyboard's interrupt.
use ra_os.Base.{◌+◌, ◌*◌, ◌≡◌, arith, length}
use native.Mathlib.Decide.{ℕ_discrete}
use ra_os.Idt.{init}
use ra_os.Idt.Handlers.{Handles, init-Handles}

init-Handles_example :
    let (table, register) = init 0x1000 0x2000 0x30004 in
    Handles table 0x21 0x30004 × (register.base ≡ 0x1000) × (register.limit + 1 ≡ length table * 8)
unfolding ℕ_discrete
init-Handles_example = init-Handles 0x1000 0x2000 0x30004 0x21 (omega arith)
