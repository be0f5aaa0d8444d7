-- ===== src/Kernel/Tests.antt =====
-- The kernel's table with `tss` at 0x9000.
