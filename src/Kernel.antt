-- ===== src/Kernel.antt =====
-- src/kernel.c: the segments of the kernel. The address of `tss` is where the linker puts it.
pub mod Segments
mod Tests
use ra_os.Base.{ℕ, Option, List, [], ◌∷◌}
use ra_os.Gdt.{Segment, Descriptor, structured_to_gdt}

abbrev pub segment : ℕ → ℕ → ℕ → Segment
segment base limit access_type = record { base = base; limit = limit; access_type = access_type }

-- KERNEL_DATA_SELECTOR
abbrev pub kernel_data_selector : ℕ
kernel_data_selector = 0x10

-- `sizeof(struct tss)`, 25 words.
abbrev pub tss_size : ℕ
tss_size = 100

-- The array `gdt_structured`.
unfoldable pub gdt_structured : ℕ → List Segment
gdt_structured tss =
    segment 0x00 0x00 0x00
    ∷ segment 0x00 0xffffffff 0x9a
    ∷ segment 0x00 0xffffffff 0x92
    ∷ segment 0x00 0xffffffff 0xf8
    ∷ segment 0x00 0xffffffff 0xf2
    ∷ segment tss tss_size 0xe9
    ∷ []

-- `gdt_real` as `kernel_main` fills it.
unfoldable pub gdt_real : ℕ → Option (List Descriptor)
unfolding gdt_structured structured_to_gdt
gdt_real tss = structured_to_gdt (gdt_structured tss)
