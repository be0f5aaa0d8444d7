-- ===== src/Gdt/Tests.antt =====
-- The theorems on segment descriptors at the kernel's code segment and at a limit that is refused.
use ra_os.Base.{◌≡◌, some, arith, inr}
use ra_os.Gdt.{Segment, Descriptor, encode_entry}
use ra_os.Gdt.Decode.{base_of, limit_of, encode_entry-decode}

abbrev code_segment : Segment
code_segment = record { base = 0; limit = 0xffffffff; access_type = 0x9a }

encode_entry-decode_example :
    (d : Descriptor) × (encode_entry code_segment ≡ some d)
    × (base_of d ≡ 0)
    × (limit_of d ≡ 0xffffffff)
    × (d.byte5 ≡ 0x9a)
encode_entry-decode_example =
    encode_entry-decode code_segment (record { base_fits = omega arith; limit_fits = omega arith })
      (inr (omega arith))
