-- ===== src/Gdt.antt =====
-- src/gdt/gdt.c: the segment descriptors in the layout of the processor.
pub mod Decode
mod Tests
use ra_os.Base.{
  ℕ, ◌/◌, ◌^◌, ◌==◌, if◌then◌else◌, ltb, Bool, not, ◌&&◌, Option, none, some, List, [], ◌∷◌, ◌>>=◌,
  bit_and, bit_or,
}

-- `struct gdt_structured`
pub record Segment : Type 0 where
  pub base : ℕ
  pub limit : ℕ
  pub access_type : ℕ

-- The eight bytes of `struct gdt`.
pub record Descriptor : Type 0 where
  pub byte0 : ℕ
  pub byte1 : ℕ
  pub byte2 : ℕ
  pub byte3 : ℕ
  pub byte4 : ℕ
  pub byte5 : ℕ
  pub byte6 : ℕ
  pub byte7 : ℕ

-- The bytes for a limit that has been scaled, and the flags of the granularity.
unfoldable pub encode_bytes : ℕ → ℕ → Segment → Descriptor
encode_bytes flags limit source = record {
  byte0 = bit_and limit 0xff;
  byte1 = bit_and (limit / 2 ^ 8) 0xff;
  byte2 = bit_and source.base 0xff;
  byte3 = bit_and (source.base / 2 ^ 8) 0xff;
  byte4 = bit_and (source.base / 2 ^ 16) 0xff;
  byte5 = source.access_type;
  byte6 = bit_or flags (bit_and (limit / 2 ^ 16) 0x0f);
  byte7 = bit_and (source.base / 2 ^ 24) 0xff;
}

-- `none` is the panic, after which nothing runs.
unfoldable pub encode_entry : Segment → Option Descriptor
unfolding encode_bytes
encode_entry source =
    if ltb 65535 source.limit && not (bit_and source.limit 0xfff == 0xfff)
    then none
    else some (
        if ltb 65535 source.limit
        then encode_bytes 0xc0 (source.limit / 2 ^ 12) source
        else encode_bytes 0x40 source.limit source)

unfoldable pub structured_to_gdt : List Segment → Option (List Descriptor)
structured_to_gdt [] = some []
structured_to_gdt (source ∷ rest) = do
  entry ← encode_entry source
  entries ← structured_to_gdt rest
  some (entry ∷ entries)
