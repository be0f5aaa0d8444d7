-- ===== src/Gdt/Decode.antt =====
-- The descriptors read back as the processor reads them.
use ra_os.Base.{
  ℕ, ◌+◌, ◌*◌, ◌/◌, ◌%◌, ◌^◌, ◌≤◌, ◌<◌, ◌≡◌, ◌≢◌, refl, ap, ◌∙◌, ◌==◌, if◌then◌else◌, ltb, none,
  some, bit_and, bit_or, arith, ==_of_eq, Bool-cases, inl, inr, ◌⊎◌,
}
use ra_os.Base.Bits.{bit_and-mask, bit_or-parts}
use ra_os.Gdt.{Segment, Descriptor, encode_bytes, encode_entry}

pub base_of : Descriptor → ℕ
base_of d = d.byte2 + d.byte3 * 2 ^ 8 + d.byte4 * 2 ^ 16 + d.byte7 * 2 ^ 24

-- The 20 bits of the limit count bytes, or pages if the granularity bit is set.
pub limit_of : Descriptor → ℕ
limit_of d =
    let field = d.byte0 + d.byte1 * 2 ^ 8 + d.byte6 % 16 * 2 ^ 16 in
    if d.byte6 / 128 == 1 then field * 4096 + 4095 else field

-- A segment whose fields fit their types.
pub record Fits (s : Segment) : Type 0 where
  pub base_fits : s.base < 2 ^ 32
  pub limit_fits : s.limit < 2 ^ 32

-- The limits that a descriptor can hold: up to 65535 bytes, or whole pages.
abbrev pub Encodable : ℕ → Type 0
Encodable limit = (limit ≤ 65535) ⊎ (limit % 4096 ≡ 4095)

encode_bytes-base :
    (flags limit : ℕ) (s : Segment)
    → s.base < 2 ^ 32
    → base_of (encode_bytes flags limit s) ≡ s.base
unfolding encode_bytes base_of
encode_bytes-base flags limit s h = omega (
  arith,
  bit_and-mask 8 s.base 0xff refl,
  bit_and-mask 8 (s.base / 2 ^ 8) 0xff refl,
  bit_and-mask 8 (s.base / 2 ^ 16) 0xff refl,
  bit_and-mask 8 (s.base / 2 ^ 24) 0xff refl,
)

-- The byte that holds the flags, a multiple of 16, and the top of the limit.
flag_byte :
    (q limit : ℕ)
    → bit_or (q * 2 ^ 4) (bit_and (limit / 2 ^ 16) 0x0f) ≡ q * 2 ^ 4 + limit / 2 ^ 16 % 16
flag_byte q limit =
    let top = bit_and-mask 4 (limit / 2 ^ 16) 0x0f refl in
    bit_or-parts 4 q _ (omega arith) ∙ ap (λ x. q * 2 ^ 4 + x) top

encode_bytes-limit :
    (q flags limit : ℕ) (s : Segment)
    → flags ≡ q * 2 ^ 4
    → limit < 2 ^ 20
    → limit_of (encode_bytes flags limit s) ≡ (if q / 8 == 1 then limit * 4096 + 4095 else limit)
unfolding encode_bytes limit_of
encode_bytes-limit q flags limit s e h =
    let byte : bit_or flags (bit_and (limit / 2 ^ 16) 0x0f) ≡ q * 2 ^ 4 + limit / 2 ^ 16 % 16 =
      rw e (flag_byte q limit) in
    rw (byte, bit_and-mask 8 limit 0xff refl, bit_and-mask 8 (limit / 2 ^ 8) 0xff refl)
      (ground arith)

-- `encode_gdt_entry` of a segment with a 32-bit base and limit, whose limit is at most 65535 or
-- ends a page, gives a descriptor that the processor reads as the same base, limit and type.
pub encode_entry-decode :
    (s : Segment)
    → Fits s
    → Encodable s.limit
    → (d : Descriptor) × (encode_entry s ≡ some d)
      × (base_of d ≡ s.base)
      × (limit_of d ≡ s.limit)
      × (d.byte5 ≡ s.access_type)
unfolding encode_entry
encode_entry-decode s f e = elim (Bool-cases (ltb 65535 s.limit)) [
  | inl pages ↦ (
    encode_bytes 0xc0 (s.limit / 2 ^ 12) s,
    rw (pages, bit_and-mask 12 s.limit 0xfff refl, ==_of_eq (s.limit % 4096) 0xfff (ground arith))
        refl,
    encode_bytes-base 0xc0 (s.limit / 2 ^ 12) s f.base_fits,
    encode_bytes-limit 12 0xc0 (s.limit / 2 ^ 12) s refl (omega (arith, f.limit_fits))
        ∙ ground arith,
    refl,
  )
  | inr bytes ↦ (
    encode_bytes 0x40 s.limit s,
    rw bytes refl,
    encode_bytes-base 0x40 s.limit s f.base_fits,
    encode_bytes-limit 4 0x40 s.limit s refl (ground arith),
    refl,
  )
]

-- `encode_gdt_entry` panics on a limit above 65535 that does not end a page.
pub encode_entry-panic :
    (s : Segment) → 65535 < s.limit → s.limit % 4096 ≢ 4095 → encode_entry s ≡ none
unfolding encode_entry
encode_entry-panic s h k = ground (arith, bit_and-mask 12 s.limit 0xfff refl)
