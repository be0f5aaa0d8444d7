-- ===== src/Kernel/Segments.antt =====
-- The descriptors that the kernel loads.
use ra_os.Base.{ℕ, ◌/◌, ◌%◌, ◌≡◌, Option, List, [], ◌∷◌, get_elem?}
use ra_os.Gdt.{Segment, Descriptor}
use ra_os.Gdt.Decode.{base_of, limit_of, Fits, Encodable}

-- The descriptor reads as the segment.
pub record Describes (d : Descriptor) (s : Segment) : Type 0 where
  pub base : base_of d ≡ s.base
  pub limit : limit_of d ≡ s.limit
  pub access_type : d.byte5 ≡ s.access_type

-- A segment that a descriptor can hold.
abbrev pub IsSegment : Segment → Type 0
IsSegment s = Fits s × Encodable s.limit

-- The entries of the two lists match.
pub data Matches : List Descriptor → List Segment → Type 0 where
  none_left : Matches [] []
  next :
      (d : Descriptor) (s : Segment) (ds : List Descriptor) (ss : List Segment)
      → Describes d s
      → Matches ds ss
      → Matches (d ∷ ds) (s ∷ ss)

-- The descriptor that a selector names, by its index in the table.
abbrev pub selected : List Descriptor → ℕ → Option Descriptor
selected gdt selector = get_elem? gdt (selector / 8)

-- A present segment of the whole address space, for the privilege that the low bits of the selector ask
-- for, with code (1) or data (0) in it.
pub record IsFlat (selector code : ℕ) (d : Descriptor) : Type 0 where
  pub base : base_of d ≡ 0
  pub limit : limit_of d ≡ 0xffffffff
  pub present : d.byte5 / 128 ≡ 1
  pub privilege : d.byte5 / 32 % 4 ≡ selector % 4
  pub executable : d.byte5 / 8 % 2 ≡ code
