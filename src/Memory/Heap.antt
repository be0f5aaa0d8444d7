-- ===== src/Memory/Heap.antt =====
-- src/memory/heap/heap.c: the block allocator. Each byte of the table describes one block of 4096
-- bytes. The table is the list of its entries, whose length is the field `total`; `none` is an
-- access outside of the table.
pub mod Search
pub mod FirstFit
pub mod Chunks
pub mod Marks
pub mod Alloc
pub mod Rounding
pub mod Life
mod Tests
use Prim.Native.Nat.{bit_and, bit_or}
use ra_os.Base.{
  ℕ, zero, suc, ◌+◌, ◌-◌, ◌*◌, ◌/◌, ◌%◌, ◌^◌, ◌==◌, if◌then◌else◌, ltb, Bool, true, false, ◌&&◌,
  Option, none, some, List, [], ◌∷◌, ◌++◌, length, take, drop, ◌>>=◌, store, Result, ok, err,
  einvarg, enomem,
}
use ra_os.Base.Int.{ℤ, pos, negsuc}
use ra_os.Memory.{memset}

-- Entry values, and the bits that join them.
abbrev pub entry_taken : ℕ
entry_taken = 0x01

abbrev pub entry_free : ℕ
entry_free = 0x00

abbrev pub has_next : ℕ
has_next = 0b10000000

abbrev pub is_first : ℕ
is_first = 0b01000000

-- RAOS_HEAP_BLOCK_SIZE
abbrev pub block_size : ℕ
block_size = 4096

abbrev pub HeapTable : Type 0
HeapTable = List ℕ

pub record HeapState : Type 0 where
  pub table : HeapTable
  pub saddr : ℕ

unfoldable pub validate_alignment : ℕ → Bool
validate_alignment ptr = ptr % block_size == 0

-- `(size_t)(end - ptr)` wraps at 2^32.
unfoldable pub validate_table : ℕ → ℕ → HeapTable → Result (Unit {0})
validate_table ptr end table =
    if length table == (end + 2 ^ 32 - ptr) % 2 ^ 32 / block_size then ok tt else err einvarg

-- The heap is filled in before the table is validated, and the entries are cleared only after.
unfoldable pub create : HeapState → ℕ → ℕ → HeapTable → Option (Result (Unit {0}) × HeapState)
unfolding validate_alignment validate_table
create heap ptr end table =
    if validate_alignment ptr && validate_alignment end
    then elim (validate_table ptr end table) [
      | err e ↦ some (err e, record { table = table; saddr = ptr })
      | ok _ ↦ do
        cleared ← memset table entry_free (length table)
        some (ok tt, record { table = cleared; saddr = ptr })
    ]
    else some (err einvarg, heap)

unfoldable pub round_value_to_upper : ℕ → ℕ
round_value_to_upper val =
    if val % block_size == 0 then val else (val - val % block_size + block_size) % 2 ^ 32

unfoldable pub get_entry_type : ℕ → ℕ
get_entry_type entry = bit_and entry 0x0f

unfoldable pub is_free : ℕ → Bool
unfolding get_entry_type
is_free entry = get_entry_type entry == entry_free

-- The loop of `heap_get_start_block` from index `i` on, over the entries that are left: `bc` blocks
-- have been counted, from block `bs` on (`none` for -1).
unfoldable pub start_block_loop : List ℕ → ℕ → ℕ → Option ℕ → ℕ → Option ℕ
start_block_loop [] i bc bs total_blocks = bs
start_block_loop (entry ∷ entries) i bc bs total_blocks = elim (is_free entry) [
  | false ↦ start_block_loop entries (i + 1) 0 none total_blocks
  | true ↦
      let first : Option ℕ = elim bs [ none ↦ some i | some b ↦ some b ] in
      elim (bc + 1 == total_blocks) [
        | true ↦ first
        | false ↦ start_block_loop entries (i + 1) (bc + 1) first total_blocks
      ]
]

unfoldable pub get_start_block : HeapTable → ℕ → Result ℕ
unfolding start_block_loop
get_start_block table total_blocks = elim (start_block_loop table 0 0 none total_blocks) [
  | none ↦ err enomem
  | some bs ↦ ok bs
]

unfoldable pub block_to_address : HeapState → ℕ → ℕ
block_to_address heap block_idx = heap.saddr + block_idx * block_size

-- `rounds` rounds of the loop of `heap_mark_blocks_taken` are left, up to `end_block`.
unfoldable pub mark_loop : ℕ → HeapTable → ℕ → ℕ → ℕ → Option HeapTable
mark_loop zero table i end_block entry = some table
mark_loop (suc rounds) table i end_block entry = do
  table' ← store table i entry
  mark_loop rounds table' (i + 1) end_block
      (if i + 1 == end_block then entry_taken else bit_or entry_taken has_next)

unfoldable pub mark_blocks_taken : HeapTable → ℕ → ℕ → Option HeapTable
unfolding mark_loop
mark_blocks_taken table start_block total_block =
    mark_loop total_block table start_block (start_block + total_block - 1) (
      if ltb 1 total_block
      then bit_or (bit_or entry_taken is_first) has_next
      else bit_or entry_taken is_first)

-- The address is `none` for NULL.
unfoldable pub malloc_blocks : HeapState → ℕ → Option (Option ℕ × HeapState)
unfolding get_start_block block_to_address mark_blocks_taken
malloc_blocks heap total_blocks = elim (get_start_block heap.table total_blocks) [
  | err e ↦ some (none, heap)
  | ok start_block ↦ do
    table ← mark_blocks_taken heap.table start_block total_blocks
    some (some (block_to_address heap start_block), record heap { table = table })
]

unfoldable pub malloc : HeapState → ℕ → Option (Option ℕ × HeapState)
unfolding round_value_to_upper malloc_blocks
malloc heap size = malloc_blocks heap (round_value_to_upper size / block_size)

-- `(int)(address - saddr) / 4096`: the difference wraps at 2^32, is read as signed, and is divided
-- with truncation towards zero.
unfoldable pub signed_block : ℕ → ℤ
signed_block difference =
    if ltb difference (2 ^ 31)
    then pos (difference / block_size)
    else if ltb (2 ^ 32 - difference) block_size
    then pos 0
    else negsuc ((2 ^ 32 - difference) / block_size - 1)

unfoldable pub address_to_block : HeapState → ℕ → ℤ
unfolding signed_block
address_to_block heap address = signed_block ((address + 2 ^ 32 - heap.saddr) % 2 ^ 32)

-- The loop of `heap_mark_block_free` over the entries from the start block on.
unfoldable pub free_loop : List ℕ → List ℕ
free_loop [] = []
free_loop (entry ∷ entries) =
    entry_free ∷ (if bit_and entry has_next == 0 then entries else free_loop entries)

-- A negative block number lies before the table.
unfoldable pub mark_block_free : HeapTable → ℤ → Option HeapTable
unfolding free_loop
mark_block_free table (pos start_block) =
    some (take start_block table ++ free_loop (drop start_block table))
mark_block_free table (negsuc n) = none

unfoldable pub free : HeapState → ℕ → Option HeapState
unfolding address_to_block mark_block_free
free heap ptr = do
  table ← mark_block_free heap.table (address_to_block heap ptr)
  some (record heap { table = table })
