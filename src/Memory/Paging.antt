-- ===== src/Memory/Paging.antt =====
-- src/memory/paging/paging.c: page directories and tables in physical memory. Memory is a function
-- from the address of a 32-bit word to the word. A directory is the address of its first entry.
pub mod Entries
pub mod Translate
pub mod Range
pub mod Identity
pub mod Release
mod Tests
use ra_os.Base.{
  ℕ, zero, suc, ◌+◌, ◌-◌, ◌*◌, ◌/◌, ◌%◌, ◌^◌, ◌==◌, if◌then◌else◌, ltb, Bool, not, ◌||◌, List,
  Result, ok, err, einvarg, bit_and, bit_or,
}

abbrev pub Ram : Type 0
Ram = ℕ → ℕ

-- `*address = value`
abbrev pub write : Ram → ℕ → ℕ → Ram
write ram address value a = if a == address then value else ram a

-- PAGING_PAGE_SIZE and PAGING_TOTAL_ENTRIES_PER_TABLE
abbrev pub page_size : ℕ
page_size = 4096

abbrev pub entries_per_table : ℕ
entries_per_table = 1024

abbrev pub is_writable : ℕ
is_writable = 0b00000010

-- 32-bit addition.
abbrev pub add32 : ℕ → ℕ → ℕ
add32 a b = (a + b) % 2 ^ 32

unfoldable pub is_aligned : ℕ → Bool
is_aligned addr = addr % page_size == 0

-- The directory index and the table index of an address.
unfoldable pub get_index : ℕ → Result (ℕ × ℕ)
unfolding is_aligned
get_index virtual_address =
    if is_aligned virtual_address
    then ok (
      virtual_address / (entries_per_table * page_size),
      virtual_address % (entries_per_table * page_size) / page_size,
    )
    else err einvarg

-- The indices stay 0 when `paging_get_index` refuses the address.
abbrev pub indices : Result (ℕ × ℕ) → ℕ × ℕ
indices (ok (d, t)) = (d, t)
indices (err e) = (0, 0)

-- The address of the entry that directory entry `d` and table index `t` lead to.
unfoldable pub entry_address : Ram → ℕ → ℕ × ℕ → ℕ
entry_address ram directory (d, t) = bit_and (ram (directory + 4 * d)) 0xfffff000 + 4 * t

unfoldable pub get : Ram → ℕ → ℕ → ℕ
unfolding get_index entry_address
get ram directory virt = ram (entry_address ram directory (indices (get_index virt)))

unfoldable pub set : Ram → ℕ → ℕ → ℕ → Result Ram
unfolding is_aligned get_index entry_address
set ram directory virt physic =
    if is_aligned virt
    then elim (get_index virt) [
      | err e ↦ err e
      | ok at ↦ ok (write ram (entry_address ram directory at) physic)
    ]
    else err einvarg

-- `if (x % PAGING_PAGE_SIZE)` holds when the address is not aligned.
unfoldable pub map : Ram → ℕ → ℕ → ℕ → ℕ → Result Ram
unfolding set
map ram directory virt phys flags =
    if not (virt % page_size == 0) || not (phys % page_size == 0)
    then err einvarg
    else set ram directory virt (bit_or phys flags)

-- The result and the memory, which keeps the pages that were mapped before an error.
unfoldable pub map_range : ℕ → Ram → ℕ → ℕ → ℕ → ℕ → Result (Unit {0}) × Ram
unfolding map
map_range zero ram directory virt phys flags = (ok tt, ram)
map_range (suc count) ram directory virt phys flags = elim (map ram directory virt phys flags) [
  | err e ↦ (err e, ram)
  | ok ram' ↦ map_range count ram' directory (add32 virt page_size) (add32 phys page_size) flags
]

unfoldable pub map_to : Ram → ℕ → ℕ → ℕ → ℕ → ℕ → Result (Unit {0}) × Ram
unfolding map_range
map_to ram directory virt phys phys_end flags =
    if not (virt % page_size == 0)
    then (err einvarg, ram)
    else if not (phys % page_size == 0)
    then (err einvarg, ram)
    else if not (phys_end % page_size == 0)
    then (err einvarg, ram)
    else if ltb phys_end phys
    then (err einvarg, ram)
    else map_range ((phys_end - phys) / page_size) ram directory virt phys flags

unfoldable pub align_address : ℕ → ℕ
align_address ptr =
    if ptr % page_size == 0 then ptr else (ptr + page_size - ptr % page_size) % 2 ^ 32

unfoldable pub align_to_lower_page : ℕ → ℕ
align_to_lower_page addr = addr - addr % page_size

unfoldable pub get_physical_address : Ram → ℕ → ℕ → ℕ
unfolding align_to_lower_page
get_physical_address ram directory virt =
    let virt_addr_new = align_to_lower_page virt in
    let difference = virt - virt_addr_new in
    add32 (bit_and (get ram directory virt_addr_new) 0xfffff000) difference

-- The inner loop of `paging_new_4gb`: `rounds` entries of the table are left, from index `pi` on.
unfoldable pub fill_table : ℕ → Ram → ℕ → ℕ → ℕ → ℕ → Ram
fill_table zero ram entry offset pi flags = ram
fill_table (suc rounds) ram entry offset pi flags =
    fill_table rounds (write ram (entry + 4 * pi) (bit_or (add32 offset (pi * page_size)) flags))
      entry offset (pi + 1) flags

-- The outer loop. The tables are what the calls of `kzalloc` return, by their number.
unfoldable pub fill_directory : ℕ → Ram → ℕ → (ℕ → ℕ) → ℕ → ℕ → ℕ → Ram
unfolding fill_table
fill_directory zero ram directory table i offset flags = ram
fill_directory (suc rounds) ram directory table i offset flags =
    let ram' = fill_table entries_per_table ram (table i) offset 0 flags in
    fill_directory rounds
      (write ram' (directory + 4 * i) (bit_or (bit_or (table i) flags) is_writable)) directory table
      (i + 1) (add32 offset (entries_per_table * page_size)) flags

-- The directory and the tables are fresh memory from `kzalloc`.
unfoldable pub new_4gb : Ram → ℕ → (ℕ → ℕ) → ℕ → Ram
unfolding fill_directory
new_4gb ram directory table flags = fill_directory entries_per_table ram directory table 0 0 flags
