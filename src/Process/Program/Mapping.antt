-- ===== src/Process/Program/Mapping.antt =====
-- Where a program is mapped.
use ra_os.Base.{
  ℕ, ◌+◌, ◌-◌, ◌*◌, ◌/◌, ◌%◌, ◌^◌, ◌≤◌, ◌<◌, ◌≡◌, refl, ◌∙◌, ap, leb, ltb, true, arith, lt→ltb,
}
use ra_os.Memory.Paging.{Ram, get, map_to, align_address, page_size, add32, get_physical_address}
use ra_os.Memory.Paging.Entries.{IsDirectory}
use ra_os.Memory.Paging.Translate.{align_bounds, get_physical_address-get, entry_of}
use ra_os.Memory.Paging.Range.{map_to-Mapped}
use ra_os.Process.{all_access}
use ra_os.Process.Program.{process_map_binary, map_stack}

le→leb : (a b : ℕ) → a ≤ b → leb a b ≡ true
le→leb a b h = ground arith

-- What is mapped from a page on is found there.
mapped_at :
    (ram : Ram) (directory virt ptr size n : ℕ)
    → IsDirectory ram directory
    → virt % page_size ≡ 0
    → ptr % page_size ≡ 0
    → ptr + size ≤ 2 ^ 32 - page_size
    → virt + size ≤ 2 ^ 32 - page_size
    → n < size
    → get_physical_address
        (map_to ram directory virt ptr (align_address (add32 ptr size)) all_access).1
        directory
        (virt + n)
      ≡ ptr + n
mapped_at ram directory start ptr size n valid start_aligned aligned below room inside =
    let whole : add32 ptr size ≡ ptr + size = omega arith in
    let (end_aligned, end_above, end_below, r1, r2, r3) = align_bounds (ptr + size) below in
    let (ram', done, mapped) =
      map_to-Mapped ram directory start ptr (align_address (ptr + size)) all_access valid
        start_aligned aligned end_aligned (omega (arith, end_above)) (omega (arith, end_below))
        (omega (arith, end_below)) (omega arith) in
    let virt = start + n in
    let page = virt / page_size * page_size in
    let count = (align_address (ptr + size) - ptr) / page_size in
    let lo : leb start page ≡ true = le→leb start page (omega arith) in
    let hi : ltb page (start + count * page_size) ≡ true =
      lt→ltb page (start + count * page_size) (omega (arith, end_above, end_aligned)) in
    let entry : get ram' directory page ≡ entry_of (ptr + (page - start)) all_access =
      mapped.pages page (omega arith) (omega arith) ∙ rw (lo, hi) refl in
    let ran : (map_to ram directory start ptr (align_address (add32 ptr size)) all_access).1
        ≡ ram' =
      ap (λ e. (map_to ram directory start ptr (align_address e) all_access).1) whole
      ∙ ap (λ p. p.1) done in
    ap (λ m. get_physical_address m directory virt) ran
    ∙ get_physical_address-get ram' directory virt (omega arith) (omega (arith, entry))
    ∙ omega (arith, entry)

-- Byte `n` of a binary program is found at the virtual address 0x400000 + n, when the program is at a
-- page and it and the place it is mapped to end below 4 GiB, in a directory whose tables are pages
-- apart.
pub get_physical_address-process_map_binary :
    (ram : Ram) (directory ptr size n : ℕ)
    → IsDirectory ram directory
    → ptr % page_size ≡ 0
    → ptr + size ≤ 2 ^ 32 - page_size
    → 0x400000 + size ≤ 2 ^ 32 - page_size
    → n < size
    → get_physical_address (process_map_binary ram directory ptr size) directory (0x400000 + n)
      ≡ ptr + n
unfolding process_map_binary
get_physical_address-process_map_binary ram directory ptr size n valid aligned below room inside =
    mapped_at ram directory 0x400000 ptr size n valid (omega arith) aligned below room inside

-- Byte `n` of the stack of a process is found at the virtual address 0x3fb000 + n, the last byte right
-- below 0x3ff000, when the stack is at a page and ends below the last page of the address space.
pub get_physical_address-map_stack :
    (ram : Ram) (directory stack n : ℕ)
    → IsDirectory ram directory
    → stack % page_size ≡ 0
    → stack + 16384 ≤ 2 ^ 32 - page_size
    → n < 16384
    → get_physical_address (map_stack ram directory stack) directory (0x3fb000 + n) ≡ stack + n
unfolding map_stack
get_physical_address-map_stack ram directory stack n valid aligned below inside =
    mapped_at ram directory 0x3fb000 stack 16384 n valid (omega arith) aligned below (omega arith)
      inside
