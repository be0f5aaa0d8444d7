-- ===== src/Process/Program/Whole.antt =====
-- `process_map_memory` of a binary: the program and its stack, one after the other.
use ra_os.Base.{
  ℕ, ◌+◌, ◌-◌, ◌*◌, ◌/◌, ◌%◌, ◌^◌, ◌≤◌, ◌<◌, ◌≡◌, refl, ◌∙◌, ap, leb, ltb, ◌&&◌, false, ok, arith,
  bit_and,
}
use ra_os.Memory.Paging.{
  Ram, get, map_to, align_address, align_to_lower_page, page_size, add32, get_physical_address,
}
use ra_os.Memory.Paging.Entries.{IsDirectory}
use ra_os.Memory.Paging.Translate.{align_bounds}
use ra_os.Memory.Paging.Range.{Mapped, map_to-Mapped}
use ra_os.Elf.{Bytes}
use ra_os.Process.{all_access}
use ra_os.Process.Program.{process_map_binary, map_stack, binary_data, process_map_memory}
use ra_os.Process.Program.Mapping.{
  get_physical_address-process_map_binary, get_physical_address-map_stack,
}

-- The memory after a mapping, and the pages that it has changed.
map_run :
    (ram : Ram) (directory virt ptr size : ℕ)
    → IsDirectory ram directory
    → virt % page_size ≡ 0
    → ptr % page_size ≡ 0
    → ptr + size ≤ 2 ^ 32 - page_size
    → virt + size ≤ 2 ^ 32 - page_size
    → Mapped ram
        (map_to ram directory virt ptr (align_address (add32 ptr size)) all_access).1
        directory
        virt
        ptr
        ((align_address (add32 ptr size) - ptr) / page_size)
        all_access
map_run ram directory virt ptr size valid start_aligned aligned below room =
    let whole : add32 ptr size ≡ ptr + size = omega arith in
    let (end_aligned, end_above, end_below, r1, r2, r3) = align_bounds (ptr + size) below in
    let (ram', done, mapped) =
      map_to-Mapped ram directory virt ptr (align_address (ptr + size)) all_access valid
        start_aligned aligned end_aligned (omega (arith, end_above)) (omega (arith, end_below))
        (omega (arith, end_below)) (omega arith) in
    rw (whole, done) mapped

same_page :
    (ram ram' : Ram) (directory virt : ℕ)
    → get ram' directory (align_to_lower_page virt) ≡ get ram directory (align_to_lower_page virt)
    → get_physical_address ram' directory virt ≡ get_physical_address ram directory virt
unfolding get_physical_address
same_page ram ram' directory virt e =
    ap (λ (w : ℕ). add32 (bit_and w 0xfffff000) (virt - align_to_lower_page virt)) e

outside_pages : (a b page : ℕ) → b ≤ page → (leb a page && ltb page b) ≡ false
outside_pages a b page h = ground arith

-- The mapping of the stack changes no page above it.
stack_apart :
    (ram : Ram) (directory stack virt : ℕ)
    → IsDirectory ram directory
    → stack % page_size ≡ 0
    → stack + 16384 ≤ 2 ^ 32 - page_size
    → 0x3ff000 ≤ virt
    → virt ≤ 2 ^ 32 - page_size
    → get_physical_address (map_stack ram directory stack) directory virt
      ≡ get_physical_address ram directory virt
unfolding map_stack
stack_apart ram directory stack virt valid aligned below above small =
    let mapped =
      map_run ram directory 0x3fb000 stack 16384 valid refl aligned below (omega arith) in
    let page = align_to_lower_page virt in
    let (v1, v2, v3, page_aligned, page_below, page_near) = align_bounds virt small in
    let (e1, e2, e3, r1, r2, r3) = align_bounds (stack + 16384) below in
    let whole : add32 stack 16384 ≡ stack + 16384 = omega arith in
    let same : align_address (add32 stack 16384) ≡ align_address (stack + 16384) =
      ap align_address whole in
    let count = (align_address (add32 stack 16384) - stack) / page_size in
    let four : count ≡ 4 = omega (arith, same, e1, e2, e3) in
    let missed : (leb 0x3fb000 page && ltb page (0x3fb000 + count * page_size)) ≡ false =
      outside_pages 0x3fb000 (0x3fb000 + count * page_size) page
        (omega (arith, four, page_aligned, page_near)) in
    same_page ram _ directory virt
      (mapped.pages page page_aligned (omega (arith, page_below)) ∙ rw missed refl)

binary_kept :
    (ram : Ram) (directory ptr size : ℕ)
    → IsDirectory ram directory
    → ptr % page_size ≡ 0
    → ptr + size ≤ 2 ^ 32 - page_size
    → 0x400000 + size ≤ 2 ^ 32 - page_size
    → IsDirectory (process_map_binary ram directory ptr size) directory
unfolding process_map_binary
binary_kept ram directory ptr size valid aligned below room =
    (map_run ram directory 0x400000 ptr size valid refl aligned below room).valid

-- `process_map_memory` of a binary program succeeds. Then byte `n` of the program is found at the virtual
-- address 0x400000 + n, and byte `n` of the stack at 0x3fb000 + n, when both are at a page and they and the
-- place of the program end below the last page of the address space, in a directory whose tables are pages
-- apart.
pub process_map_memory-binary_data :
    (mem : Bytes) (ram : Ram) (directory ptr size stack : ℕ)
    → IsDirectory ram directory
    → ptr % page_size ≡ 0
    → ptr + size ≤ 2 ^ 32 - page_size
    → 0x400000 + size ≤ 2 ^ 32 - page_size
    → stack % page_size ≡ 0
    → stack + 16384 ≤ 2 ^ 32 - page_size
    → (ram' : Ram) × (process_map_memory mem ram directory (binary_data ptr size) stack
        ≡ (ok tt, ram'))
      × ((n : ℕ) → n < size → get_physical_address ram' directory (0x400000 + n) ≡ ptr + n)
      × ((n : ℕ) → n < 16384 → get_physical_address ram' directory (0x3fb000 + n) ≡ stack + n)
unfolding process_map_memory
process_map_memory-binary_data mem ram directory ptr size stack valid aligned below room
      stack_aligned stack_below =
    let ram1 = process_map_binary ram directory ptr size in
    let kept : IsDirectory ram1 directory =
      binary_kept ram directory ptr size valid aligned below room in
    (
      map_stack ram1 directory stack,
      refl,
      λ n inside.
          stack_apart ram1 directory stack (0x400000 + n) kept stack_aligned stack_below
            (omega arith) (omega arith)
          ∙ get_physical_address-process_map_binary ram directory ptr size n valid aligned below
              room inside,
      λ n inside.
          get_physical_address-map_stack ram1 directory stack n kept stack_aligned stack_below
            inside,
    )
