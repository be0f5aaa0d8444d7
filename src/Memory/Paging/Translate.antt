-- ===== src/Memory/Paging/Translate.antt =====
-- `paging_map` and `paging_get_physical_address`: the translation of addresses.
use ra_os.Base.{
  ℕ, ◌+◌, ◌-◌, ◌*◌, ◌/◌, ◌%◌, ◌^◌, ◌≤◌, ◌<◌, ◌≡◌, refl, ◌≢◌, sym, ap, ◌∙◌, ◌==◌, if◌then◌else◌,
  arith, ◌⊎◌, ==_of_eq, ok, err, einvarg, bit_and,
}
use ra_os.Base.Bits.{bit_and-page, bit_or-flags}
use ra_os.Memory.Paging.{
  Ram, page_size, get, set, map, align_address, align_to_lower_page, get_physical_address, add32,
}
use ra_os.Memory.Paging.Entries.{IsDirectory, get-set}

-- The entry that `paging_map` stores for a physical page.
abbrev pub entry_of : ℕ → ℕ → ℕ
entry_of phys flags = phys + flags

pub map-set :
    (ram : Ram) (directory virt phys flags : ℕ)
    → virt % page_size ≡ 0
    → phys % page_size ≡ 0
    → flags < page_size
    → map ram directory virt phys flags ≡ set ram directory virt (entry_of phys flags)
unfolding map
map-set ram directory virt phys flags h k f =
    rw
      (
        ==_of_eq (virt % page_size) 0 h,
        ==_of_eq (phys % page_size) 0 k,
        bit_or-flags phys flags k f,
      )
      refl

-- In a directory whose tables are pages apart, `paging_map` of aligned addresses with flags
-- below 4096 succeeds, maps the page with its flags and leaves every other page mapped as it
-- was.
pub map-get :
    (ram : Ram) (directory virt phys flags other : ℕ)
    → IsDirectory ram directory
    → virt % page_size ≡ 0
    → virt < 2 ^ 32
    → phys % page_size ≡ 0
    → flags < page_size
    → other % page_size ≡ 0
    → other < 2 ^ 32
    → (ram' : Ram) × (map ram directory virt phys flags ≡ ok ram')
      × IsDirectory ram' directory
      × (get ram' directory other
          ≡ (if other == virt then entry_of phys flags else get ram directory other))
map-get ram directory virt phys flags other v h k p f o q =
    let (ram', done, valid, read) =
      get-set ram directory virt (entry_of phys flags) other v h k o q in
    (ram', map-set ram directory virt phys flags h p f ∙ done, valid, read)

-- `paging_map` refuses an address that is not aligned, virtual or physical.
pub map-unaligned :
    (ram : Ram) (directory virt phys flags : ℕ)
    → (virt % page_size ≢ 0) ⊎ (phys % page_size ≢ 0)
    → map ram directory virt phys flags ≡ err einvarg
unfolding map
map-unaligned ram directory virt phys flags h = ground arith

-- An address is translated to the physical page of its entry, at the same offset.
pub get_physical_address-get :
    (ram : Ram) (directory virt : ℕ)
    → virt < 2 ^ 32
    → get ram directory (virt / page_size * page_size) < 2 ^ 32
    → get_physical_address ram directory virt
      ≡ get ram directory (virt / page_size * page_size) / page_size * page_size + virt % page_size
unfolding get_physical_address align_to_lower_page
get_physical_address-get ram directory virt h k =
    let lower : virt - virt % page_size ≡ virt / page_size * page_size = omega arith in
    ap (λ a. add32 (bit_and (get ram directory a) 0xfffff000) (virt - a)) lower
    ∙ ap (λ w. add32 w (virt - virt / page_size * page_size)) (bit_and-page _ k)
    ∙ omega arith

-- After `paging_map` of aligned 32-bit addresses with flags below 4096, in a directory whose
-- tables are pages apart, every address of the mapped page is translated to the same offset in
-- the physical page.
pub get_physical_address-map :
    (ram ram' : Ram) (directory virt phys flags offset : ℕ)
    → IsDirectory ram directory
    → virt % page_size ≡ 0
    → virt < 2 ^ 32
    → phys % page_size ≡ 0
    → phys < 2 ^ 32
    → flags < page_size
    → offset < page_size
    → map ram directory virt phys flags ≡ ok ram'
    → get_physical_address ram' directory (virt + offset) ≡ phys + offset
get_physical_address-map ram ram' directory virt phys flags offset v h k p q f o e =
    let (after, done, _, read) = map-get ram directory virt phys flags virt v h k p f h k in
    let same : after ≡ ram' = let both = sym done ∙ e in cc in
    let page : (virt + offset) / page_size * page_size ≡ virt = omega arith in
    let entry : get ram' directory ((virt + offset) / page_size * page_size) ≡ entry_of phys flags =
      ap (get ram' directory) page
      ∙ ap (λ m. get m directory virt) (sym same)
      ∙ read
      ∙ rw (==_of_eq virt virt refl) refl in
    get_physical_address-get ram' directory (virt + offset) (omega arith) (rw entry (omega arith))
    ∙ ap (λ w. w / page_size * page_size + (virt + offset) % page_size) entry
    ∙ omega arith

-- `paging_align_address` gives the least aligned address that is not below, if that fits 32 bits, and
-- `paging_align_to_lower_page` the greatest one that is not above.
pub align_bounds :
    (addr : ℕ)
    → addr ≤ 2 ^ 32 - page_size
    → (align_address addr % page_size ≡ 0)
      × (addr ≤ align_address addr)
      × (align_address addr < addr + page_size)
      × (align_to_lower_page addr % page_size ≡ 0)
      × (align_to_lower_page addr ≤ addr)
      × (addr < align_to_lower_page addr + page_size)
unfolding align_address align_to_lower_page
align_bounds addr h = ground arith
