-- ===== src/Memory/Paging/Tests.antt =====
-- The theorems of the paging code at a directory at address 0, whose table number `d` is the page
-- `d + 1`.
use ra_os.Base.{◌+◌, ◌-◌, ◌*◌, ◌/◌, ◌≡◌, arith, ok}
use native.Mathlib.Decide.{ℕ_discrete}
use ra_os.Memory.Paging.{Ram, page_size, get, map, map_to, get_physical_address, new_4gb}
use ra_os.Memory.Paging.Entries.{IsDirectory}
use ra_os.Memory.Paging.Translate.{map-get, get_physical_address-map}
use ra_os.Memory.Paging.Identity.{ArePages, new_4gb-identity}
use ra_os.Memory.Paging.Range.{Mapped, map_to-Mapped}

abbrev test_ram : Ram
test_ram address = (address / 4 + 1) * page_size

test_ram-IsDirectory : IsDirectory test_ram 0
test_ram-IsDirectory = record {
  aligned = omega arith;
  words = λ d h. omega arith;
  apart = λ d h. omega arith;
  distinct = λ d e h k n. omega arith;
}

mapped_page :
    (ram' : Ram) × (map test_ram 0 0x400000 0x9000 7 ≡ ok ram')
    × IsDirectory ram' 0
    × (get ram' 0 0x400000 ≡ 0x9007)
unfolding ℕ_discrete
mapped_page =
    map-get test_ram 0 0x400000 0x9000 7 0x400000 test_ram-IsDirectory (omega arith) (omega arith)
      (omega arith) (omega arith) (omega arith) (omega arith)

get_physical_address-map_example :
    get_physical_address mapped_page.0 0 (0x400000 + 0x123) ≡ 0x9000 + 0x123
get_physical_address-map_example =
    get_physical_address-map test_ram mapped_page.0 0 0x400000 0x9000 7 0x123 test_ram-IsDirectory
      (omega arith) (omega arith) (omega arith) (omega arith) (omega arith) (omega arith)
      mapped_page.1

map_to-Mapped_example :
    (ram' : Ram) × (map_to test_ram 0 0x400000 0x9000 0xb000 7 ≡ (ok tt, ram'))
    × Mapped test_ram ram' 0 0x400000 0x9000 ((0xb000 - 0x9000) / page_size) 7
map_to-Mapped_example =
    map_to-Mapped test_ram 0 0x400000 0x9000 0xb000 7 test_ram-IsDirectory (omega arith)
      (omega arith) (omega arith) (omega arith) (omega arith) (omega arith) (omega arith)

test_pages : ArePages 0 (λ d. (d + 1) * page_size)
test_pages = record {
  directory_aligned = omega arith;
  aligned = λ d h. omega arith;
  below = λ d h. omega arith;
  apart = λ d h. omega arith;
  distinct = λ d e h k n. omega arith;
}

new_4gb-identity_example :
    let ram' = new_4gb test_ram 0 (λ d. (d + 1) * page_size) 5 in
    IsDirectory ram' 0
    × (get ram' 0 0x400000 ≡ 0x400005)
    × (get_physical_address ram' 0 0x400123 ≡ 0x400123)
new_4gb-identity_example =
    new_4gb-identity test_ram 0 (λ d. (d + 1) * page_size) 5 0x400123 test_pages (omega arith)
      (omega arith)
