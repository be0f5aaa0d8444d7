-- ===== src/Memory/Paging/Range.antt =====
-- `paging_map_range` and `paging_map_to`: mapping runs of pages.
use ra_os.Base.{
  ℕ, zero, suc, ◌+◌, ◌-◌, ◌*◌, ◌/◌, ◌%◌, ◌^◌, ◌≤◌, ◌<◌, ◌≡◌, refl, ◌≢◌, ◌∙◌, if◌then◌else◌, ltb,
  leb, Bool, ◌&&◌, arith, ◌⊎◌, ==_of_eq, le→ltb, ok, err, einvarg,
}
use ra_os.Memory.Paging.{Ram, write, page_size, get, map, map_range, map_to, add32}
use ra_os.Memory.Paging.Entries.{IsDirectory, slot, set-slot, write-IsDirectory, get-write}
use ra_os.Memory.Paging.Translate.{map-set, entry_of}

-- The address lies in the `count` pages from `virt` on.
abbrev pub in_pages : ℕ → ℕ → ℕ → Bool
in_pages virt count other = leb virt other && ltb other (virt + count * page_size)

-- Where the run of pages is mapped, and what the directory looks like afterwards.
pub record Mapped (ram ram' : Ram) (directory virt phys count flags : ℕ) : Type 0 where
  pub valid : IsDirectory ram' directory
  pub pages :
      (other : ℕ)
      → other % page_size ≡ 0
      → other < 2 ^ 32
      → get ram' directory other ≡ (
          if in_pages virt count other
          then entry_of (phys + (other - virt)) flags
          else get ram directory other)

map_range-step :
    (count : ℕ) (ram ram' : Ram) (directory virt phys flags : ℕ)
    → map ram directory virt phys flags ≡ ok ram'
    → map_range (suc count) ram directory virt phys flags
      ≡ map_range count ram' directory (add32 virt page_size) (add32 phys page_size) flags
unfolding map_range
map_range-step count ram ram' directory virt phys flags h = rw (h, map_range) refl

-- One page, for every address at once.
map-Mapped :
    (ram : Ram) (directory virt phys flags : ℕ)
    → IsDirectory ram directory
    → virt % page_size ≡ 0
    → virt < 2 ^ 32
    → phys % page_size ≡ 0
    → flags < page_size
    → (ram' : Ram) × (map ram directory virt phys flags ≡ ok ram')
      × Mapped ram ram' directory virt phys 1 flags
map-Mapped ram directory virt phys flags v a h b f = (
  write ram (slot ram directory virt) (entry_of phys flags),
  map-set ram directory virt phys flags a b f
      ∙ set-slot ram directory v virt (entry_of phys flags) a h,
  record {
    valid = write-IsDirectory ram directory v virt (entry_of phys flags) h;
    pages = λ other o q.
        ground (arith, get-write ram directory v virt (entry_of phys flags) other a h o q);
  },
)

-- A page and the run behind it make up one run.
Mapped-more :
    (ram first last : Ram) (directory virt phys count flags : ℕ)
    → virt % page_size ≡ 0
    → virt + suc count * page_size ≤ 2 ^ 32
    → phys + suc count * page_size ≤ 2 ^ 32
    → Mapped ram first directory virt phys 1 flags
    → Mapped first last directory (add32 virt page_size) (add32 phys page_size) count flags
    → Mapped ram last directory virt phys (suc count) flags
Mapped-more ram first last directory virt phys count flags a h k one more = record {
  valid = more.valid;
  pages = λ other o q. ground (arith, one.pages other o q, more.pages other o q);
}

-- `paging_map_range` maps `count` pages from aligned addresses on to as many physical pages, and
-- leaves every other page mapped as it was, if both runs lie below 4 GiB.
pub map_range-Mapped :
    (count : ℕ) (ram : Ram) (directory virt phys flags : ℕ)
    → IsDirectory ram directory
    → virt % page_size ≡ 0
    → phys % page_size ≡ 0
    → virt + count * page_size ≤ 2 ^ 32
    → phys + count * page_size ≤ 2 ^ 32
    → flags < page_size
    → (ram' : Ram) × (map_range count ram directory virt phys flags ≡ (ok tt, ram'))
      × Mapped ram ram' directory virt phys count flags
unfolding map_range
map_range-Mapped zero ram directory virt phys flags v a b h k f =
    (ram, refl, record { valid = v; pages = λ other o q. ground arith })
map_range-Mapped (suc count) ram directory virt phys flags v a b h k f =
    let (first, done, one) = map-Mapped ram directory virt phys flags v a (omega arith) b f in
    let (last, rest, more) =
      map_range-Mapped count first directory (add32 virt page_size) (add32 phys page_size) flags
        one.valid (omega arith) (omega arith) (omega arith) (omega arith) f in
    (
      last,
      map_range-step count ram first directory virt phys flags done ∙ rest,
      Mapped-more ram first last directory virt phys count flags a h k one more,
    )

-- In a directory whose tables are pages apart, `paging_map_to` maps the physical range from
-- `phys` to `phys_end`, page by page, from `virt` on, and leaves every other page as it was,
-- when all three are aligned, the ranges lie below 4 GiB and the flags are below 4096.
pub map_to-Mapped :
    (ram : Ram) (directory virt phys phys_end flags : ℕ)
    → IsDirectory ram directory
    → virt % page_size ≡ 0
    → phys % page_size ≡ 0
    → phys_end % page_size ≡ 0
    → phys ≤ phys_end
    → phys_end ≤ 2 ^ 32
    → virt + (phys_end - phys) ≤ 2 ^ 32
    → flags < page_size
    → (ram' : Ram) × (map_to ram directory virt phys phys_end flags ≡ (ok tt, ram'))
      × Mapped ram ram' directory virt phys ((phys_end - phys) / page_size) flags
unfolding map_to
map_to-Mapped ram directory virt phys phys_end flags v a b c h k l f =
    let (ram', done, mapped) =
      map_range-Mapped ((phys_end - phys) / page_size) ram directory virt phys flags v a b
        (omega arith) (omega arith) f in
    (
      ram',
      rw
          (
            ==_of_eq (virt % page_size) 0 a,
            ==_of_eq (phys % page_size) 0 b,
            ==_of_eq (phys_end % page_size) 0 c,
            le→ltb phys_end phys h,
          )
          done,
      mapped,
    )

-- `paging_map_to` refuses bounds that are not aligned, and an end below the start, and maps nothing.
pub map_to-einvarg :
    (ram : Ram) (directory virt phys phys_end flags : ℕ)
    → (virt % page_size ≢ 0)
      ⊎ (phys % page_size ≢ 0)
      ⊎ (phys_end % page_size ≢ 0)
      ⊎ (phys_end < phys)
    → map_to ram directory virt phys phys_end flags ≡ (err einvarg, ram)
unfolding map_to
map_to-einvarg ram directory virt phys phys_end flags h = ground arith
