-- ===== src/Memory/Paging/Entries.antt =====
-- Reading and writing entries of the page tables, in a directory whose tables are apart.
use ra_os.Base.{
  ℕ, ◌+◌, ◌*◌, ◌/◌, ◌%◌, ◌^◌, ◌<◌, ◌≡◌, refl, ◌≢◌, sym, ap, ◌∙◌, ◌==◌, if◌then◌else◌, arith,
  ==_of_ne, ==_of_eq, ok, err, einvarg,
}
use native.Mathlib.Decide.{ℕ_discrete}
use ra_os.Base.Bits.{bit_and-page}
use ra_os.Memory.Paging.{
  Ram, write, page_size, is_aligned, get_index, indices, entry_address, get, set, entries_per_table,
}

-- The page that a directory entry points to.
abbrev pub table_of : Ram → ℕ → ℕ → ℕ
table_of ram directory d = ram (directory + 4 * d) / page_size * page_size

-- The directory is a page, its entries are words, and its 1024 tables are pages apart from it and
-- from one another.
pub record IsDirectory (ram : Ram) (directory : ℕ) : Type 0 where
  pub aligned : directory % page_size ≡ 0
  pub words : (d : ℕ) → d < entries_per_table → ram (directory + 4 * d) < 2 ^ 32
  pub apart : (d : ℕ) → d < entries_per_table → table_of ram directory d ≢ directory
  pub distinct :
      (d e : ℕ)
      → d < entries_per_table
      → e < entries_per_table
      → d ≢ e
      → table_of ram directory d ≢ table_of ram directory e

-- The indices of an aligned address.
abbrev pub dir_index : ℕ → ℕ
dir_index virt = virt / (entries_per_table * page_size)

abbrev pub table_index : ℕ → ℕ
table_index virt = virt % (entries_per_table * page_size) / page_size

-- The address of the entry of an aligned address.
abbrev pub slot : Ram → ℕ → ℕ → ℕ
slot ram directory virt = table_of ram directory (dir_index virt) + 4 * table_index virt

get_index-ok :
    (virt : ℕ) → virt % page_size ≡ 0 → get_index virt ≡ ok (dir_index virt, table_index virt)
unfolding get_index
get_index-ok virt h = rw (==_of_eq (virt % page_size) 0 h, is_aligned) refl

module _ (ram : Ram) (directory : ℕ) (v : IsDirectory ram directory) where
  entry_address-slot :
      (virt : ℕ)
      → virt < 2 ^ 32
      → entry_address ram directory (dir_index virt, table_index virt) ≡ slot ram directory virt
  unfolding entry_address
  entry_address-slot virt h =
      ap (λ page. page + 4 * table_index virt)
        (bit_and-page (ram (directory + 4 * dir_index virt))
          (v.words (dir_index virt) (omega arith)))

  pub get-slot :
      (virt : ℕ)
      → virt % page_size ≡ 0
      → virt < 2 ^ 32
      → get ram directory virt ≡ ram (slot ram directory virt)
  unfolding get
  get-slot virt h k =
      ap (λ r. ram (entry_address ram directory (indices r))) (get_index-ok virt h)
      ∙ ap ram (entry_address-slot virt k)

  pub set-slot :
      (virt value : ℕ)
      → virt % page_size ≡ 0
      → virt < 2 ^ 32
      → set ram directory virt value ≡ ok (write ram (slot ram directory virt) value)
  unfolding set
  set-slot virt value h k =
      rw (==_of_eq (virt % page_size) 0 h)
        (ap (λ a. ok (write ram a value)) (entry_address-slot virt k))

  -- Different pages have different entries.
  slot-ne :
      (virt other : ℕ)
      → virt % page_size ≡ 0
      → other % page_size ≡ 0
      → virt < 2 ^ 32
      → other < 2 ^ 32
      → virt ≢ other
      → slot ram directory virt ≢ slot ram directory other
  slot-ne virt other h k p q ne e = elim (ℕ_discrete (dir_index virt) (dir_index other)) [
    | yes same ↦ ne (omega (arith, ap (λ d. table_of ram directory d) same))
    | no differ ↦
        v.distinct (dir_index virt) (dir_index other) (omega arith) (omega arith) differ
          (omega arith)
  ]

  -- No entry lies in the directory itself.
  slot-outside :
      (virt d : ℕ)
      → virt < 2 ^ 32
      → d < entries_per_table
      → directory + 4 * d ≢ slot ram directory virt
  slot-outside virt d h k e = v.apart (dir_index virt) (omega arith) (omega (arith, v.aligned))

  -- A write to an entry leaves the directory alone.
  write-directory :
      (virt value d : ℕ)
      → virt < 2 ^ 32
      → d < entries_per_table
      → write ram (slot ram directory virt) value (directory + 4 * d) ≡ ram (directory + 4 * d)
  write-directory virt value d h k =
      rw (==_of_ne (directory + 4 * d) (slot ram directory virt) (slot-outside virt d h k)) refl

  write-table :
      (virt value d : ℕ)
      → virt < 2 ^ 32
      → d < entries_per_table
      → table_of (write ram (slot ram directory virt) value) directory d ≡ table_of ram directory d
  write-table virt value d h k =
      ap (λ word. word / page_size * page_size) (write-directory virt value d h k)

  pub write-IsDirectory :
      (virt value : ℕ)
      → virt < 2 ^ 32
      → IsDirectory (write ram (slot ram directory virt) value) directory
  write-IsDirectory virt value h = record {
    aligned = v.aligned;
    words = λ d k. rw (write-directory virt value d h k) (v.words d k);
    apart = λ d k e. v.apart d k (sym (write-table virt value d h k) ∙ e);
    distinct = λ d e k l ne same.
        v.distinct d e k l ne
          (sym (write-table virt value d h k) ∙ same ∙ write-table virt value e h l);
  }

  pub write-slot :
      (virt value other : ℕ)
      → virt < 2 ^ 32
      → other < 2 ^ 32
      → slot (write ram (slot ram directory virt) value) directory other ≡ slot ram directory other
  write-slot virt value other h k =
      ap (λ page. page + 4 * table_index other)
        (write-table virt value (dir_index other) h (omega arith))

pub get-write :
    (ram : Ram) (directory : ℕ)
    → IsDirectory ram directory
    → (virt value other : ℕ) → virt % page_size ≡ 0
    → virt < 2 ^ 32
    → other % page_size ≡ 0
    → other < 2 ^ 32
    → get (write ram (slot ram directory virt) value) directory other
      ≡ (if other == virt then value else get ram directory other)
get-write ram directory v virt value other h k p q =
    let ram' = write ram (slot ram directory virt) value in
    let found =
      get-slot ram' directory (write-IsDirectory ram directory v virt value k) other p q
      ∙ ap ram' (write-slot ram directory v virt value other k q) in
    elim (ℕ_discrete other virt) [
      | yes same ↦ rw (==_of_eq other virt same) (
          found
          ∙ rw
              (==_of_eq (slot ram directory other) (slot ram directory virt)
                (ap (slot ram directory) same))
              refl)
      | no differ ↦
          rw (==_of_ne other virt differ, get-slot ram directory v other p q)
            (found
              ∙ rw
                  (==_of_ne (slot ram directory other) (slot ram directory virt)
                    (slot-ne ram directory v other virt p h q k differ))
                  refl)
    ]

-- In a directory whose tables are pages apart, `paging_set` of an aligned 32-bit address
-- succeeds and keeps the tables apart; afterwards `paging_get` reads the new entry for that page
-- and the old entry for every other page.
pub get-set :
    (ram : Ram) (directory virt value other : ℕ)
    → IsDirectory ram directory
    → virt % page_size ≡ 0
    → virt < 2 ^ 32
    → other % page_size ≡ 0
    → other < 2 ^ 32
    → (ram' : Ram) × (set ram directory virt value ≡ ok ram')
      × IsDirectory ram' directory
      × (get ram' directory other ≡ (if other == virt then value else get ram directory other))
get-set ram directory virt value other v h k p q = (
  write ram (slot ram directory virt) value,
  set-slot ram directory v virt value h k,
  write-IsDirectory ram directory v virt value k,
  get-write ram directory v virt value other h k p q,
)

-- An address that is not aligned is refused.
pub set-unaligned :
    (ram : Ram) (directory virt value : ℕ)
    → virt % page_size ≢ 0
    → set ram directory virt value ≡ err einvarg
unfolding set
set-unaligned ram directory virt value h = rw (==_of_ne (virt % page_size) 0 h) refl
