-- ===== src/Memory/Paging/Identity.antt =====
-- `paging_new_4gb` maps every page to itself.
use ra_os.Base.{
  ℕ, zero, suc, ◌+◌, ◌*◌, ◌/◌, ◌%◌, ◌^◌, ◌≤◌, ◌<◌, ◌≡◌, refl, ◌≢◌, sym, ap, ◌∙◌, ◌==◌, arith,
  ==_of_eq, ==_of_ne, bit_or, Bool-cases, eq_of_==, inl, inr, tests,
}
use ra_os.Base.Bits.{bit_or-flags, bit_or-two}
use ra_os.Memory.Paging.{
  Ram, page_size, entries_per_table, is_writable, get, add32, fill_table, fill_directory, new_4gb,
  get_physical_address,
}
use ra_os.Memory.Paging.Entries.{IsDirectory, table_of, get-slot}
use ra_os.Memory.Paging.Translate.{get_physical_address-get}

-- The pages that the calls of `kzalloc` give: page-aligned, below 4 GiB, and apart.
pub record ArePages (directory : ℕ) (table : ℕ → ℕ) : Type 0 where
  pub directory_aligned : directory % page_size ≡ 0
  pub aligned : (d : ℕ) → d < entries_per_table → table d % page_size ≡ 0
  pub below : (d : ℕ) → d < entries_per_table → table d < 2 ^ 32
  pub apart : (d : ℕ) → d < entries_per_table → table d ≢ directory
  pub distinct :
      (d e : ℕ) → d < entries_per_table → e < entries_per_table → d ≢ e → table d ≢ table e

-- What the inner loop writes, and what it does not.
fill_table-outside :
    (rounds : ℕ) (ram : Ram) (entry offset pi flags a : ℕ)
    → ((j : ℕ) → pi ≤ j → j < pi + rounds → a ≢ entry + 4 * j)
    → fill_table rounds ram entry offset pi flags a ≡ ram a
unfolding fill_table
fill_table-outside zero ram entry offset pi flags a out = refl
fill_table-outside (suc rounds) ram entry offset pi flags a out =
    fill_table-outside rounds _ entry offset (pi + 1) flags a
      (λ j lo hi. out j (omega arith) (omega arith))
    ∙ rw (==_of_ne a (entry + 4 * pi) (out pi (omega arith) (omega arith))) refl

fill_table-inside :
    (rounds : ℕ) (ram : Ram) (entry offset pi flags j : ℕ)
    → pi ≤ j
    → j < pi + rounds
    → fill_table rounds ram entry offset pi flags (entry + 4 * j)
      ≡ bit_or (add32 offset (j * page_size)) flags
unfolding fill_table
fill_table-inside zero ram entry offset pi flags j lo hi = absurd (omega arith)
fill_table-inside (suc rounds) ram entry offset pi flags j lo hi = elim (Bool-cases (j == pi)) [
  | inr later ↦
      fill_table-inside rounds _ entry offset (pi + 1) flags j (omega (tests, later)) (omega arith)
  | inl here ↦
      let same : j ≡ pi = eq_of_== j pi here in
      fill_table-outside rounds _ entry offset (pi + 1) flags (entry + 4 * j)
        (λ k lo' hi' e. omega arith)
      ∙ rw (==_of_eq (entry + 4 * j) (entry + 4 * pi) (omega arith))
          (ap (λ k. bit_or (add32 offset (k * page_size)) flags) (sym same))
]

-- The word of the directory for a table.
abbrev pub directory_word : (ℕ → ℕ) → ℕ → ℕ → ℕ
directory_word table flags d = bit_or (bit_or (table d) flags) is_writable

fill_directory-outside :
    (rounds : ℕ) (ram : Ram) (directory : ℕ) (table : ℕ → ℕ) (i offset flags a : ℕ)
    → ((d : ℕ) → i ≤ d → d < i + rounds → a ≢ directory + 4 * d)
    → ((d j : ℕ) → i ≤ d → d < i + rounds → j < entries_per_table → a ≢ table d + 4 * j)
    → fill_directory rounds ram directory table i offset flags a ≡ ram a
unfolding fill_directory
fill_directory-outside zero ram directory table i offset flags a out_d out_t = refl
fill_directory-outside (suc rounds) ram directory table i offset flags a out_d out_t =
    fill_directory-outside rounds _ directory table (i + 1) _ flags a
      (λ d lo hi. out_d d (omega arith) (omega arith))
      (λ d j lo hi. out_t d j (omega arith) (omega arith))
    ∙ rw (==_of_ne a (directory + 4 * i) (out_d i (omega arith) (omega arith))) (
        fill_table-outside entries_per_table ram (table i) offset 0 flags a
          (λ j lo hi. out_t i j (omega arith) (omega arith) (omega arith)))

module _ (directory : ℕ) (table : ℕ → ℕ) (pages : ArePages directory table) where
  -- No entry of a table is in the directory, and none in another table.
  table-outside :
      (d e j : ℕ)
      → d < entries_per_table
      → e < entries_per_table
      → j < entries_per_table
      → directory + 4 * e ≢ table d + 4 * j
  table-outside d e j hd he hj same =
      pages.apart d hd (omega (arith, pages.aligned d hd, pages.directory_aligned))

  table-distinct :
      (d e j k : ℕ)
      → d < entries_per_table
      → e < entries_per_table
      → d ≢ e
      → j < entries_per_table
      → k < entries_per_table
      → table d + 4 * j ≢ table e + 4 * k
  table-distinct d e j k hd he ne hj hk same =
      pages.distinct d e hd he ne (omega (arith, pages.aligned d hd, pages.aligned e he))

  fill_directory-word :
      (rounds : ℕ) (ram : Ram) (i offset flags d : ℕ)
      → i ≤ d
      → d < i + rounds
      → i + rounds ≤ entries_per_table
      → fill_directory rounds ram directory table i offset flags (directory + 4 * d)
        ≡ directory_word table flags d
  unfolding fill_directory
  fill_directory-word zero ram i offset flags d lo hi whole = absurd (omega arith)
  fill_directory-word (suc rounds) ram i offset flags d lo hi whole = elim (Bool-cases (d == i)) [
    | inr later ↦
        fill_directory-word rounds _ (i + 1) _ flags d (omega (tests, later)) (omega arith)
          (omega arith)
    | inl here ↦
        let same : d ≡ i = eq_of_== d i here in
        fill_directory-outside rounds _ directory table (i + 1) _ flags (directory + 4 * d)
          (λ e lo' hi' eq. omega arith)
          (λ e j lo' hi' hj. table-outside e d j (omega arith) (omega arith) hj)
        ∙ rw (==_of_eq (directory + 4 * d) (directory + 4 * i) (omega arith))
            (ap (λ k. directory_word table flags k) (sym same))
  ]

  fill_directory-entry :
      (rounds : ℕ) (ram : Ram) (i offset flags d j : ℕ)
      → i ≤ d
      → d < i + rounds
      → i + rounds ≤ entries_per_table
      → j < entries_per_table
      → offset ≡ (i * (entries_per_table * page_size)) % 2 ^ 32
      → fill_directory rounds ram directory table i offset flags (table d + 4 * j)
        ≡ bit_or (d * (entries_per_table * page_size) + j * page_size) flags
  unfolding fill_directory
  fill_directory-entry zero ram i offset flags d j lo hi whole hj at = absurd (omega arith)
  fill_directory-entry (suc rounds) ram i offset flags d j lo hi whole hj at =
      elim (Bool-cases (d == i)) [
        | inr later ↦
            fill_directory-entry rounds _ (i + 1) _ flags d j (omega (tests, later)) (omega arith)
              (omega arith) hj (omega arith)
        | inl here ↦
            let same : d ≡ i = eq_of_== d i here in
            let sum : add32 offset (j * page_size)
                ≡ d * (entries_per_table * page_size) + j * page_size =
              omega arith in
            fill_directory-outside rounds _ directory table (i + 1) _ flags (table d + 4 * j)
              (λ e lo' hi' eq. table-outside d e j (omega arith) (omega arith) hj (sym eq))
              (λ e k lo' hi' hk.
                table-distinct d e j k (omega arith) (omega arith) (omega arith) hj hk)
            ∙ rw
                (==_of_ne (table d + 4 * j) (directory + 4 * i)
                  (λ eq. table-outside d i j (omega arith) (omega arith) hj (sym eq)))
                (ap
                    (λ k.
                      fill_table entries_per_table ram (table i) offset 0 flags (table k + 4 * j))
                    same
                  ∙ fill_table-inside entries_per_table ram (table i) offset 0 flags j (omega arith)
                      (omega arith)
                  ∙ ap (λ w. bit_or w flags) sum)
      ]

  module _ (ram : Ram) (flags : ℕ) (small : flags < page_size) where
    word_lem :
        (d : ℕ)
        → d < entries_per_table
        → directory_word table flags d ≡ (table d + flags) / 4 * 4 + 2 + (table d + flags) % 2
    word_lem d h =
        ap (λ w. bit_or w is_writable) (bit_or-flags (table d) flags (pages.aligned d h) small)
        ∙ bit_or-two (table d + flags)

    word-new_4gb :
        (d : ℕ)
        → d < entries_per_table
        → new_4gb ram directory table flags (directory + 4 * d)
          ≡ (table d + flags) / 4 * 4 + 2 + (table d + flags) % 2
    unfolding new_4gb
    word-new_4gb d h =
        fill_directory-word entries_per_table ram 0 0 flags d (omega arith) (omega arith)
          (omega arith)
        ∙ word_lem d h

    table-new_4gb :
        (d : ℕ)
        → d < entries_per_table
        → table_of (new_4gb ram directory table flags) directory d ≡ table d
    table-new_4gb d h =
        ap (λ w. w / page_size * page_size) (word-new_4gb d h) ∙ omega (arith, pages.aligned d h)

    entry-new_4gb :
        (d j : ℕ)
        → d < entries_per_table
        → j < entries_per_table
        → new_4gb ram directory table flags (table d + 4 * j)
          ≡ d * (entries_per_table * page_size) + j * page_size + flags
    unfolding new_4gb
    entry-new_4gb d j hd hj =
        fill_directory-entry entries_per_table ram 0 0 flags d j (omega arith) (omega arith)
          (omega arith) hj (omega arith)
        ∙ bit_or-flags (d * (entries_per_table * page_size) + j * page_size) flags (omega arith)
            small

    new_4gb-IsDirectory : IsDirectory (new_4gb ram directory table flags) directory
    new_4gb-IsDirectory = record {
      aligned = pages.directory_aligned;
      words = λ d h. omega (arith, word-new_4gb d h, pages.aligned d h, pages.below d h);
      apart = λ d h e. pages.apart d h (sym (table-new_4gb d h) ∙ e);
      distinct = λ d e h k ne same.
          pages.distinct d e h k ne (sym (table-new_4gb d h) ∙ same ∙ table-new_4gb e k);
    }

    get-new_4gb :
        (virt : ℕ)
        → virt % page_size ≡ 0
        → virt < 2 ^ 32
        → get (new_4gb ram directory table flags) directory virt ≡ virt + flags
    get-new_4gb virt h k =
        let d = virt / (entries_per_table * page_size) in
        let j = virt % (entries_per_table * page_size) / page_size in
        get-slot (new_4gb ram directory table flags) directory new_4gb-IsDirectory virt h k
        ∙ ap (λ t. new_4gb ram directory table flags (t + 4 * j)) (table-new_4gb d (omega arith))
        ∙ entry-new_4gb d j (omega arith) (omega arith)
        ∙ omega arith

-- With flags below 4096, and a directory and 1024 tables that are aligned pages apart below 4 GiB,
-- `paging_new_4gb` makes a directory whose tables are pages apart, in which the entry of each page is
-- the page itself with the flags, so that every 32-bit address is translated to itself.
pub new_4gb-identity :
    (ram : Ram) (directory : ℕ) (table : ℕ → ℕ) (flags virt : ℕ)
    → ArePages directory table
    → flags < page_size
    → virt < 2 ^ 32
    → let ram' = new_4gb ram directory table flags in
      IsDirectory ram' directory
      × (get ram' directory (virt / page_size * page_size) ≡ virt / page_size * page_size + flags)
      × (get_physical_address ram' directory virt ≡ virt)
new_4gb-identity ram directory table flags virt pages small h =
    let ram' = new_4gb ram directory table flags in
    let entry =
      get-new_4gb directory table pages ram flags small (virt / page_size * page_size) (omega arith)
        (omega arith) in
    (
      new_4gb-IsDirectory directory table pages ram flags small,
      entry,
      get_physical_address-get ram' directory virt h (omega (arith, entry)) ∙ omega (arith, entry),
    )
