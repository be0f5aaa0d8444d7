-- ===== src/Task/Pages/User.antt =====
-- The string of a task, in the kernel's memory.
use ra_os.Base.{
  ℕ, ◌+◌, ◌-◌, ◌/◌, ◌%◌, ◌^◌, ◌≤◌, ◌<◌, ◌≡◌, ◌≢◌, refl, ◌∙◌, sym, ap, subst, if◌then◌else◌, false,
  some, List, ok, length, get_elem?, take, length-take, arith, ◌⊎◌, inl, inr,
}
use ra_os.Strings.Length.{NonZero}
use ra_os.Memory.Heap.{HeapState, malloc, free}
use ra_os.Memory.Kheap.Init.{in_block, kzalloc-clear}
use ra_os.Memory.Paging.{page_size, get_physical_address}
use ra_os.Memory.Paging.Entries.{IsDirectory}
use ra_os.Memory.Paging.Translate.{get_physical_address-map}
use ra_os.Elf.{Bytes}
use ra_os.Process.{all_access}
use ra_os.Task.Pages.{Memory, strncpy_at, copy_string_from_task}
use ra_os.Task.Pages.Copy.{ended, Reads, Written, strncpy_at-Written, within}
use ra_os.Task.Pages.Text.{
  with_tmp, map_tmp, other_page, take-take, take-NonZero, physical_small, halfway, copy_run,
}

-- Where the task's string lies: its bytes can be read through the pages of the task, on other pages than
-- `tmp`, and outside of the `max` bytes there.
pub record HasText (m : Memory) (directory virtual tmp max : ℕ) (s : List ℕ) : Type 0 where
  pub text : NonZero s
  pub bytes : Reads m.mem (get_physical_address m.ram directory) virtual (ended s)
  pub room : virtual + length s < 2 ^ 32
  pub pages : (i : ℕ) → i ≤ length s → (virtual + i) / page_size ≢ tmp / page_size
  pub places :
      (i : ℕ)
      → i ≤ length s
      → (get_physical_address m.ram directory (virtual + i) < tmp)
        ⊎ (tmp + max ≤ get_physical_address m.ram directory (virtual + i))

outside_block : (tmp max a : ℕ) → (a < tmp) ⊎ (tmp + max ≤ a) → in_block tmp max a ≡ false
outside_block tmp max a (inl before) = ground arith
outside_block tmp max a (inr behind) = ground arith

not_inside : (tmp max a j : ℕ) → 0 < max → j ≤ max - 1 → (a < tmp) ⊎ (tmp + max ≤ a) → a ≢ tmp + j
not_inside tmp max a j positive h (inl before) e = omega arith
not_inside tmp max a j positive h (inr behind) e = omega arith

module _ (m : Memory) (directory virtual phys max tmp : ℕ) (s : List ℕ)
    (valid : IsDirectory m.ram directory) (aligned : tmp % page_size ≡ 0)
    (below : tmp + page_size ≤ 2 ^ 32) (positive : 0 < max) (short : max < page_size)
    (has : HasText m directory virtual tmp max s) where
  -- The first copy, from the task's pages to `tmp`.
  first_copy :
      (heap1 : HeapState) (mem1 : Bytes)
      → ((a : ℕ) → a < 2 ^ 32 → mem1 a ≡ (if in_block tmp max a then 0 else m.mem a))
      → Written mem1
          (halfway m directory virtual phys max tmp valid aligned (omega arith) heap1 mem1).mem
          tmp
          (max - 1)
          (ended (take (max - 1) s))
  first_copy heap1 mem1 cleared =
      let small : tmp < 2 ^ 32 = omega arith in
      let through = get_physical_address (with_tmp m.ram directory tmp) directory in
      let same : (i : ℕ)
          → i ≤ length s
          → through (virtual + i) ≡ get_physical_address m.ram directory (virtual + i) =
        λ i h.
          other_page m.ram directory tmp valid aligned small (virtual + i) (omega (arith, has.room))
            (has.pages i h) in
      strncpy_at-Written (max - 1) s through mem1 tmp virtual tmp has.text
        (λ i c at.
          let inside = within s i c at in
          let place = get_physical_address m.ram directory (virtual + i) in
          ap mem1 (same i inside)
          ∙ cleared place (physical_small m.ram directory (virtual + i))
          ∙ rw (outside_block tmp max place (has.places i inside)) (has.bytes i c at))
        (λ i h.
          get_physical_address-map m.ram (with_tmp m.ram directory tmp) directory tmp tmp all_access
            i valid aligned small aligned small (omega arith) (omega arith)
            (map_tmp m.ram directory tmp valid aligned small))
        (λ i j h k e.
          not_inside tmp max (get_physical_address m.ram directory (virtual + i)) j positive k
            (has.places i h) (sym (same i h) ∙ e))
        (omega arith) has.room

  -- The second copy, in the kernel's pages.
  second_copy :
      (copied : Bytes)
      → ((a : ℕ) → a < 2 ^ 32 → get_physical_address m.ram m.kernel_directory a ≡ a)
      → ((i c : ℕ) → get_elem? (ended (take (max - 1) s)) i ≡ some c → copied (tmp + i) ≡ c)
      → phys + max ≤ 2 ^ 32
      → (phys + max ≤ tmp) ⊎ (tmp + max ≤ phys)
      → Written copied
          (strncpy_at (max - 1) (get_physical_address m.ram m.kernel_directory) copied phys tmp)
          phys
          (max - 1)
          (ended (take (max - 1) s))
  second_copy copied identity bytes room apart =
      let t = take (max - 1) s in
      let bound : length t ≤ max - 1 = omega (arith, length-take (max - 1) s) in
      subst
        (λ l.
          Written copied
            (strncpy_at (max - 1) (get_physical_address m.ram m.kernel_directory) copied phys tmp)
            phys (max - 1) (ended l))
        (take-take (max - 1) s)
        (strncpy_at-Written (max - 1) t (get_physical_address m.ram m.kernel_directory) copied phys
          tmp phys (take-NonZero (max - 1) s has.text)
          (λ i c at. ap copied (identity (tmp + i) (omega (arith, within t i c at))) ∙ bytes i c at)
          (λ i h. identity (phys + i) (omega arith))
          (λ i j h k e.
            let there : tmp + i ≡ phys + j = sym (identity (tmp + i) (omega arith)) ∙ e in
            elim apart [ inl before ↦ omega arith | inr behind ↦ omega arith ])
          (omega arith) (omega arith))

-- A string of a task that its pages lead to is copied into the kernel's memory: at `phys` there are then
-- its first `max - 1` bytes, or all of them, and a zero byte. The page tables are as before, the kernel's
-- directory is loaded, and the heap has its block back. This is for `max` from 1 to 4095, when the heap
-- gives a page for the copy in between and takes it back, the tables of the task are pages apart, the
-- kernel's directory leads every address to itself, and the destination ends below 4 GiB and is apart
-- from that page.
pub copy_string_from_task_lem :
    (m : Memory) (directory virtual phys max tmp : ℕ) (s : List ℕ) (heap1 heap2 : HeapState)
    → IsDirectory m.ram directory
    → 0 < max
    → max < page_size
    → malloc m.heap max ≡ some (some tmp, heap1)
    → free heap1 tmp ≡ some heap2
    → tmp % page_size ≡ 0
    → tmp + page_size ≤ 2 ^ 32
    → HasText m directory virtual tmp max s
    → ((a : ℕ) → a < 2 ^ 32 → get_physical_address m.ram m.kernel_directory a ≡ a)
    → phys + max ≤ 2 ^ 32
    → (phys + max ≤ tmp) ⊎ (tmp + max ≤ phys)
    → (m' : Memory) × (copy_string_from_task m directory virtual phys max ≡ some (ok tt, m'))
      × ((i c : ℕ) → get_elem? (ended (take (max - 1) s)) i ≡ some c → m'.mem (phys + i) ≡ c)
      × (m'.ram ≡ m.ram)
      × (m'.loaded ≡ m.kernel_directory)
      × (m'.heap ≡ heap2)
copy_string_from_task_lem m directory virtual phys max tmp s heap1 heap2 valid positive short got
      freed aligned below has identity room apart =
    let small : tmp < 2 ^ 32 = omega arith in
    let (mem1, zeroed, cleared) = kzalloc-clear m.heap heap1 m.mem max tmp got (omega arith) in
    let first =
      first_copy m directory virtual phys max tmp s valid aligned below positive short has heap1
        mem1 cleared in
    let copied = (halfway m directory virtual phys max tmp valid aligned small heap1 mem1).mem in
    let second =
      second_copy m directory virtual phys max tmp s valid aligned below positive short has copied
        identity first.bytes_at room apart in
    (
      record m {
        heap = heap2;
        mem = strncpy_at (max - 1) (get_physical_address m.ram m.kernel_directory) copied phys tmp;
        loaded = m.kernel_directory;
      },
      copy_run m directory virtual phys max tmp valid aligned small heap1 heap2 mem1 short zeroed
          freed,
      second.bytes_at,
      refl,
      refl,
      refl,
    )
