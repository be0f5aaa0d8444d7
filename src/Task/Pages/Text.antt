-- ===== src/Task/Pages/Text.antt =====
-- `copy_string_from_task`: the string arrives, and the pages of the task are as before.
use ra_os.Base.{
  ℕ, zero, suc, ◌-◌, ◌/◌, ◌%◌, ◌^◌, ◌<◌, ◌≡◌, ◌≢◌, refl, ◌∙◌, sym, ap, leb, false, some, List, [],
  ◌∷◌, ◌>>=◌, ok, take, arith, ==_of_ne, ==_of_eq, bit_and,
}
use mathlib.Core.Path.{fun_ext}
use native.Mathlib.Decide.{ℕ_discrete}
use ra_os.Strings.Length.{NonZero}
use ra_os.Memory.Heap.{HeapState, free}
use ra_os.Memory.Kheap.{kzalloc}
use ra_os.Memory.Paging.{
  Ram, write, page_size, add32, get, set, map, align_to_lower_page, get_physical_address,
}
use ra_os.Memory.Paging.Entries.{
  IsDirectory, slot, get-slot, set-slot, write-slot, write-IsDirectory, get-write,
}
use ra_os.Memory.Paging.Translate.{entry_of, map-set}
use ra_os.Elf.{Bytes}
use ra_os.Process.{all_access}
use ra_os.Task.Pages.{Memory, strncpy_at, after, copy_back, copy_through, copy_string_from_task}

-- The page tables with `tmp` mapped to itself.
abbrev pub with_tmp : Ram → ℕ → ℕ → Ram
with_tmp ram directory tmp = write ram (slot ram directory tmp) (entry_of tmp all_access)

module _ (ram : Ram) (directory tmp : ℕ) (valid : IsDirectory ram directory)
    (aligned : tmp % page_size ≡ 0) (below : tmp < 2 ^ 32) where
  pub map_tmp : map ram directory tmp tmp all_access ≡ ok (with_tmp ram directory tmp)
  map_tmp =
      map-set ram directory tmp tmp all_access aligned aligned (omega arith)
      ∙ set-slot ram directory valid tmp (entry_of tmp all_access) aligned below

  -- The old entry put back gives the old tables.
  set_back : set (with_tmp ram directory tmp) directory tmp (get ram directory tmp) ≡ ok ram
  set_back =
      set-slot (with_tmp ram directory tmp) directory
        (write-IsDirectory ram directory valid tmp (entry_of tmp all_access) below) tmp
        (get ram directory tmp) aligned below
      ∙ ap ok (fun_ext λ a. word_back a)
    where
      word_back :
          (a : ℕ)
          → write
              (with_tmp ram directory tmp)
              (slot (with_tmp ram directory tmp) directory tmp)
              (get ram directory tmp)
              a
            ≡ ram a
      word_back a =
          ap (λ e. write (with_tmp ram directory tmp) e (get ram directory tmp) a)
            (write-slot ram directory valid tmp (entry_of tmp all_access) tmp below below)
          ∙ elim (ℕ_discrete a (slot ram directory tmp)) [
            | yes same ↦
                rw (==_of_eq a (slot ram directory tmp) same)
                  (get-slot ram directory valid tmp aligned below ∙ ap ram (sym same))
            | no other ↦ rw (==_of_ne a (slot ram directory tmp) other) refl
          ]

  -- The other pages lead to where they led.
  pub other_page :
      (v : ℕ)
      → v < 2 ^ 32
      → v / page_size ≢ tmp / page_size
      → get_physical_address (with_tmp ram directory tmp) directory v
        ≡ get_physical_address ram directory v
  unfolding get_physical_address align_to_lower_page
  other_page v small differ =
      let page = v - v % page_size in
      let kept : get (with_tmp ram directory tmp) directory page ≡ get ram directory page =
        get-write ram directory valid tmp (entry_of tmp all_access) page aligned below (omega arith)
          (omega arith)
        ∙ rw (==_of_ne page tmp (λ e. differ (omega arith))) refl in
      ap (λ w. add32 (bit_and w 0xfffff000) (v - page)) kept

pub take-take : (n : ℕ) (s : List ℕ) → take n (take n s) ≡ take n s
take-take zero s = refl
take-take (suc n) [] = refl
take-take (suc n) (c ∷ s) = ap (λ r. c ∷ r) (take-take n s)

pub take-NonZero : (n : ℕ) (s : List ℕ) → NonZero s → NonZero (take n s)
take-NonZero zero s h = tt
take-NonZero (suc n) [] h = tt
take-NonZero (suc n) (c ∷ s) h = (h.0, take-NonZero n s h.1)

pub physical_small : (ram : Ram) (directory v : ℕ) → get_physical_address ram directory v < 2 ^ 32
unfolding get_physical_address
physical_small ram directory v = omega arith

module _ (m : Memory) (directory virtual phys max tmp : ℕ) (valid : IsDirectory m.ram directory)
    (aligned : tmp % page_size ≡ 0) (below : tmp < 2 ^ 32) where
  -- The memory once the string is behind `tmp`.
  abbrev pub halfway : HeapState → Bytes → Memory
  halfway heap1 mem1 =
      let through = get_physical_address (with_tmp m.ram directory tmp) directory in
      record m {
        heap = heap1;
        mem = strncpy_at (max - 1) through mem1 tmp virtual;
        ram = with_tmp m.ram directory tmp;
        loaded = m.kernel_directory;
      }

  through_run :
      (heap1 : HeapState) (mem1 : Bytes)
      → copy_through (record m { heap = heap1; mem = mem1 }) directory virtual phys max tmp
        ≡ copy_back (halfway heap1 mem1) directory phys max tmp (get m.ram directory tmp)
  unfolding copy_through
  through_run heap1 mem1 =
      ap
        (λ r.
          copy_back
            (record m {
              heap = heap1;
              mem =
                  strncpy_at (max - 1) (get_physical_address (after m.ram r) directory) mem1 tmp
                    virtual;
              ram = after m.ram r;
              loaded = m.kernel_directory;
            })
            directory phys max tmp (get m.ram directory tmp))
        (map_tmp m.ram directory tmp valid aligned below)

  back_run :
      (heap1 heap2 : HeapState) (mem1 : Bytes)
      → free heap1 tmp ≡ some heap2
      → copy_back (halfway heap1 mem1) directory phys max tmp (get m.ram directory tmp)
        ≡ some (
          ok tt,
          record m {
            heap = heap2;
            mem =
                strncpy_at
                  (max - 1)
                  (get_physical_address m.ram m.kernel_directory)
                  (halfway heap1 mem1).mem
                  phys
                  tmp;
            loaded = m.kernel_directory;
          },
        )
  unfolding copy_back
  back_run heap1 heap2 mem1 freed =
      rw (copy_back, set_back m.ram directory tmp valid aligned below, freed, ◌>>=◌) refl

  pub copy_run :
      (heap1 heap2 : HeapState) (mem1 : Bytes)
      → max < page_size
      → kzalloc m.heap m.mem max ≡ some (some tmp, heap1, mem1)
      → free heap1 tmp ≡ some heap2
      → copy_string_from_task m directory virtual phys max
        ≡ some (
          ok tt,
          record m {
            heap = heap2;
            mem =
                strncpy_at
                  (max - 1)
                  (get_physical_address m.ram m.kernel_directory)
                  (halfway heap1 mem1).mem
                  phys
                  tmp;
            loaded = m.kernel_directory;
          },
        )
  unfolding copy_string_from_task
  copy_run heap1 heap2 mem1 short got freed =
      let test : leb page_size max ≡ false = ground arith in
      rw (copy_string_from_task, test, got, ◌>>=◌)
        (through_run heap1 mem1 ∙ back_run heap1 heap2 mem1 freed)
