-- ===== src/Task/Pages/Tests.antt =====
-- A task whose directory is at 0, with the string "ab" at address 0x500000, and the kernel's directory.
use ra_os.Base.{
  ℕ, ◌+◌, ◌-◌, ◌*◌, ◌/◌, ◌%◌, ◌^◌, ◌<◌, ◌≡◌, ◌==◌, refl, if◌then◌else◌, ltb, some, some_eq, List,
  [], true, false, zero, suc, ◌∙◌, ap, lt→ltb, le→ltb, ◌∷◌, ok, get_elem?, take, arith, inl, inr,
}
use ra_os.Memory.Heap.{HeapState, is_free, malloc, free}
use ra_os.Memory.Paging.{Ram, page_size, get, get_physical_address}
use ra_os.Memory.Paging.Entries.{IsDirectory, table_of, slot, get-slot}
use ra_os.Memory.Paging.Translate.{get_physical_address-get}
use ra_os.Elf.{word}
use ra_os.Process.Program.{map_stack}
use ra_os.Task.Pages.{Memory, copy_string_from_task, task_get_stack_item}
use ra_os.Task.Pages.Copy.{ended}
use ra_os.Task.Pages.User.{HasText, copy_string_from_task_lem}
use ra_os.Task.Pages.Stack.{task_get_stack_item-map_stack}

-- Tables from 0x1000 on, which lead every page to itself with the flags 7.
abbrev test_ram : Ram
test_ram address =
    if ltb address 4096
    then (address / 4 + 1) * page_size + 7
    else (address - 4096) / 4 * page_size + 7

abbrev heap_with : List ℕ → HeapState
heap_with table = record { table = table; saddr = 0x01000000 }

abbrev test_memory : Memory
test_memory = record {
  heap = heap_with (0x00 ∷ []);
  mem = λ a. if a == 0x500000 then b'a' else if a == 0x500001 then b'b' else 0;
  ram = test_ram;
  kernel_directory = 0;
  loaded = 0;
}

table_at : (d : ℕ) → d < 1024 → table_of test_ram 0 d ≡ (d + 1) * page_size
table_at d h =
    let inside : ltb (0 + 4 * d) 4096 ≡ true = lt→ltb (0 + 4 * d) 4096 (omega arith) in
    rw inside (omega arith)

test_ram-IsDirectory : IsDirectory test_ram 0
test_ram-IsDirectory = record {
  aligned = omega arith;
  words = λ d h. ground arith;
  apart = λ d h e. omega (arith, table_at d h, e);
  distinct = λ d e h k n same. n (omega (arith, table_at d h, table_at e k, same));
}

entry_at : (page : ℕ) → page % page_size ≡ 0 → page < 2 ^ 32 → get test_ram 0 page ≡ page + 7
entry_at page aligned below =
    let d = page / (1024 * 4096) in
    let place = slot test_ram 0 page in
    let found : place ≡ (d + 1) * page_size + 4 * (page % (1024 * 4096) / page_size) =
      ap (λ t. t + 4 * (page % (1024 * 4096) / page_size)) (table_at d (omega arith)) in
    let outside : ltb place 4096 ≡ false = le→ltb place 4096 (omega (arith, found)) in
    get-slot test_ram 0 test_ram-IsDirectory page aligned below
    ∙ ap (λ b. if b then (place / 4 + 1) * page_size + 7 else (place - 4096) / 4 * page_size + 7)
        outside
    ∙ omega (arith, found)

identity : (a : ℕ) → a < 2 ^ 32 → get_physical_address test_ram 0 a ≡ a
identity a h =
    let entry = entry_at (a / page_size * page_size) (omega arith) (omega arith) in
    get_physical_address-get test_ram 0 a h (omega (arith, entry)) ∙ omega (arith, entry)

text_at :
    (i c : ℕ)
    → get_elem? (ended (b'a' ∷ b'b' ∷ [])) i ≡ some c
    → test_memory.mem (get_physical_address test_ram 0 (0x500000 + i)) ≡ c
text_at zero c at = ap test_memory.mem (identity (0x500000 + 0) (omega arith)) ∙ some_eq at
text_at (suc zero) c at = ap test_memory.mem (identity (0x500000 + 1) (omega arith)) ∙ some_eq at
text_at (suc (suc zero)) c at =
    ap test_memory.mem (identity (0x500000 + 2) (omega arith)) ∙ some_eq at
text_at (suc (suc (suc i))) c at = absurd (ground (arith, at))

test_text : HasText test_memory 0 0x500000 0x01000000 16 (b'a' ∷ b'b' ∷ [])
test_text = record {
  text = omega arith;
  bytes = text_at;
  room = omega arith;
  pages = λ i h. omega arith;
  places = λ i h. inl (omega (arith, identity (0x500000 + i) (omega arith)));
}

taken : malloc test_memory.heap 16 ≡ some (some 0x01000000, heap_with (0x41 ∷ []))
unfolding malloc is_free
taken = refl

given_back : free (heap_with (0x41 ∷ [])) 0x01000000 ≡ some (heap_with (0x00 ∷ []))
unfolding free
given_back = refl

copy_string_from_task_lem_example :
    (m' : Memory) × (copy_string_from_task test_memory 0 0x500000 0x02000000 16 ≡ some (ok tt, m'))
    × ((i c : ℕ)
        → get_elem? (ended (take 15 (b'a' ∷ b'b' ∷ []))) i ≡ some c
        → m'.mem (0x02000000 + i) ≡ c)
    × (m'.ram ≡ test_ram)
    × (m'.loaded ≡ 0)
    × (m'.heap ≡ heap_with (0x00 ∷ []))
copy_string_from_task_lem_example =
    copy_string_from_task_lem test_memory 0 0x500000 0x02000000 16 0x01000000 (b'a' ∷ b'b' ∷ [])
      (heap_with (0x41 ∷ [])) (heap_with (0x00 ∷ [])) test_ram-IsDirectory (omega arith)
      (omega arith) taken given_back (omega arith) (omega arith) test_text identity (omega arith)
      (inr (omega arith))

task_get_stack_item-map_stack_example :
    task_get_stack_item
      (record test_memory { ram = map_stack test_ram 0 0x01004000 })
      0
      (0x3fb000 + 16000)
      2
    ≡ (
      word test_memory.mem (0x01004000 + (16000 + 4 * 2)),
      record test_memory { ram = map_stack test_ram 0 0x01004000; loaded = 0 },
    )
task_get_stack_item-map_stack_example =
    task_get_stack_item-map_stack test_memory 0 0x01004000 16000 2 test_ram-IsDirectory
      (omega arith) (omega arith) (omega arith)
