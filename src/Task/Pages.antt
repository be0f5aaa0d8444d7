-- ===== src/Task/Pages.antt =====
-- src/task/task.c: what the kernel reads of a task through its pages. The processor finds an address by
-- the entries of the directory that is loaded; the bytes that are read and written are apart from the
-- page tables. That a page is present, and writable where it is written, is not looked at.
pub mod Copy
pub mod Text
pub mod User
pub mod Stack
mod Tests
use ra_os.Base.{
  ℕ, zero, suc, ◌+◌, ◌-◌, ◌*◌, ◌^◌, ◌%◌, ◌==◌, if◌then◌else◌, leb, true, false, Option, none, some,
  ◌>>=◌, Result, ok, err, einvarg, enomem, eio,
}
use ra_os.Memory.Heap.{HeapState, free}
use ra_os.Memory.Paging.{Ram, page_size, add32, get, set, map, get_physical_address}
use ra_os.Memory.Kheap.{kzalloc}
use ra_os.Elf.{Bytes, word}
use ra_os.Process.{all_access}

-- The heap, the bytes and the page tables of the memory, the directory of the kernel and the one that is
-- loaded.
pub record Memory : Type 0 where
  pub heap : HeapState
  pub mem : Bytes
  pub ram : Ram
  pub kernel_directory : ℕ
  pub loaded : ℕ

-- `*p = c`, for a byte at a physical address.
abbrev pub poke : Bytes → ℕ → ℕ → Bytes
poke mem p c a = if a == p then c else mem a

-- `strncpy` of src/string/string.c on addresses that the processor finds by `at`: `rounds` is
-- `n - 1 - i`.
unfoldable pub strncpy_at : ℕ → (ℕ → ℕ) → Bytes → ℕ → ℕ → Bytes
strncpy_at zero at mem dest src = poke mem (at dest) 0x00
strncpy_at (suc rounds) at mem dest src = elim (mem (at src) == 0) [
  | true ↦ poke mem (at dest) 0x00
  | false ↦ strncpy_at rounds at (poke mem (at dest) (mem (at src))) (add32 dest 1) (add32 src 1)
]

-- The page tables after a call whose result is not looked at.
abbrev pub after : Ram → Result Ram → Ram
after ram (ok ram') = ram'
after ram (err e) = ram

-- The end of the copy: the old entry is put back, and the string is copied in the kernel's pages.
unfoldable pub copy_back : Memory → ℕ → ℕ → ℕ → ℕ → ℕ → Option (Result (Unit {0}) × Memory)
unfolding strncpy_at free
copy_back m directory phys max tmp old_entry = elim (set m.ram directory tmp old_entry) [
  | err e ↦ (free m.heap tmp >>= λ heap. some (err eio, record m { heap = heap }))
  | ok ram ↦ do
    let kernel = get_physical_address ram m.kernel_directory
    heap ← free m.heap tmp
    some (
      ok tt,
      record m { heap = heap; ram = ram; mem = strncpy_at (max - 1) kernel m.mem phys tmp },
    )
]

-- Once `tmp` is there. In between the directory of the task is loaded, and `kernel_page` loads the
-- kernel's again.
unfoldable pub copy_through : Memory → ℕ → ℕ → ℕ → ℕ → ℕ → Option (Result (Unit {0}) × Memory)
unfolding strncpy_at copy_back
copy_through m directory virtual phys max tmp =
    let mapped = after m.ram (map m.ram directory tmp tmp all_access) in
    let copied = strncpy_at (max - 1) (get_physical_address mapped directory) m.mem tmp virtual in
    copy_back (record m { mem = copied; ram = mapped; loaded = m.kernel_directory }) directory phys
      max tmp (get m.ram directory tmp)

-- `directory` is the page directory of the task. The number `max` is not negative.
unfoldable pub copy_string_from_task : Memory → ℕ → ℕ → ℕ → ℕ → Option (Result (Unit {0}) × Memory)
unfolding kzalloc copy_through
copy_string_from_task m directory virtual phys max =
    if leb page_size max then some (err einvarg, m) else do
      (got, heap, mem) ← kzalloc m.heap m.mem max
      let m' = record m { heap = heap; mem = mem }
      elim got [
        | none ↦ some (err enomem, m')
        | some tmp ↦ copy_through m' directory virtual phys max tmp
      ]

-- The kernel's directory is loaded again at the end.
unfoldable pub task_page_task : Memory → ℕ → Memory
task_page_task m directory = record m { loaded = directory }

unfoldable pub kernel_page : Memory → Memory
kernel_page m = record m { loaded = m.kernel_directory }

-- A word that the processor reads at a virtual address: each byte is found by its own address.
abbrev pub read_word : Memory → ℕ → ℕ
read_word m a = word (λ v. m.mem (get_physical_address m.ram m.loaded v)) a

-- `esp` is the stack pointer of the task, and `index` is not negative.
unfoldable pub task_get_stack_item : Memory → ℕ → ℕ → ℕ → ℕ × Memory
unfolding task_page_task kernel_page get_physical_address
task_get_stack_item m directory esp index =
    let m' = task_page_task m directory in (read_word m' (add32 esp (4 * index)), kernel_page m')

unfoldable pub task_virtual_address_to_physical : Memory → ℕ → ℕ → ℕ
unfolding get_physical_address
task_virtual_address_to_physical m directory virtual_address =
    get_physical_address m.ram directory virtual_address
