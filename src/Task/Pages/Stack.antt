-- ===== src/Task/Pages/Stack.antt =====
-- The items on the stack of a task.
use ra_os.Base.{ℕ, ◌+◌, ◌-◌, ◌*◌, ◌%◌, ◌^◌, ◌≤◌, ◌<◌, ◌≡◌, refl, ◌∙◌, ap, sym, arith}
use ra_os.Memory.Paging.{page_size, add32, get_physical_address}
use ra_os.Memory.Paging.Entries.{IsDirectory}
use ra_os.Elf.{Bytes, word}
use ra_os.Process.Program.{map_stack}
use ra_os.Process.Program.Mapping.{get_physical_address-map_stack}
use ra_os.Task.Pages.{Memory, task_get_stack_item}

-- A word over the bytes of four addresses.
word_at :
    (at : ℕ → ℕ) (mem : Bytes) (a b : ℕ)
    → at a ≡ b
    → at (add32 a 1) ≡ add32 b 1
    → at (add32 a 2) ≡ add32 b 2
    → at (add32 (add32 a 2) 1) ≡ add32 (add32 b 2) 1
    → word (λ v. mem (at v)) a ≡ word mem b
word_at at mem a b e0 e1 e2 e3 = rw (e0, e1, e2, e3) refl

item_at :
    (m : Memory) (directory esp index value : ℕ)
    → word (λ v. m.mem (get_physical_address m.ram directory v)) (add32 esp (4 * index)) ≡ value
    → task_get_stack_item m directory esp index ≡ (value, record m { loaded = m.kernel_directory })
unfolding task_get_stack_item
item_at m directory esp index value e =
    ap (λ (v : ℕ). (v, record m { loaded = m.kernel_directory })) e

-- Once the stack of a process is mapped, item `index` of its task is the word of the stack's memory that
-- lies 4 * index bytes behind the place that the stack pointer stands for, when the word ends at the top of
-- the stack or below, and the kernel's directory is loaded again. The stack is at a page and ends below the
-- last page of the address space.
pub task_get_stack_item-map_stack :
    (m : Memory) (directory stack depth index : ℕ)
    → IsDirectory m.ram directory
    → stack % page_size ≡ 0
    → stack + 16384 ≤ 2 ^ 32 - page_size
    → depth + 4 * index + 4 ≤ 16384
    → task_get_stack_item
        (record m { ram = map_stack m.ram directory stack })
        directory
        (0x3fb000 + depth)
        index
      ≡ (
        word m.mem (stack + (depth + 4 * index)),
        record m { ram = map_stack m.ram directory stack; loaded = m.kernel_directory },
      )
task_get_stack_item-map_stack m directory stack depth index valid aligned below inside =
    let place = depth + 4 * index in
    let at = get_physical_address (map_stack m.ram directory stack) directory in
    let byte : (i a b : ℕ)
        → i < 4
        → a ≡ 0x3fb000 + (place + i)
        → b ≡ stack + (place + i)
        → at a ≡ b =
      λ i a b h from to.
        ap at from
        ∙ get_physical_address-map_stack m.ram directory stack (place + i) valid aligned below
            (omega arith)
        ∙ sym to in
    let esp = add32 (0x3fb000 + depth) (4 * index) in
    item_at (record m { ram = map_stack m.ram directory stack }) directory (0x3fb000 + depth) index
      _
      (word_at at m.mem esp (stack + place) (byte 0 _ _ (omega arith) (omega arith) (omega arith))
        (byte 1 _ _ (omega arith) (omega arith) (omega arith))
        (byte 2 _ _ (omega arith) (omega arith) (omega arith))
        (byte 3 _ _ (omega arith) (omega arith) (omega arith)))
