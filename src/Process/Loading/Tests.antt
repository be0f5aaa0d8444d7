-- ===== src/Process/Loading/Tests.antt =====
-- B.TXT of the volume of the tests of FAT16 is loaded into the second slot, from a heap of ten blocks.
use ra_os.Base.{
  inl, inr, ◌-◌, ℕ, ◌+◌, ◌*◌, ◌<◌, ◌≡◌, refl, none, some, List, [], ◌∷◌, ◌++◌, arith, done, length,
  replicate,
}
use ra_os.Memory.Heap.{HeapState, is_free, malloc}
use ra_os.Memory.Kheap.{clear}
use ra_os.Memory.Paging.{get_physical_address}
use ra_os.Memory.Paging.Identity.{ArePages}
use ra_os.Disk.Streamer.Bytes.{disk_bytes}
use ra_os.Fs.File.{FileSystem}
use ra_os.Fs.File.Whole.{Holds}
use ra_os.Fs.Fat16.Clusters.{cluster_sector}
use ra_os.Fs.Fat16.Lookup.{FatFileDescriptor}
use ra_os.Fs.Fat16.System.{fat16_fs}
use ra_os.Fs.Fat16.System.Whole.{fat16-Holds}
use ra_os.Fs.Fat16.System.Tests.{
  b_txt, plain_volume, plain_private, b_part, b_path_found, b_part-IsPart, b_path, b_bytes,
  volume_files,
}
use ra_os.Elf.{Bytes}
use ra_os.Elf.Load.{Kernel, elf_file_size}
use ra_os.Task.Life.{no_tasks}
use ra_os.Task.Queue.New.{TaskAt}
use ra_os.Task.Queue.{IsCurrent, IsQueue}
use ra_os.Process.Slots.{Loaded}
use ra_os.Process.Program.{binary_data}
use ra_os.Process.Data.{process_load_data}
use ra_os.Process.Data.Load.{process_load_data-decides}
use ra_os.Process.Data.Image.{IsAccepted-first}
use ra_os.Process.Loading.{TaskMemory, System, process_size, stack_size, set_filename, process_load}
use ra_os.Process.Loading.Slot.{process_load-Loaded}

abbrev test_fs : FileSystem
test_fs = fat16_fs 3 plain_volume plain_private

abbrev heap_with : List ℕ → HeapState
heap_with table = record { table = table; saddr = 0x01000000 }

-- The entries of the process, and of the blocks that loading takes.
abbrev of_process : List ℕ → List ℕ
of_process rest = 0xc1 ∷ 0x81 ∷ 0x01 ∷ rest

abbrev test_system : System FatFileDescriptor
test_system = record {
  kernel = record { heap = heap_with (replicate 10 0x00); mem = λ a. 0; files = volume_files };
  ram = λ a. 0;
  tasks = no_tasks;
  processes = record { processes = some 100 ∷ replicate 11 none; current_process = some 100 };
  structs = λ a. none;
}

abbrev test_memory : HeapState → TaskMemory
test_memory heap = record {
  task = 0x02000000;
  directory = 0x02001000;
  table = λ d. 0x02002000 + d * 4096;
  chunk = 0x03000000;
  heap = heap;
}

test_memory-ArePages : ArePages 0x02001000 (λ d. 0x02002000 + d * 4096)
test_memory-ArePages = record {
  directory_aligned = refl;
  aligned = λ d h. omega arith;
  below = λ d h. omega (arith, h);
  apart = λ d h e. omega (arith, e);
  distinct = λ d e h k n same. n (omega (arith, same));
}

process_blocks :
    malloc (heap_with (replicate 10 0x00)) process_size
    ≡ some (some 0x01000000, heap_with (of_process (replicate 7 0x00)))
unfolding malloc is_free
process_blocks = refl

elf_block :
    malloc (heap_with (of_process (replicate 7 0x00))) elf_file_size
    ≡ some (some 0x01003000, heap_with (of_process (0x41 ∷ replicate 6 0x00)))
unfolding malloc is_free
elf_block = refl

image_block :
    malloc (heap_with (of_process (0x41 ∷ replicate 6 0x00))) (length b_bytes)
    ≡ some (some 0x01004000, heap_with (of_process (0x41 ∷ 0x41 ∷ replicate 5 0x00)))
unfolding malloc is_free disk_bytes
image_block = refl

binary_block :
    malloc (heap_with (of_process (0x41 ∷ 0x41 ∷ replicate 5 0x00))) (length b_bytes)
    ≡ some (some 0x01005000, heap_with (of_process (0x41 ∷ 0x41 ∷ 0x41 ∷ replicate 4 0x00)))
unfolding malloc is_free disk_bytes
binary_block = refl

abbrev stack_heap : HeapState
stack_heap = heap_with (of_process (0x41 ∷ 0x41 ∷ 0x41 ∷ 0xc1 ∷ 0x81 ∷ 0x81 ∷ 0x01 ∷ []))

stack_blocks :
    malloc (heap_with (of_process (0x41 ∷ 0x41 ∷ 0x41 ∷ replicate 4 0x00))) stack_size
    ≡ some (some 0x01006000, stack_heap)
unfolding malloc is_free
stack_blocks = refl

b_file : Holds test_fs volume_files b_path b_bytes
unfolding cluster_sector
b_file =
    fat16-Holds 3 plain_volume plain_private volume_files b_part [] [] b_txt 0 refl (omega arith)
      refl (b_part-IsPart, tt) (omega arith) b_path_found refl (omega arith) (omega arith)
      (omega arith) (omega arith)

abbrev test_kernel : Kernel FatFileDescriptor
test_kernel = record {
  heap = heap_with (of_process (replicate 7 0x00));
  mem = clear process_size (λ a. 0) 0x01000000;
  files = volume_files;
}

abbrev loaded_kernel : Bytes → Kernel FatFileDescriptor
loaded_kernel mem = record {
  heap = heap_with (of_process (0x41 ∷ 0x41 ∷ 0x41 ∷ replicate 4 0x00));
  mem = mem;
  files = volume_files;
}

b_loaded :
    (mem : Bytes) × (process_load_data test_fs test_kernel b_path
      ≡ some (done (binary_data 0x01005000 (length b_bytes)), loaded_kernel mem))
unfolding disk_bytes
b_loaded =
    let (mem', image, decided) =
      process_load_data-decides test_fs test_kernel b_path b_bytes 0x01003000 0x01004000 0x01005000
        (heap_with (of_process (0x41 ∷ replicate 6 0x00)))
        (heap_with (of_process (0x41 ∷ 0x41 ∷ replicate 5 0x00)))
        (heap_with (of_process (0x41 ∷ 0x41 ∷ 0x41 ∷ replicate 4 0x00))) b_file elf_block
        image_block binary_block (omega arith) (omega arith) in
    elim decided [
      | inl (accepted, loaded) ↦
          absurd (omega (arith, IsAccepted-first mem' 0x01004000 accepted, image 0 b'x' refl))
      | inr (refused, (mem, held, loaded)) ↦ (mem, loaded)
    ]

abbrev b_name : List ℕ
b_name = b_path ++ replicate (128 - length b_path) 0x00

b_named : set_filename b_path ≡ some b_name
unfolding set_filename
b_named = refl

nothing_queued : IsQueue no_tasks []
unfolding IsCurrent
nothing_queued = (tt, refl, refl, refl)

process_load-Loaded_example :
    (n : ℕ) × (system' : System FatFileDescriptor) × (process_load test_fs test_memory test_system
        b_path
      ≡ some (done 0x01000000, system'))
    × Loaded test_system.processes n 0x01000000 system'.processes
    × (system'.structs 0x01000000
        ≡ some (record {
          id = n;
          filename = b_name;
          task = 0x02000000;
          program = binary_data 0x01005000 (length b_bytes);
          stack = 0x01006000;
        }))
    × IsQueue system'.tasks (0x02000000 ∷ [])
    × TaskAt system'.tasks.store 0x02000000 0x02001000 0x01000000
    × ((i : ℕ)
        → i < length b_bytes
        → get_physical_address system'.ram 0x02001000 (0x400000 + i) ≡ 0x01005000 + i)
    × ((i : ℕ)
        → i < 16384
        → get_physical_address system'.ram 0x02001000 (0x3fb000 + i) ≡ 0x01006000 + i)
unfolding disk_bytes
process_load-Loaded_example =
    process_load-Loaded test_fs test_memory test_system b_path b_name [] 1 0x01000000 0x01005000
      (length b_bytes) 0x01006000 (heap_with (of_process (replicate 7 0x00))) stack_heap
      (loaded_kernel b_loaded.0) refl refl process_blocks b_loaded.1 stack_blocks b_named
      nothing_queued refl test_memory-ArePages refl (omega arith) (omega arith) refl (omega arith)
