-- ===== src/Process/Data/Tests.antt =====
-- The loaders at the file B.TXT of a small volume, and a heap of three blocks.
use ra_os.Base.{
  ℕ, ◌+◌, ◌*◌, ◌/◌, ◌≡◌, ◌⊎◌, refl, some, List, [], ◌∷◌, arith, done, fails, einformat, length,
  get_elem?,
}
use ra_os.Memory.Heap.{HeapState, is_free, malloc}
use ra_os.Memory.Paging.{Ram, page_size, get_physical_address}
use ra_os.Memory.Paging.Entries.{IsDirectory}
use ra_os.Disk.Streamer.Bytes.{disk_bytes}
use ra_os.Fs.File.{FileSystem}
use ra_os.Fs.File.Whole.{Holds}
use ra_os.Fs.Fat16.Clusters.{cluster_sector}
use ra_os.Fs.Fat16.Lookup.{FatFileDescriptor}
use ra_os.Fs.Fat16.System.{fat16_fs}
use ra_os.Fs.Fat16.System.Whole.{fat16-Holds}
use ra_os.Fs.Fat16.System.Tests.{
  b_txt, plain_volume, plain_private, b_part, b_path_found, b_part-IsPart, b_path, b_bytes,
  volume_files,
}
use ra_os.Elf.{Bytes, process_pheaders}
use ra_os.Elf.Checks.{IsAccepted}
use ra_os.Elf.Load.{Kernel, elf_file_size, fresh_file, elf_load}
use ra_os.Elf.Load.Image.{elf_load-decides}
use ra_os.Process.Program.{binary_data, process_map_binary}
use ra_os.Process.Data.{process_load_data}
use ra_os.Process.Data.Image.{process_map_binary-process_load_data}

abbrev test_fs : FileSystem
test_fs = fat16_fs 3 plain_volume plain_private

abbrev heap_with : List ℕ → HeapState
heap_with table = record { table = table; saddr = 0x01000000 }

abbrev test_kernel : Kernel FatFileDescriptor
test_kernel = record {
  heap = heap_with (0x00 ∷ 0x00 ∷ 0x00 ∷ []);
  mem = λ a. 0;
  files = volume_files;
}

b_file : Holds test_fs volume_files b_path b_bytes
unfolding cluster_sector
b_file =
    fat16-Holds 3 plain_volume plain_private volume_files b_part [] [] b_txt 0 refl (omega arith)
      refl (b_part-IsPart, tt) (omega arith) b_path_found refl (omega arith) (omega arith)
      (omega arith) (omega arith)

first_block :
    malloc test_kernel.heap elf_file_size
    ≡ some (some 0x01000000, heap_with (0x41 ∷ 0x00 ∷ 0x00 ∷ []))
unfolding malloc is_free
first_block = refl

second_block :
    malloc (heap_with (0x41 ∷ 0x00 ∷ 0x00 ∷ [])) (length b_bytes)
    ≡ some (some 0x01001000, heap_with (0x41 ∷ 0x41 ∷ 0x00 ∷ []))
unfolding malloc is_free disk_bytes
second_block = refl

third_block :
    malloc (heap_with (0x41 ∷ 0x41 ∷ 0x00 ∷ [])) (length b_bytes)
    ≡ some (some 0x01002000, heap_with (0x41 ∷ 0x41 ∷ 0x41 ∷ []))
unfolding malloc is_free disk_bytes
third_block = refl

abbrev test_ram : Ram
test_ram address = (address / 4 + 1) * page_size

test_ram-IsDirectory : IsDirectory test_ram 0
test_ram-IsDirectory = record {
  aligned = omega arith;
  words = λ d h. omega arith;
  apart = λ d h. omega arith;
  distinct = λ d e h k n. omega arith;
}

elf_load-decides_example :
    (mem' : Bytes) × ((i b : ℕ) → get_elem? b_bytes i ≡ some b → mem' (0x01001000 + i) ≡ b)
    × ((IsAccepted mem' 0x01001000
          × (elf_load test_fs test_kernel b_path
              ≡ some (
                done (0x01000000, process_pheaders mem' (fresh_file 0x01001000)),
                record {
                  heap = heap_with (0x41 ∷ 0x41 ∷ 0x00 ∷ []);
                  mem = mem';
                  files = volume_files;
                },
              )))
        ⊎ ((¬ IsAccepted mem' 0x01001000)
            × (elf_load test_fs test_kernel b_path
                ≡ some (
                  fails einformat,
                  record {
                    heap = heap_with (0x41 ∷ 0x41 ∷ 0x00 ∷ []);
                    mem = mem';
                    files = volume_files;
                  },
                ))))
unfolding disk_bytes
elf_load-decides_example =
    elf_load-decides test_fs test_kernel b_path b_bytes 0x01000000 0x01001000
      (heap_with (0x41 ∷ 0x00 ∷ 0x00 ∷ [])) (heap_with (0x41 ∷ 0x41 ∷ 0x00 ∷ [])) b_file first_block
      second_block (omega arith)

process_map_binary-process_load_data_example :
    (kernel' : Kernel FatFileDescriptor) × (process_load_data test_fs test_kernel b_path
      ≡ some (done (binary_data 0x01002000 (length b_bytes)), kernel'))
    × (kernel'.files ≡ volume_files)
    × ((n b : ℕ)
        → get_elem? b_bytes n ≡ some b
        → kernel'.mem (
            get_physical_address
              (process_map_binary test_ram 0 0x01002000 (length b_bytes))
              0
              (0x400000 + n))
          ≡ b)
unfolding disk_bytes
process_map_binary-process_load_data_example =
    process_map_binary-process_load_data test_fs test_kernel b_path b_bytes b'x' 0x01000000
      0x01001000 0x01002000 (heap_with (0x41 ∷ 0x00 ∷ 0x00 ∷ []))
      (heap_with (0x41 ∷ 0x41 ∷ 0x00 ∷ [])) (heap_with (0x41 ∷ 0x41 ∷ 0x41 ∷ [])) test_ram 0 b_file
      refl (λ e. omega (arith, e)) first_block second_block third_block (omega arith)
      test_ram-IsDirectory (omega arith) (omega arith) (omega arith)
