-- ===== src/Lib.antt =====
-- RaOS, a small 32-bit kernel for the PC: models of its memory management, its file and path layers,
-- its file system, its disk stream, its loader, its processes and tasks and its descriptor tables, and
-- theorems about them.
--
-- The parts and how they interact. The heap (src/memory/heap/heap.c) hands out blocks of 4096 bytes
-- from a table of one byte for each block. Paging (src/memory/paging/paging.c) maps pages through
-- directories and tables in memory. A path (src/fs/pparser.c) is parsed for a call of the file layer
-- (src/fs/file.c), which keeps the table of descriptors and calls a file system through a record of
-- functions. The file system is FAT16 (src/fs/fat/fat16.c), which reads the disk through a stream
-- (src/disk/streamer.c), and src/disk/disk.c drives the controller of the disk. The loader
-- (src/loader/elfloader.c) opens and reads an image through the file layer, checks it and computes
-- where its segments lie. A program, an ELF image or else plain bytes, is loaded into a process
-- (src/task/process.c), which gets its memory from the heap and from paging and its arguments from the
-- one that starts it, and runs as a task of a list (src/task/task.c), whose memory the kernel reads
-- through its pages. At the start the kernel sets up segments (src/gdt/gdt.c) and interrupts
-- (src/idt/idt.c) and prints (src/kernel.c); all of these use src/string/string.c and
-- src/memory/memory.c.
--
-- The files:
--   Base               shared names; Base.Tests has the Boolean tests and the conditional, Base.Lists
--                      the list functions over native numbers, Base.Status src/status.h, Base.Fault
--                      steps that may leave their memory, Base.Bits masks, Base.Int the integers
--   Memory             src/memory/memory.c: memset, memcmp, memcpy on byte lists
--   Memory.Heap        src/memory/heap/heap.c: heap_create, heap_malloc, heap_free and what they
--                      call, under the C names without the prefix; Search and FirstFit are about
--                      heap_get_start_block, Chunks lays a table out as free blocks and allocations,
--                      Marks is about the two loops that mark blocks, Alloc about allocation and
--                      release, Rounding about sizes in bytes, Life about any sequence of calls
--   Memory.Paging      src/memory/paging/paging.c; Entries is about paging_get and paging_set,
--                      Translate about paging_map and translation, Range about runs of pages,
--                      Identity about paging_new_4gb; Release is paging_free_4gb
--   Memory.Kheap       src/memory/heap/kheap.c: kheap_init and kzalloc, with Init about both
--   Strings            src/string/string.c
--   Fs.PathParser      src/fs/pparser.c; Parts is about the parts of a path, Parse about path_parse
--   Fs.File            src/fs/file.c; Table is about the table of descriptors, Calls about fopen and
--                      fclose, Whole says what a file is that can be read as a whole
--   Fs.Start           fs_init of src/fs/file.c and disk_search_and_init of src/disk/disk.c, with
--                      diskstreamer_new and the disk that fat16_resolve leaves; Mounting is about what
--                      the start leaves for the calls on files
--   Fs.Mount           the table of file systems in src/fs/file.c; Resolve is about inserting one
--                      and finding the one of a disk
--   Fs.Fat16           src/fs/fat/fat16.c: the structures of the disk; Names has the names of items,
--                      Root counting items and mounting a volume, Clusters chains of clusters and
--                      reading, Lookup the way from a path to an item, Calls what is done with an
--                      open file, System FAT16 as the file system of the file layer; Root.Count,
--                      Root.Mounted, Names.Padding, Clusters.Reading, Lookup.Find, Lookup.Path,
--                      Calls.Seeking, Calls.Reading, System.Opening and System.Whole are about these
--   Task               src/task/task.c: the list of tasks and the switch; Links is about doubly
--                      linked segments, Queue about the list that the variables stand for, Queue.New
--                      about a new task, Life
--                      about any sequence of operations, Rounds about switches: Fair about turns,
--                      Context about registers; Pages has copy_string_from_task and
--                      task_get_stack_item, with Copy, Text and User about the string and Stack about
--                      the item
--   Process            src/task/process.c: the array of processes, which Slots is about; Memory the
--                      allocations, with Undo and Restored about asking for memory and freeing it and
--                      Terminate about the release of all; Data the loading of a program's file, with
--                      Load and Image; Program the mapping of a program, with Mapping about binaries
--                      and the stack, Whole about both, Segments and Image about ELF images; Arguments
--                      the arguments,
--                      with Count, Inject and Refused; Loading the loading into a slot with its
--                      task, with Slot; Ending the end of a process, with Unused
--   Disk.Streamer      src/disk/streamer.c and disk_read_block of src/disk/disk.c
--   Disk.Ata           disk_read_sector of src/disk/disk.c over the ports of the processor; Sectors says
--                      what a controller is and is about the sectors read
--   Elf                src/loader/elfloader.c; Checks is about elf_validate_loaded, Bounds about
--                      elf_process_pheaders, Load is elf_load and elf_close over the file layer
--   Gdt, Idt, Terminal src/gdt/gdt.c, src/idt/idt.c, and the terminal in src/kernel.c; Terminal.Blank
--                      is about the screen at the start
--   Kernel             the segments of src/kernel.c, which Segments is about
--
-- State is passed explicitly: an operation takes the heap, the memory, the table or the terminal and
-- returns the new one. A 32-bit sum is written with its remainder by 2^32. An access outside of an
-- object that the code owns is `none`; an error code is `err` of its name, and NULL an inner `none`.
--
-- Bounds and fuel. The parser's loop over parts has fuel for one more step than the path has bytes;
-- each part takes a byte, so that this is enough. A stream's read takes a sector for each step, so
-- that fuel above the count of whole sectors is enough. The loop that counts the items of a directory
-- has no bound in the code; fuel above the index of the item that ends the directory is enough. A read
-- of clusters has fuel for its bytes in sectors, of which a cluster has one or more. The wait for the
-- controller of the disk has no bound in the code; fuel for as many polls as the controller lets it
-- wait is enough. The list of a program's arguments is walked with fuel for its length. All other
-- loops are structural.
--
-- Not modelled: assembly, with the ports and the registers of the processor, but for what task_return
-- (src/task/task.asm) enters a program with (the ports are a parameter of Disk.Ata); kernel_main,
-- which calls the parts in order and runs a test of the calls on files; the handlers of src/idt/idt.c,
-- which print and acknowledge; the accessors of sections in src/loader/elfloader.c and of the entry
-- point in src/loader/elf.c, which nothing calls; process_load_switch; path_free; the blocks that
-- closing a file of FAT16 gives back to the heap. The memory that task_new gets from the heap is a
-- parameter of the loading. FAT16, the parser and the file layer take their allocations to succeed, as
-- most of their code does.
pub mod Base
pub mod Memory
pub mod Strings
pub mod Fs
pub mod Gdt
pub mod Idt
pub mod Terminal
pub mod Kernel
pub mod Disk
pub mod Elf
pub mod Task
pub mod Process
