-- ===== src/Fs/Fat16.antt =====
-- src/fs/fat/fat16.c: the read-only FAT16 file system over the disk stream. The packed structures of
-- the disk are the lists of their bytes. `none` is an access outside of an object, a division by
-- zero, an `int` that overflows into the negative where the code goes on with it, or the end of a
-- loop's fuel. Allocations succeed.
pub mod Names
pub mod Root
pub mod Clusters
pub mod Lookup
pub mod Calls
pub mod System
pub mod Tests
use ra_os.Base.{
  Outcome, done, failed, fails, minus, ℕ, zero, suc, ◌+◌, ◌-◌, ◌*◌, ◌/◌, ◌^◌, ◌==◌, if◌then◌else◌,
  ltb, Bool, true, false, not, Option, none, some, List, [], ◌∷◌, ◌>>=◌, get_elem?, take, drop,
  Error, eio, einvarg, enomem, ebadpath, efsnotus, erdonly, eunimp, eistkn, einformat, Result, ok,
  err, bit_and,
}
use ra_os.Disk.Streamer.{Contents, Stream, sector_size, seek, read}

-- The values of an `int` that are not negative.
abbrev pub fits_int : ℕ → Bool
fits_int n = ltb n (2 ^ 31)

-- A byte of a structure; the structures are read in full.
abbrev pub byte : List ℕ → ℕ → ℕ
byte bytes i = elim (get_elem? bytes i) [ none ↦ 0 | some b ↦ b ]

abbrev pub half : List ℕ → ℕ → ℕ
half bytes i = byte bytes i + byte bytes (i + 1) * 2 ^ 8

abbrev pub word : List ℕ → ℕ → ℕ
word bytes i = half bytes i + half bytes (i + 2) * 2 ^ 16

-- `struct fat_directory_item`: its 32 bytes.
abbrev pub DirectoryItem : Type 0
DirectoryItem = List ℕ

abbrev pub item_size : ℕ
item_size = 32

abbrev pub attribute : DirectoryItem → ℕ
attribute item = byte item 11

abbrev pub high_16_bits_first_cluster : DirectoryItem → ℕ
high_16_bits_first_cluster item = half item 24

abbrev pub low_16_bits_first_cluster : DirectoryItem → ℕ
low_16_bits_first_cluster item = half item 26

abbrev pub filesize : DirectoryItem → ℕ
filesize item = word item 28

-- FAT_FILE_READ_ONLY and FAT_FILE_SUBDIRECTORY
abbrev pub read_only : ℕ
read_only = 0x01

abbrev pub subdirectory : ℕ
subdirectory = 0x10

abbrev pub is_subdirectory : DirectoryItem → Bool
is_subdirectory item = not (bit_and (attribute item) subdirectory == 0)

-- `struct fat_directory`: the items that were read, and their number, which is an error code when
-- they could not be counted.
pub record Directory : Type 0 where
  pub items : List DirectoryItem
  pub total : Outcome ℕ
  pub sector_pos : ℕ
  pub end_sector_pos : ℕ

-- The fields of `struct fat_header` that the code reads, and the signature behind it.
pub record Header : Type 0 where
  pub sectors_per_cluster : ℕ
  pub reserved_sectors : ℕ
  pub fat_copies : ℕ
  pub root_dir_entries : ℕ
  pub sectors_per_fat : ℕ
  pub signature : ℕ

abbrev pub header_size : ℕ
header_size = 62

abbrev pub read_header : List ℕ → Header
read_header bytes = record {
  sectors_per_cluster = byte bytes 13;
  reserved_sectors = half bytes 14;
  fat_copies = byte bytes 16;
  root_dir_entries = half bytes 17;
  sectors_per_fat = half bytes 22;
  signature = byte bytes 38;
}

-- `struct fat_private`, whose three streams are on the same disk. Every use of one seeks first, so
-- that where the one before left it does not matter.
pub record FatPrivate : Type 0 where
  pub header : Header
  pub root_directory : Directory
  pub stream : Stream

-- Seeking to a position and reading from there, with fuel for the sectors of the read.
unfoldable pub read_at : Contents → Stream → ℕ → ℕ → Option (Outcome (List ℕ))
read_at disk stream position total =
    if fits_int position
    then (do
      (res, bytes, moved) ← read (total / sector_size + 1) disk (seek stream position) total
      some (elim res [ ok _ ↦ done bytes | err e ↦ failed (minus e) ]))
    else none
