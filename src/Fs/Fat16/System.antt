-- ===== src/Fs/Fat16/System.antt =====
-- `fat16_fs` of src/fs/fat/fat16.c: FAT16 as the file system of the calls on files.
pub mod Opening
pub mod Whole
pub mod Tests
use ra_os.Base.{ℕ, Option, none, some, ◌>>=◌, Result, ok}
use ra_os.Disk.Streamer.{Contents}
use ra_os.Fs.File.{FileSystem}
use ra_os.Fs.Fat16.{FatPrivate}
use ra_os.Fs.Fat16.Lookup.{FatItem, directory_item, file_item, FatFileDescriptor, fat16_open}
use ra_os.Fs.Fat16.Calls.{fat16_read, fat16_seek, fat16_stat}

-- A directory that was freed when it was loaded is freed a second time, which is a fault.
unfoldable pub fat16_fat_item_free : FatItem → Option (Unit {0})
fat16_fat_item_free (directory_item none) = none
fat16_fat_item_free (directory_item (some directory)) = some tt
fat16_fat_item_free (file_item item) = some tt

unfoldable pub fat16_close : FatFileDescriptor → Option (Result (Unit {0}))
unfolding fat16_fat_item_free
fat16_close desc = fat16_fat_item_free desc.item >>= λ freed. some (ok tt)

-- On a disk and what `fat16_resolve` keeps of it, with the fuel of the searches.
abbrev pub fat16_fs : ℕ → Contents → FatPrivate → FileSystem
fat16_fs fuel disk fat_private = record {
  Private = FatFileDescriptor;
  open_path = fat16_open fuel disk fat_private;
  read = fat16_read disk fat_private;
  seek = fat16_seek;
  stat = fat16_stat;
  close = fat16_close;
}
