-- ===== src/Fs/Start/Mounting.antt =====
-- What the start of the file system leaves for the calls on files.
use ra_os.Base.{failed, ℕ, ◌≡◌, ◌≢◌, refl, Bool, true, false, Option, none, some, replicate, ◌>>=◌}
use ra_os.Disk.Streamer.{Contents, Stream, sector_size}
use ra_os.Fs.File.{Files, max_descriptors}
use ra_os.Fs.Mount.{insert_filesystem, resolve}
use ra_os.Fs.Fat16.{FatPrivate}
use ra_os.Fs.Fat16.Root
use ra_os.Fs.Fat16.Root.Mounted.{header_of, mounted, unsigned_refused}
use ra_os.Fs.Start.{Disk, diskstreamer_new, fs_load, fresh_disk, bind, disk_search_and_init, start}

-- A stream of the kernel's disk at its first byte.
abbrev pub first_stream : Stream
first_stream = record { position = 0; known = true }

-- No file is in use, and the disk has a file system or not.
abbrev pub no_files : {P : Type 0} → Bool → Files P
no_files has = record { table = replicate max_descriptors none; mounted = has }

abbrev pub bound : {F : Type 0} → Option F → Option FatPrivate → Disk F
bound fs kept = record {
  disk_type = 0;
  sector_bytes = sector_size;
  id = 0;
  filesystem = fs;
  fs_private = kept;
}

module _ {F P : Type 0} where
  start-failed :
      (fuel : ℕ) (contents : Contents) (fat16 : F) (e : ℕ)
      → Root.resolve fuel contents first_stream ≡ some (failed e)
      → start {P = P} fuel contents fat16 ≡ some (no_files false, bound none none)
  unfolding start fs_load diskstreamer_new bind fresh_disk disk_search_and_init resolve
      insert_filesystem
  start-failed fuel contents fat16 e found = rw (found, ◌>>=◌) refl

-- After the start on a disk whose byte 38 is not 0x29 the disk has no file system.
start-refused :
    {F P : Type 0} (fuel : ℕ) (disk : Contents) (fat16 : F)
    → (header_of disk).signature ≢ 0x29
    → start {P = P} fuel disk fat16 ≡ some (no_files false, bound none none)
start-refused fuel disk fat16 unsigned =
    start-failed fuel disk fat16 _ (unsigned_refused fuel disk first_stream refl unsigned)
