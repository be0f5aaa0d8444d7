-- ===== src/Fs/Start.antt =====
-- The start of the file system: `fs_init` of src/fs/file.c, `disk_search_and_init` of src/disk/disk.c, and
-- what `fat16_resolve` of src/fs/fat/fat16.c leaves in the disk.
pub mod Mounting
mod Tests
use ra_os.Base.{
  Outcome, done, failed, ℕ, ◌-◌, ◌^◌, ◌==◌, if◌then◌else◌, true, false, Option, none, some,
  replicate, ◌>>=◌,
}
use ra_os.Base.Int.{ℤ, pos, negsuc}
use ra_os.Disk.Streamer.{Contents, Stream, sector_size}
use ra_os.Fs.File.{Files, max_descriptors}
use ra_os.Fs.Mount.{Systems, max_filesystems, insert_filesystem, resolve}
use ra_os.Fs.Fat16.{FatPrivate}
use ra_os.Fs.Fat16.Root

-- `struct disk`; the type 0 is RAOS_DISK_TYPE_REAL, and `none` is NULL.
pub record Disk (F : Type 0) : Type 0 where
  pub disk_type : ℕ
  pub sector_bytes : ℕ
  pub id : ℕ
  pub filesystem : Option F
  pub fs_private : Option FatPrivate

-- `diskstreamer_new`: `disk_get` knows disk 0 alone, and `none` is NULL.
unfoldable pub diskstreamer_new : ℕ → Option Stream
diskstreamer_new id = if id == 0 then some (record { position = 0; known = true }) else none

module _ {F : Type 0} where
  -- `fs_load`, for the file system that `fat16_init` gives.
  unfoldable pub fs_load : F → Option (Systems F)
  unfolding insert_filesystem
  fs_load fat16 = insert_filesystem (replicate max_filesystems none) fat16

  -- `disk` as it is when `fs_resolve` is called.
  unfoldable pub fresh_disk : Disk F
  fresh_disk = record {
    disk_type = 0;
    sector_bytes = sector_size;
    id = 0;
    filesystem = none;
    fs_private = none;
  }

  -- The result of `fat16_resolve` and the disk, for the outcome of reading the volume.
  unfoldable pub bind : Outcome FatPrivate → F → Disk F → ℤ × Disk F
  bind (done private_) fs disk =
      (pos 0, record disk { filesystem = some fs; fs_private = some private_ })
  bind (failed e) fs disk =
      (negsuc (2 ^ 32 - 1 - e), record disk { filesystem = some fs; fs_private = none })

  -- The file system that is bound to the disk is the one that `fs_resolve` answers.
  unfoldable pub disk_search_and_init : (F → Disk F → ℤ × Disk F) → Systems F → Disk F
  unfolding resolve fresh_disk
  disk_search_and_init try systems =
      let (fs, disk) = resolve try systems fresh_disk in record disk { filesystem = fs }

  -- `fs_init` and `disk_search_and_init`, one after the other as in `kernel_main`: the table of
  -- descriptors, and the disk. The only file system of the table is FAT16.
  unfoldable pub start : {P : Type 0} → ℕ → Contents → F → Option (Files P × Disk F)
  unfolding fs_load diskstreamer_new fresh_disk bind disk_search_and_init Root.resolve
  start {P = P} fuel contents fat16 = do
    systems ← fs_load fat16
    stream ← diskstreamer_new fresh_disk.id
    outcome ← Root.resolve fuel contents stream
    let disk = disk_search_and_init (bind outcome) systems
    let files : Files P = record {
      table = replicate max_descriptors none;
      mounted = elim disk.filesystem [ none ↦ false | some fs ↦ true ];
    }
    some (files, disk)
