-- ===== src/Disk/Tests.antt =====
-- The theorems on the disk stream at reads of a disk whose bytes are their positions.
use ra_os.Base.{◌+◌, ◌*◌}
use ra_os.Disk.Streamer.{Contents, sector_size}

abbrev test_disk : Contents
test_disk lba i = lba * sector_size + i
