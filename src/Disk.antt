-- ===== src/Disk.antt =====
-- src/disk: the disk, and streams of its bytes.
pub mod Streamer
pub mod Ata
mod Tests
