-- ===== src/Fs.antt =====
-- src/fs: the path parser, the layer of file descriptors, the table of file systems, and FAT16.
pub mod PathParser
pub mod File
pub mod Fat16
pub mod Mount
pub mod Start
