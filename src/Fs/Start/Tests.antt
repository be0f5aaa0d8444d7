-- ===== src/Fs/Start/Tests.antt =====
-- The start on the volume of the tests of FAT16.
