-- ===== src/Fs/File/Whole.antt =====
-- A file that is read at once: what `fopen`, `fstat`, `fread` and `fclose` give for it.
use ra_os.Base.{ℕ, ◌<◌, ◌≡◌, some, List, ok, done, length}
use ra_os.Base.Int.{pos}
use ra_os.Fs.File.{FileSystem, Files, FileStat, fopen, fread, fstat, fclose, r_mode}

-- Under the name `filename` there is a file with the bytes `bytes`: it is opened, its size is their
-- number, one read gives them, and closing it leaves the table of descriptors as it was.
pub record Holds (fs : FileSystem) (files : Files fs.Private) (filename bytes : List ℕ)
    : Type 0 where
  pub fd : ℕ
  pub opened : Files fs.Private
  pub stat : FileStat
  pub positive : 0 < fd
  pub opens : fopen fs files filename r_mode ≡ some (fd, opened)
  pub has_stat : fstat fs opened (pos fd) ≡ ok stat
  pub has_size : stat.size ≡ length bytes
  pub reads : fread fs opened stat.size 1 (pos fd) ≡ some (done (1, bytes))
  pub closes : fclose fs opened (pos fd) ≡ some (ok tt, files)
